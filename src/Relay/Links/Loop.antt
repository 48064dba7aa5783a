-- ===== src/Relay/Links/Loop.antt =====
-- All the links of a message, as `RelayProcessor.process` of src/promo_bot/relay/service.py goes through
-- them.
use mathlib.Core.Path.{subst}
use promo_bot.Base.{All, List, [], ◌∷◌, ◌+◌, ℕ, ◌≡◌, refl, ap}
use promo_bot.Stores.Patterns.{Text}
use promo_bot.Relay.Processor.{processed, processing_error, crashed, LinkOutcome as Ending}
use promo_bot.Relay.Links.Process.{
  ExtractedLink, Linker, LinkStore, process_link, process_links, after_link,
}
use promo_bot.Relay.Links.Handled.{Handled, IsHandled}
use promo_bot.Relay.Links.Settled.{link_settles, link-keeps}

-- The loop went on after a link only if that was processed.
after_link-processed :
    (r : LinkStore × Ending) (rest : LinkStore → LinkStore × Ending) {s' : LinkStore}
    → after_link r rest ≡ (s', processed)
    → (t : LinkStore) × (r ≡ (t, processed)) × (rest t ≡ (s', processed))
after_link-processed (t, processed) rest e = (t, refl, e)
after_link-processed (t, processing_error retryable code summary) rest e = absurd (cc)
after_link-processed (t, crashed) rest e = absurd (cc)

module _ (p : Linker) where
  -- The link of an earlier turn is still handled after the later ones.
  links-keep :
      (clock : ℕ → ℕ) (message k m : ℕ) (hash : Text) (links : List ExtractedLink) (s : LinkStore)
      {s' : LinkStore}
      → Handled p m hash s
      → process_links p clock message k links s ≡ (s', processed)
      → Handled p m hash s'
  unfolding process_links
  links-keep clock message k m hash [] s h done =
      subst (Handled p m hash) (ap (λ (r : LinkStore × Ending). r.0) done) h
  links-keep clock message k m hash (link ∷ links) s h done =
      let (t, one, rest) =
        after_link-processed (process_link p (clock k) message link s)
          (process_links p clock message (k + 1) links) done in
      links-keep clock message (k + 1) m hash links t
        (link-keeps p (clock k) m hash message link s h one) rest

  turns_settle :
      (clock : ℕ → ℕ) (message k : ℕ) (links : List ExtractedLink) (s : LinkStore) {s' : LinkStore}
      → process_links p clock message k links s ≡ (s', processed)
      → All (λ (l : ExtractedLink). IsHandled p.links message (p.sha256 l.url) s'.links) links
  unfolding process_links
  turns_settle clock message k [] s done = tt
  turns_settle clock message k (link ∷ links) s done =
      let (t, one, rest) =
        after_link-processed (process_link p (clock k) message link s)
          (process_links p clock message (k + 1) links) done in
      (
        links-keep clock message (k + 1) message (p.sha256 link.url) links t
            (link_settles p (clock k) message link s one) rest,
        turns_settle clock message (k + 1) links t rest,
      )

module _ (p : Linker) (clock : ℕ → ℕ) (message : ℕ) (links : List ExtractedLink) (s : LinkStore)
    {s' : LinkStore} (done : process_links p clock message 0 links s ≡ (s', processed)) where
  -- When the loop over the links of a message ends without a failure, each of the links has a row with
  -- an outcome: what one turn settles, no later turn of the loop undoes.
  pub links_settle :
      All (λ (l : ExtractedLink). IsHandled p.links message (p.sha256 l.url) s'.links) links
  links_settle = turns_settle p clock message 0 links s done
