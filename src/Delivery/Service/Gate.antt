-- ===== src/Delivery/Service/Gate.antt =====
-- src/promo_bot/delivery/service.py: when a send reaches the transport, and what its result says.
use promo_bot.Base.{
  ℕ, ◌≡◌, ◌≢◌, inl, inr, refl, sym, Bool, true, false, Option, some, none, List, [], ◌∷◌, ok,
  raised, Result, arith, eq_iff, Bool-cases, Option-cases, String, All, not,
}
use promo_bot.Domain.Enums.{DealState, DeliveryPurpose, ReviewState}
use mathlib.Core.Path.{subst}
use promo_bot.Sql.Rows.{Sql, get}
use promo_bot.Sql.Keys.{find, find-key}
use promo_bot.Delivery.Model.{Delivery, Deal, AffiliateLinkProof, delivery_id}
use promo_bot.Delivery.Repository.{same_purpose}
use promo_bot.Delivery.Service.{
  Service, Settings, PublicationContext, Answer, World, RenderedMessage, SendError, deal_id,
  proof_id, publication_allowed, publication_gates, every, is_text, is_some_text, is_awaiting,
  is_id, is_ready, is_true, proof_row, admit, admitted_row, proof_of, send_admitted, send,
}

-- The safety policy, in the words of its gates.
pub record IsOpen (settings : Settings) (context : PublicationContext) (deal : Deal)
    (proof : AffiliateLinkProof) (delivery : Delivery) : Type 0 where
  pub not_dry : settings.dry_run ≡ false
  pub publishing : settings.publish_real_deals ≡ true
  pub affiliated_only : settings.publish_without_affiliate ≡ false
  pub enabled : context.provider_enabled ≡ true
  pub official : context.affiliate_mode ≡ "official_api"
  pub credentials : context.credentials_valid ≡ true
  pub capacity : context.hourly_capacity_available ≡ true
  pub ready : deal.status ≡ DealState.ready
  pub reais : deal.currency ≡ "BRL"
  pub available : deal.available ≡ some true
  pub link : deal.affiliate_link ≡ some proof.short_link
  pub link_there : proof.short_link ≢ ""
  pub proved : deal.affiliate_proof_id ≡ some proof.id
  pub target : settings.telegram_target_chat_id ≡ some delivery.target_chat_id
  pub internal : delivery.purpose ≡ DeliveryPurpose.internal_review
  pub awaiting : deal.review_state ≡ ReviewState.awaiting_internal_review
  pub provider : proof.provider ≡ "shopee_official"
  pub validated : proof.official_response_validated ≡ true
  pub confirmed : proof.generation_state ≡ "CONFIRMED"

is_text-eq : (o : Option String) (t : String) → is_text o t ≡ true → o ≡ some t
is_text-eq none t h = cc
is_text-eq (some s) t h = ground (arith, eq_iff s t)

some_text-named : (o : Option String) (t : String) → is_some_text o ≡ true → o ≡ some t → t ≢ ""
some_text-named none t h e = absurd (cc)
some_text-named (some s) t h e =
    λ blank. let same : s ≡ "" = cc in let yes' = (eq_iff s "").1 same in absurd (ground arith)

is_awaiting-eq : (r : ReviewState) → is_awaiting r ≡ true → r ≡ ReviewState.awaiting_internal_review
is_awaiting-eq r h = ground arith

is_id-eq : (o : Option ℕ) (n : ℕ) → is_id o n ≡ true → o ≡ some n
is_id-eq none n h = cc
is_id-eq (some m) n h = ground arith

is_ready-eq : (d : DealState) → is_ready d ≡ true → d ≡ DealState.ready
is_ready-eq d h = ground arith

is_true-eq : (o : Option Bool) → is_true o ≡ true → o ≡ some true
is_true-eq o h = ground arith

same_purpose-eq : (p q : DeliveryPurpose) → same_purpose p q ≡ true → p ≡ q
same_purpose-eq p q h = ground arith

not-eq_true : (b : Bool) → not b ≡ true → b ≡ false
not-eq_true b h = ground arith

every-All : (cs : List Bool) → every cs ≡ true → All (λ c. c ≡ true) cs
every-All [] h = tt
every-All (c ∷ cs) h = (ground arith, every-All cs (ground arith))

module _ (settings : Settings) (context : PublicationContext) (deal : Deal)
    (proof : AffiliateLinkProof) (delivery : Delivery) where
  allowed-IsOpen :
      publication_allowed settings context deal proof delivery ≡ true
      → IsOpen settings context deal proof delivery
  unfolding publication_allowed
  allowed-IsOpen h =
      let g = every-All (publication_gates settings context deal proof delivery) h in
      record {
        not_dry = not-eq_true settings.dry_run g.1.1.1.1.0;
        publishing = g.1.1.1.1.1.0;
        affiliated_only = not-eq_true settings.publish_without_affiliate g.1.1.1.1.1.1.0;
        enabled = g.0;
        official = (eq_iff context.affiliate_mode "official_api").0 g.1.0;
        credentials = g.1.1.0;
        capacity = g.1.1.1.0;
        ready = is_ready-eq deal.status g.1.1.1.1.1.1.1.0;
        reais = (eq_iff deal.currency "BRL").0 g.1.1.1.1.1.1.1.1.0;
        available = is_true-eq deal.available g.1.1.1.1.1.1.1.1.1.0;
        link = is_text-eq deal.affiliate_link proof.short_link g.1.1.1.1.1.1.1.1.1.1.1.0;
        link_there =
            some_text-named deal.affiliate_link proof.short_link g.1.1.1.1.1.1.1.1.1.1.0
              (is_text-eq deal.affiliate_link proof.short_link g.1.1.1.1.1.1.1.1.1.1.1.0);
        proved = is_id-eq deal.affiliate_proof_id proof.id g.1.1.1.1.1.1.1.1.1.1.1.1.0;
        target =
            is_text-eq settings.telegram_target_chat_id delivery.target_chat_id
              g.1.1.1.1.1.1.1.1.1.1.1.1.1.1.0;
        internal =
            same_purpose-eq delivery.purpose DeliveryPurpose.internal_review
              g.1.1.1.1.1.1.1.1.1.1.1.1.1.1.1.0;
        awaiting = is_awaiting-eq deal.review_state g.1.1.1.1.1.1.1.1.1.1.1.1.1.1.1.1.0;
        provider =
            (eq_iff proof.provider "shopee_official").0 g.1.1.1.1.1.1.1.1.1.1.1.1.1.1.1.1.1.0;
        validated = g.1.1.1.1.1.1.1.1.1.1.1.1.1.1.1.1.1.1.0;
        confirmed =
            (eq_iff proof.generation_state "CONFIRMED").0 g.1.1.1.1.1.1.1.1.1.1.1.1.1.1.1.1.1.1.1.0;
      }

module _ (sql : Sql Delivery delivery_id) (deals : Sql Deal deal_id)
    (proofs : Sql AffiliateLinkProof proof_id) (s : Service) (i : ℕ) (w : World) where
  -- The rows that a send is about, with every gate of the policy open.
  abbrev pub Published : Type 0
  Published =
      (delivery : Delivery) × (deal : Deal) × (proof : AffiliateLinkProof) × (find delivery_id i
          w.deliveries
        ≡ some delivery)
      × (find deal_id delivery.deal_id w.deals ≡ some deal)
      × (find proof_id proof.id w.proofs ≡ some proof)
      × IsOpen s.settings s.publication_context deal proof delivery

  admitted_row-Published :
      (delivery : Delivery) (deal : Deal) (proof : AffiliateLinkProof)
      → find delivery_id i w.deliveries ≡ some delivery
      → find deal_id delivery.deal_id w.deals ≡ some deal
      → find proof_id proof.id w.proofs ≡ some proof
      → admitted_row sql deals proofs s w delivery (ok (deal, proof)) ≡ ok tt
      → Published
  admitted_row-Published delivery deal proof e1 e2 e3 h =
      elim (Bool-cases (publication_allowed s.settings s.publication_context deal proof delivery)) [
        | inl allowed ↦ (
          delivery,
          deal,
          proof,
          e1,
          e2,
          e3,
          allowed-IsOpen s.settings s.publication_context deal proof delivery allowed,
        )
        | inr blocked ↦ let h' = rw blocked at h in absurd (cc)
      ]

  proof_row-Published :
      (delivery : Delivery) (deal : Deal) (p : ℕ) (o : Option AffiliateLinkProof)
      → find delivery_id i w.deliveries ≡ some delivery
      → find deal_id delivery.deal_id w.deals ≡ some deal
      → find proof_id p w.proofs ≡ o
      → admitted_row sql deals proofs s w delivery (proof_row deal o) ≡ ok tt
      → Published
  proof_row-Published delivery deal p none e1 e2 e3 h = absurd (cc)
  proof_row-Published delivery deal p (some proof) e1 e2 e3 h =
      let this = find-key proof_id p w.proofs e3 in
      admitted_row-Published delivery deal proof e1 e2
        (subst (λ k. find proof_id k w.proofs ≡ some proof) (sym this) e3) h

  proof_of-Published :
      (delivery : Delivery) (deal : Deal) (o : Option ℕ)
      → find delivery_id i w.deliveries ≡ some delivery
      → find deal_id delivery.deal_id w.deals ≡ some deal
      → admitted_row sql deals proofs s w delivery (proof_of sql deals proofs w deal o) ≡ ok tt
      → Published
  proof_of-Published delivery deal none e1 e2 h = absurd (cc)
  proof_of-Published delivery deal (some p) e1 e2 h =
      proof_row-Published delivery deal p (get proofs p w.proofs) e1 e2 (rw proofs.select_lem) h

  admitted-Published : admit sql deals proofs s i w ≡ ok tt → Published
  unfolding admit
  admitted-Published h = elim (Option-cases (get sql i w.deliveries)) [
    | inl absent ↦ let h' = rw absent at h in absurd (cc)
    | inr (delivery, e) ↦ elim (Option-cases (get deals delivery.deal_id w.deals)) [
      | inl absent ↦ let h' = rw (e, absent) at h in absurd (cc)
      | inr (deal, e2) ↦
          proof_of-Published delivery deal deal.affiliate_proof_id (rw sql.select_lem at e)
            (rw deals.select_lem at e2) (rw (e, e2) at h)
    ]
  ]

module _ (sql : Sql Delivery delivery_id) (deals : Sql Deal deal_id)
    (proofs : Sql AffiliateLinkProof proof_id) (s : Service) (i now later : ℕ)
    (rendered : RenderedMessage) (answer : Answer) (w : World) where
  -- Fail closed: a send that gives the transport a message has found its delivery, deal and proof in
  -- the database, with every gate of the publication policy open.
  pub send_gated :
      (send sql deals proofs s i now later rendered answer w).0.given ≢ w.given
      → Published sql deals proofs s i w
  unfolding send
  send_gated h = after (admit sql deals proofs s i w) refl h
    where
      after :
          (a : Result SendError (Unit {0}))
          → admit sql deals proofs s i w ≡ a
          → (send_admitted sql deals proofs s i now later rendered answer w a).0.given ≢ w.given
          → Published sql deals proofs s i w
      after (raised e) q changed = absurd (changed refl)
      after (ok _) q changed = admitted-Published sql deals proofs s i w q
