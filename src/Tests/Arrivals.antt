-- ===== src/Tests/Arrivals.antt =====
-- A link of a message, as src/promo_bot/relay/service.py takes it in and records its outcome.
use promo_bot.Relay.Links.Loop.{links_settle}
use promo_bot.Base.{ok, raised, All, ◌≡◌, refl, false, none, some, [], ◌∷◌}
use promo_bot.Domain.Enums.{Store, LinkSource, RelayLinkState}
use promo_bot.Sql.Engine.{list_engine}
use promo_bot.Stores.Patterns.{codes, search_in, aliexpress_at, digits_of, after_digits}
use promo_bot.Stores.Urls.{
  CanonicalUrlResult, pending, canonicalize_store_url, store_for_host, for_parts, identify, gather,
  with_query, variation_key, finish, add_value, values, hostname_from_url,
  is_aliexpress_redirector_url, is_shortener_url, is_allowed_network_url,
}
use promo_bot.Relay.Candidates.{candidate_key}
use promo_bot.Relay.Processor.{processed}
use promo_bot.Relay.Links.Backfill.{backfill_store}
use promo_bot.Relay.Links.{
  Links, store_not_enabled, link_key, item_key, record_received, with_candidate, with_outcome,
  received_link, new_item, new_candidate, set_outcome, record_item, ensure_for_link,
  eligible_product,
}
use promo_bot.Relay.Links.Process.{
  ExtractedLink, led_to, refused, Linker, LinkStore, process_link, process_links, canonical_outcome,
  received_args, route, keep_product,
}
use promo_bot.Relay.Links.Handled.{IsHandled}
use promo_bot.Relay.Links.Settled.{process_link_idem}
use promo_bot.Tests.Addresses.{web}

abbrev linker : Linker
linker = record {
  web = web;
  sha256 = λ t. t;
  aliexpress_short_resolver = none;
  expand = λ url. led_to url 0;
  preserve_non_aliexpress = false;
  links = list_engine link_key;
  items = list_engine item_key;
  candidates = list_engine candidate_key;
}

abbrev no_rows : LinkStore
no_rows = record { links = []; items = []; candidates = [] }

abbrev arrival : ExtractedLink
arrival = record {
  ordinal = 0;
  source = LinkSource.text;
  url = codes "https://pt.aliexpress.com/item/1005001.html";
}

abbrev outcome : CanonicalUrlResult
outcome =
    pending Store.aliexpress (codes "1005001") []
      (codes "https://www.aliexpress.com/item/1005001.html")

abbrev arrived : LinkStore
arrived = record {
  links =
      with_candidate 1 (
        with_outcome (canonical_outcome arrival.url arrival.url 0 outcome)
          (received_link (received_args linker 7 arrival) 1))
      ∷ [];
  items =
      new_item Store.aliexpress (codes "1005001") []
        (codes "https://www.aliexpress.com/item/1005001.html")
        (some RelayLinkState.pending_affiliate) 1
      ∷ [];
  candidates =
      new_candidate Store.aliexpress (codes "1005001") []
        (codes "https://www.aliexpress.com/item/1005001.html") 5 1
      ∷ [];
}

-- The link is canonicalized, its product is recorded, and it has a candidate.
link_arrives : process_link linker 5 7 arrival no_rows ≡ (arrived, processed)
unfolding process_link record_received route keep_product record_item ensure_for_link set_outcome
    eligible_product canonicalize_store_url for_parts store_for_host identify search_in
    aliexpress_at digits_of after_digits gather with_query variation_key finish hostname_from_url
    is_aliexpress_redirector_url is_shortener_url is_allowed_network_url values add_value
link_arrives = refl

process_link_idem_example :
    process_link
      (record linker { expand = λ url. refused "gone"; aliexpress_short_resolver = none })
      9
      7
      arrival
      arrived
    ≡ (arrived, processed)
process_link_idem_example =
    process_link_idem linker 5 7 arrival no_rows link_arrives 9 (λ url. refused "gone") none

all_arrive : process_links linker (λ k. 5) 7 0 (arrival ∷ []) no_rows ≡ (arrived, processed)
unfolding process_links
all_arrive = rw link_arrives

links_settle_example :
    All
      (λ (l : ExtractedLink). IsHandled linker.links 7 (linker.sha256 l.url) arrived.links)
      (arrival ∷ [])
links_settle_example = links_settle linker (λ k. 5) 7 (arrival ∷ []) no_rows all_arrive

abbrev unattached_links : Links
unattached_links =
    with_outcome (canonical_outcome arrival.url arrival.url 0 outcome)
      (received_link (received_args linker 7 arrival) 1)
    ∷ []

-- The link has no candidate, and is given one.
backfilled :
    backfill_store web linker.links linker.candidates
      (λ i. 5)
      Store.aliexpress
      10
      unattached_links
      []
    ≡ ok ((arrived.links, arrived.candidates), 1)
unfolding backfill_store ensure_for_link eligible_product canonicalize_store_url for_parts
    store_for_host identify search_in aliexpress_at digits_of after_digits gather with_query
    variation_key finish hostname_from_url is_aliexpress_redirector_url is_shortener_url
    is_allowed_network_url values add_value
backfilled = refl

not_backfilled :
    backfill_store web linker.links linker.candidates (λ i. 5) Store.kabum 10 unattached_links []
    ≡ raised store_not_enabled
unfolding backfill_store
not_backfilled = refl
