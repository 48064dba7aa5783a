-- ===== src/Relay/Links/Backfill.antt =====
-- `AffiliateCandidateRepository.backfill_store` of src/promo_bot/database/repositories.py: the links
-- without a candidate are given one. `LIKE` and `GLOB` are spelt out as SQLite documents them: `LIKE`
-- ignores the case of ASCII letters, `GLOB` does not. The order of the rows is that of the identifiers.
use promo_bot.Base.{
  ℕ, ◌+◌, Bool, true, false, not, ◌&&◌, ◌||◌, Option, none, some, String, [], ◌∷◌, ◌==◌, leb, all,
  any, take, length, if◌then◌else◌, Result, ok, ◌>>=◌, ◌>>◌, require, is_none, str_eq,
}
use promo_bot.Domain.Enums.{Store, RelayLinkState}
use promo_bot.Sql.Rows.{Sql}
use promo_bot.Stores.Patterns.{Text, codes, is_digit, starts_with}
use promo_bot.Stores.Urls.{Web}
use promo_bot.Relay.Candidates.{Candidate, Candidates, candidate_key}
use promo_bot.Relay.Links.{
  Link, Links, link_key, LinkError, store_not_enabled, is_same_store, is_enabled, ensure_for_link,
}

-- `LIKE 'MLB%'`
abbrev pub folded : Text → Text
folded [] = []
folded (c ∷ s) = (if leb 65 c && leb c 90 then c + 32 else c) ∷ folded s

abbrev pub is_like_mlb : Text → Bool
is_like_mlb id = starts_with (folded id) (codes "mlb")

-- `identity_filter` of each store
abbrev pub identity_filter : Store → Text → Bool
identity_filter Store.shopee id = any (λ c. c == 58) id
identity_filter Store.mercadolivre id = is_like_mlb id
identity_filter _ [] = false
identity_filter _ (c ∷ id) = all is_digit (c ∷ id)

abbrev pub holds : Option Text → (Text → Bool) → Bool
holds none p = false
holds (some t) p = p t

abbrev pub is_duplicate : Option String → Bool
is_duplicate none = false
is_duplicate (some code) = str_eq code "DUPLICATE_CANONICAL"

abbrev pub awaits_affiliate : RelayLinkState → Bool
awaits_affiliate RelayLinkState.pending_affiliate = true
awaits_affiliate _ = false

-- the WHERE clause
abbrev pub unattached : Store → Link → Bool
unattached store l =
    is_none l.affiliate_candidate_id
    && is_same_store l.store store
    && holds l.external_product_id (identity_filter store)
    && not (is_none l.canonical_url)
    && (awaits_affiliate l.state || is_duplicate l.reason_code)

-- `clock` is the time that the insert of a link's candidate records.
module _ (web : Web) (links_sql : Sql Link link_key) (sql : Sql Candidate candidate_key)
    (clock : ℕ → ℕ) where
  abbrev pub ensure_all : Links → Links × Candidates → Result LinkError (Links × Candidates)
  ensure_all [] s = ok s
  ensure_all (l ∷ ls) (t, cs) = do
    s ← ensure_for_link web links_sql sql (clock l.id) l.id [] t cs
    ensure_all ls s

  -- the rows of the SELECT
  abbrev pub to_backfill : (store : Store) (limit : ℕ) → Links → Links
  to_backfill store limit t =
      take limit (links_sql.ordered link_key (links_sql.select (unattached store) t))

  unfoldable pub backfill_store :
      (store : Store) (limit : ℕ) → Links → Candidates → Result LinkError ((Links × Candidates) × ℕ)
  backfill_store store limit t cs = do
    require (is_enabled store) store_not_enabled
    s ← ensure_all (to_backfill store limit t) (t, cs)
    ok (s, length (to_backfill store limit t))
