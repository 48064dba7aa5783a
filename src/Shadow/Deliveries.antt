-- ===== src/Shadow/Deliveries.antt =====
-- `ShadowDeliveryRepository` of src/promo_bot/database/shadow_delivery_repository.py, over the rows of
-- `ShadowDeliveryModel`. The table of previews is read. The history of the links is a parameter: what
-- it gives or raises when a use is recorded and when a send changes its state. A call that raises is
-- rolled back by its caller. Times are microseconds.
pub mod Budget
pub mod Once
use promo_bot.Base.{
  ℕ, Bool, true, false, not, ◌&&◌, ◌||◌, Option, none, some, String, List, ◌==◌, if◌then◌else◌,
  Result, ok, raised, ◌>>=◌, ◌>>◌, require, str_eq,
}
use promo_bot.Sql.Rows.{Sql, get, first, where_rows}
use promo_bot.Sql.Keys.{at_key}

pub data ShadowState : Type 0 where
  pending sending sent failed_safe uncertain : ShadowState

pub record ShadowDelivery : Type 0 where
  pub id : ℕ
  pub history_use_id : Option String
  pub preview_id : ℕ
  pub source_message_id : ℕ
  pub destination_key : String
  pub state : ShadowState
  pub attempt_count : ℕ
  pub started_at : Option ℕ
  pub finished_at : Option ℕ
  pub telegram_message_id : Option String
  pub error_code : Option String
  pub updated_at : ℕ

abbrev pub shadow_key : ShadowDelivery → ℕ
shadow_key d = d.id

abbrev pub ShadowDeliveries : Type 0
ShadowDeliveries = List ShadowDelivery

-- What is read of an `AffiliateShadowPreviewModel`.
pub record Preview : Type 0 where
  pub id : ℕ
  pub source_message_id : ℕ
  pub provider : String
  pub history_use_id : Option String

pub data ShadowError : Type 0 where
  preview_not_found transition_conflict state_invalid : ShadowError
  -- `IntegrityError`, and `scalar_one` or an assertion on a row that is not there
  integrity row_missing : ShadowError
  -- raised by the history of the links
  history_refused : (code : String) → ShadowError

abbrev pub new_shadow : (p : Preview) (destination : String) (now key : ℕ) → ShadowDelivery
new_shadow p destination now key = record {
  id = key;
  history_use_id = none;
  preview_id = p.id;
  source_message_id = p.source_message_id;
  destination_key = destination;
  state = pending;
  attempt_count = 0;
  started_at = some now;
  finished_at = none;
  telegram_message_id = none;
  error_code = none;
  updated_at = now;
}

-- the two uniqueness constraints of the table
abbrev pub same_target : (message : ℕ) → String → ShadowDelivery → Bool
same_target message destination d =
    d.source_message_id == message && str_eq d.destination_key destination

abbrev pub same_preview : (preview : ℕ) → String → ShadowDelivery → Bool
same_preview preview destination d = d.preview_id == preview && str_eq d.destination_key destination

abbrev pub with_use : String → ShadowDelivery → ShadowDelivery
with_use use_id d = record d { history_use_id = some use_id }

abbrev pub is_pending : ShadowState → Bool
is_pending pending = true
is_pending _ = false

abbrev pub is_sending : ShadowState → Bool
is_sending sending = true
is_sending _ = false

abbrev pub is_failed_safe : ShadowState → Bool
is_failed_safe failed_safe = true
is_failed_safe _ = false

abbrev pub is_final : ShadowState → Bool
is_final sent = true
is_final failed_safe = true
is_final uncertain = true
is_final _ = false

abbrev pub may_send : ShadowDelivery → Bool
may_send d = is_pending d.state && d.attempt_count == 0

abbrev pub started : ℕ → ShadowDelivery → ShadowDelivery
started now d = record d { state = sending; attempt_count = 1; updated_at = now }

-- `state in allowed`, by the state that is to be written
abbrev pub may_finish : ShadowState → ShadowDelivery → Bool
may_finish final d = is_sending d.state || is_failed_safe final && is_pending d.state

-- the arguments of `finish`, but the identifier
pub record Ending : Type 0 where
  pub state : ShadowState
  pub now : ℕ
  pub error_code : Option String
  pub message_id : Option String

abbrev pub finished : Ending → ShadowDelivery → ShadowDelivery
finished e d = record d {
  state = e.state;
  finished_at = some e.now;
  updated_at = e.now;
  error_code = e.error_code;
  telegram_message_id = e.message_id;
}

abbrev pub or_raise : {A : Type 0} → Option A → ShadowError → Result ShadowError A
or_raise none e = raised e
or_raise (some a) e = ok a

abbrev pub is_official : Preview → Bool
is_official p = str_eq p.provider "aliexpress_official"

abbrev pub always : ShadowDelivery → Bool
always d = true

-- The rows and the calls that a repository does not own.
pub record Surroundings : Type 0 where
  pub previews : List Preview
  -- `validate_preview_use` and `record_use`: the identifier of the use
  pub record_use : Preview → ShadowDelivery → ℕ → Result ShadowError String
  -- `transition_send`
  pub transition_send : ShadowDelivery → ℕ → Result ShadowError (Unit {0})

module _ (sql : Sql ShadowDelivery shadow_key) (env : Surroundings) where
  abbrev pub preview_of : ℕ → Option Preview
  preview_of i = first (where_rows (λ p. p.id == i) env.previews)

  -- the use of the links, for a row that was inserted
  abbrev pub used :
      (p : Preview) (now : ℕ) (inserted : Bool) (row : ShadowDelivery)
      → ShadowDeliveries
      → Result ShadowError (ShadowDeliveries × Bool)
  used p now false row t = ok (t, false)
  used p now true row t =
      if is_official p
      then (env.record_use p row now >>= λ use_id.
          ok ((sql.update (at_key shadow_key row.id always) (with_use use_id) t).0, true))
      else ok (t, true)

  -- The table and whether the row is new.
  unfoldable pub reserve :
      (preview : ℕ) (destination : String) (now : ℕ)
      → ShadowDeliveries
      → Result ShadowError (ShadowDeliveries × Bool)
  reserve preview destination now t = do
    p ← or_raise (preview_of preview) preview_not_found
    (t', n) ←
        or_raise
          (sql.insert (same_target p.source_message_id destination) (same_preview p.id destination)
            (new_shadow p destination now) t)
          integrity
    row ← or_raise (first (sql.select (same_target p.source_message_id destination) t')) row_missing
    used p now (not (n == 0)) row t'

  -- the row that was written, and its change in the history
  abbrev pub noted : (i now : ℕ) → ShadowDeliveries → Result ShadowError ShadowDelivery
  noted i now t = do
    row ← or_raise (get sql i t) row_missing
    p ← or_raise (preview_of row.preview_id) row_missing
    (if is_official p then env.transition_send row now else ok tt)
    ok row

  -- The table and the row that is sent.
  unfoldable pub mark_sending :
      (i now : ℕ) → ShadowDeliveries → Result ShadowError (ShadowDeliveries × ShadowDelivery)
  mark_sending i now t =
      let u = sql.update (at_key shadow_key i may_send) (started now) t in
      (require (not (u.1 == 0)) transition_conflict >> (noted i now u.0 >>= λ row. ok (u.0, row)))

  unfoldable pub finish : ℕ → Ending → ShadowDeliveries → Result ShadowError ShadowDeliveries
  finish i e t =
      let u = sql.update (at_key shadow_key i (may_finish e.state)) (finished e) t in
      (require (is_final e.state) state_invalid
        >> (require (not (u.1 == 0)) transition_conflict >> (noted i e.now u.0 >>= λ row. ok u.0)))
