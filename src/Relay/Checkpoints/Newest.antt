-- ===== src/Relay/Checkpoints/Newest.antt =====
-- `TelegramCheckpointRepository` of src/promo_bot/database/repositories.py: the checkpoint of a channel
-- is its newest message, whatever the order in which messages are recorded.
use promo_bot.Base.{
  ℕ, ◌≡◌, max, ap, sym, ◌∙◌, refl, Option, none, some, String, List, [], ◌∷◌, if◌then◌else◌, str_eq,
  eq_iff, arith, Bool-cases, inl, inr,
}
use promo_bot.Relay.Checkpoints.{
  Checkpoint, Checkpoints, Persisted, persisted_row, or_new, is_newer, record_persisted,
  record_failure, mark_catch_up_complete,
}

pub data Write : Type 0 where
  persisted : String → Persisted → Write
  failed : String → String → Write
  caught_up : String → ℕ → Write

unfoldable pub write : Write → Checkpoints → Checkpoints
write (persisted c p) t = record_persisted c p t
write (failed c code) t = record_failure c code t
write (caught_up c now) t = mark_catch_up_complete c now t

unfoldable pub write_all : List Write → Checkpoints → Checkpoints
write_all [] t = t
write_all (w ∷ ws) t = write_all ws (write w t)

-- The checkpoint read by `TelegramCheckpointRepository.get`.
abbrev pub checkpoint : Option Checkpoint → Option ℕ
checkpoint none = none
checkpoint (some row) = row.last_persisted_message_id

abbrev pub newer : Option ℕ → ℕ → ℕ
newer none id = id
newer (some last) id = max last id

-- The largest id recorded for a channel, from the one before.
abbrev pub newest : String → List Write → Option ℕ → Option ℕ
newest c [] last = last
newest c (persisted c' p ∷ ws) last =
    let other = newest c ws last in
    if str_eq c c' then newest c ws (some (newer last p.message_id)) else other
newest c (failed c' code ∷ ws) last = newest c ws last
newest c (caught_up c' now ∷ ws) last = newest c ws last

persisted-checkpoint :
    (p : Persisted) (o : Option Checkpoint)
    → (persisted_row p o).last_persisted_message_id ≡ some (newer (checkpoint o) p.message_id)
persisted-checkpoint p none = refl
persisted-checkpoint p (some row) = row_moved row.last_persisted_message_id
  where
    row_moved :
        (last : Option ℕ)
        → (if is_newer last p.message_id then some p.message_id else last)
          ≡ some (newer last p.message_id)
    row_moved none = refl
    row_moved (some last) = ground arith

or_new-checkpoint : (o : Option Checkpoint) → (or_new o).last_persisted_message_id ≡ checkpoint o
or_new-checkpoint none = refl
or_new-checkpoint (some row) = refl

-- The checkpoint of a channel after any sequence of writes, in any order and for any channels, is the
-- largest message id among those recorded for it and the checkpoint before: a message recorded late
-- never moves it back, and failures and catch-ups leave it.
pub checkpoint-newest :
    (c : String) (ws : List Write) (t : Checkpoints)
    → checkpoint (write_all ws t c) ≡ newest c ws (checkpoint (t c))
unfolding write_all write record_persisted record_failure mark_catch_up_complete
checkpoint-newest c [] t = refl
checkpoint-newest c (persisted c' p ∷ ws) t =
    rw (checkpoint-newest c ws (write (persisted c' p) t)) (elim (Bool-cases (str_eq c c')) [
      | inl here ↦ rw here (
          ap (newest c ws) (
            persisted-checkpoint p (t c')
            ∙ ap (λ k. some (newer (checkpoint (t k)) p.message_id)) (sym ((eq_iff c c').0 here))))
      | inr away ↦ rw away refl
    ])
checkpoint-newest c (failed c' code ∷ ws) t =
    rw (checkpoint-newest c ws (write (failed c' code) t)) (elim (Bool-cases (str_eq c c')) [
      | inl here ↦ rw here (
          ap (newest c ws)
            (or_new-checkpoint (t c') ∙ ap (λ k. checkpoint (t k)) (sym ((eq_iff c c').0 here))))
      | inr away ↦ rw away refl
    ])
checkpoint-newest c (caught_up c' now ∷ ws) t =
    rw (checkpoint-newest c ws (write (caught_up c' now) t)) (elim (Bool-cases (str_eq c c')) [
      | inl here ↦ rw here (
          ap (newest c ws)
            (or_new-checkpoint (t c') ∙ ap (λ k. checkpoint (t k)) (sym ((eq_iff c c').0 here))))
      | inr away ↦ rw away refl
    ])
