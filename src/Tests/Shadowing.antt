-- ===== src/Tests/Shadowing.antt =====
-- A message reserved and sent once in the shadow channel, as
-- src/promo_bot/database/shadow_delivery_repository.py does it.
use promo_bot.Base.{◌≤◌, ◌≡◌, refl, none, some, List, [], ◌∷◌, ok}
use promo_bot.Sql.Rows.{Sql}
use promo_bot.Sql.Engine.{list_engine}
use promo_bot.Shadow.Deliveries.{
  ShadowDelivery, shadow_key, Surroundings, uncertain, reserve, mark_sending, finish,
}
use promo_bot.Shadow.Deliveries.Once.{Call, reserving, sending_at, finishing, sends, sent_once}

abbrev engine : Sql ShadowDelivery shadow_key
engine = list_engine shadow_key

abbrev around : Surroundings
around = record {
  previews =
      record {
        id = 4;
        source_message_id = 7;
        provider = "aliexpress_official";
        history_use_id = some "p1";
      }
      ∷ [];
  record_use = λ p row now. ok "u1";
  transition_send = λ row now. ok tt;
}

-- The message is reserved twice and sent twice; the outcome of the first send stays open.
abbrev calls : List Call
calls =
    reserving 4 "chan" 10
    ∷ sending_at 1 20
    ∷ reserving 4 "chan" 25
    ∷ sending_at 1 30
    ∷ finishing 1
        (record { state = uncertain; now = 40; error_code = some "TIMEOUT"; message_id = none })
    ∷ sending_at 1 50
    ∷ []

-- The bound is reached.
sends_one : sends engine around 7 "chan" calls [] ≡ 1
unfolding sends reserve mark_sending finish
sends_one = refl

sent_once_example : sends engine around 7 "chan" calls [] ≤ 1
sent_once_example = sent_once engine around 7 "chan" calls
