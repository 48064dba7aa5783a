-- ===== src/Tests/Delivering.antt =====
-- A Shopee deal delivered for internal review, as src/promo_bot/delivery/service.py sends it.
use promo_bot.Base.{
  ◌≤◌, ◌<◌, ◌≡◌, ◌≢◌, ◌∙◌, sym, has_text, refl, true, false, none, some, List, [], ◌∷◌, ok, raised,
  arith, inr,
}
use promo_bot.Domain.Enums.{DeliveryState, DeliveryPurpose, DealState, ReviewState}
use promo_bot.Sql.Rows.{Sql}
use promo_bot.Sql.Keys.{UniqueKeys, find}
use promo_bot.Sql.Engine.{list_engine}
use promo_bot.Delivery.Model.{Delivery, Deal, AffiliateLinkProof, delivery_id}
use promo_bot.Delivery.Repository.{
  Deliveries, claimed, finished, sent_outcome, claim, mark_sent, transition_conflict,
}
use promo_bot.Delivery.Requests.{Request, take, sent, recover, perform, perform_all}
use promo_bot.Delivery.Requests.Phases.{phase, handle_all, deliveries_in_phase}
use promo_bot.Delivery.Requests.Safety.{
  Conforms, LeaseHeld, perform-Conforms, final_row_frozen, perform_all-attempts_and_lease,
}
use promo_bot.Delivery.Requests.Claiming.{claim_exclusive, claim-mark_sent}
use promo_bot.Delivery.Service.{
  RenderedMessage, Service, World, returned, deal_id, proof_id, send, publication_allowed, admit,
  record_answer,
}
use promo_bot.Delivery.Service.Calls.{Event, sending, recovery, calls, happen_all, calls-Bounded}
use promo_bot.Delivery.Service.Gate.{Published, send_gated}
use promo_bot.Delivery.Service.Outcome.{SentRow, send-true}

abbrev delivery_1 : Delivery
delivery_1 = record {
  id = 1;
  deal_id = 10;
  idempotency_key = "deal-10";
  target_chat_id = "-100200";
  purpose = DeliveryPurpose.internal_review;
  state = DeliveryState.pending;
  attempt_count = 0;
  last_attempt_at = none;
  next_attempt_at = none;
  lease_until = none;
  telegram_message_id = none;
  sent_at = none;
  error_code = none;
  error_summary = none;
}

abbrev delivery_2 : Delivery
delivery_2 = record delivery_1 {
  id = 2;
  deal_id = 11;
  idempotency_key = "deal-11";
  state = DeliveryState.delivery_ambiguous;
  attempt_count = 1;
}

abbrev deliveries : Deliveries
deliveries = delivery_1 ∷ delivery_2 ∷ []

abbrev deal_10 : Deal
deal_10 = record {
  id = 10;
  currency = "BRL";
  affiliate_link = some "https://s.shopee.com.br/abc";
  status = DealState.ready;
  review_state = ReviewState.awaiting_internal_review;
  available = some true;
  affiliate_proof_id = some 100;
}

abbrev proof_100 : AffiliateLinkProof
proof_100 = record {
  id = 100;
  provider = "shopee_official";
  short_link = "https://s.shopee.com.br/abc";
  generation_state = "CONFIRMED";
  official_response_validated = true;
}

abbrev service : Service
service = record {
  settings = record {
    dry_run = false;
    publish_real_deals = true;
    publish_without_affiliate = false;
    telegram_target_chat_id = some "-100200";
    telegram_retry_after_max_seconds = 900;
  };
  publication_context = record {
    provider_enabled = true;
    affiliate_mode = "official_api";
    credentials_valid = true;
    hourly_capacity_available = true;
  };
  max_attempts = 3;
  lease_minutes = 5;
}

abbrev world : World
world = record {
  deliveries = deliveries;
  deals = deal_10 ∷ [];
  proofs = proof_100 ∷ [];
  given = [];
}

abbrev message : RenderedMessage
message = record {
  text = "Oferta";
  button_label = "Comprar";
  button_url = "https://s.shopee.com.br/abc";
}

abbrev engine : Sql Delivery delivery_id
engine = list_engine delivery_id

abbrev deal_engine : Sql Deal deal_id
deal_engine = list_engine deal_id

abbrev proof_engine : Sql AffiliateLinkProof proof_id
proof_engine = list_engine proof_id

deliveries-UniqueKeys : UniqueKeys delivery_id deliveries
deliveries-UniqueKeys = (((λ e. omega arith), tt), (tt, tt))

abbrev events : List Event
events =
    sending 1 0 1000 message (returned "77")
    ∷ recovery 500000000
    ∷ sending 1 600000000 600000001 message (returned "78")
    ∷ []

calls-Bounded_example :
    calls 1 (happen_all engine deal_engine proof_engine service events world).given ≤ 3
calls-Bounded_example =
    calls-Bounded engine deal_engine proof_engine service events 1 world
      (deliveries-UniqueKeys, (delivery_1, refl, omega arith, omega arith))

given_once :
    (send engine deal_engine proof_engine service 1 0 1000 message (returned "77") world).0.given
    ≡ (1, message) ∷ []
unfolding send admit record_answer publication_allowed claim mark_sent has_text
given_once = refl

not_empty : {A : Type 0} (x : A) (xs : List A) → (x ∷ xs) ≢ []
not_empty x xs e = absurd (cc)

given_out :
    (send engine deal_engine proof_engine service 1 0 1000 message (returned "77") world).0.given
    ≢ []
given_out e = not_empty (1, message) [] (sym given_once ∙ e)

send_gated_example : Published engine deal_engine proof_engine service 1 world
send_gated_example =
    send_gated engine deal_engine proof_engine service 1 0 1000 message (returned "77") world
      given_out

said_true :
    (send engine deal_engine proof_engine service 1 0 1000 message (returned "77") world).1
    ≡ ok true
unfolding send admit record_answer publication_allowed claim mark_sent has_text
said_true = refl

send-true_example :
    SentRow engine deal_engine proof_engine service 1 0 1000 message
      (returned "77")
      world
      deliveries-UniqueKeys
      (send engine deal_engine proof_engine service 1 0 1000 message (returned "77") world).0
send-true_example =
    send-true engine deal_engine proof_engine service 1 0 1000 message (returned "77") world
      deliveries-UniqueKeys said_true

abbrev requests : List Request
requests = take 1 0 300000000 3 ∷ take 2 0 300000000 3 ∷ sent 1 "77" 1000 ∷ recover 900000000 ∷ []

final_row_frozen_example :
    find delivery_id 2 (perform_all engine requests deliveries) ≡ some delivery_2
final_row_frozen_example =
    final_row_frozen engine requests deliveries 2 delivery_2 deliveries-UniqueKeys refl
      (inr (inr refl))

claimed_1 : (claim engine 1 0 300000000 3 deliveries).1 ≡ some (claimed 0 300000000 delivery_1)
unfolding claim
claimed_1 = refl

claim_exclusive_example :
    (claim engine 1 900000000 1200000000 9 (claim engine 1 0 300000000 3 deliveries).0).1 ≡ none
claim_exclusive_example =
    claim_exclusive engine 1 0 300000000 3 900000000 1200000000 9 deliveries deliveries-UniqueKeys
      claimed_1

claim-mark_sent_example :
    (1000 < 300000000
      → (t' : Deliveries) × (mark_sent engine 1 "77" 1000
            (claim engine 1 0 300000000 3 deliveries).0
          ≡ ok t')
        × (find delivery_id 1 t'
            ≡ some (finished (sent_outcome "77" 1000) (claimed 0 300000000 delivery_1))))
    × (300000000 ≤ 1000
        → mark_sent engine 1 "77" 1000 (claim engine 1 0 300000000 3 deliveries).0
          ≡ raised transition_conflict)
unfolding has_text
claim-mark_sent_example =
    claim-mark_sent engine 1 0 300000000 3 1000 "77" deliveries (claimed 0 300000000 delivery_1)
      deliveries-UniqueKeys claimed_1 refl

deliveries_in_phase_example :
    (d' : Delivery) × (find delivery_id 1 (perform_all engine requests deliveries) ≡ some d')
    × (phase d' ≡ handle_all 1 requests (phase delivery_1))
deliveries_in_phase_example =
    deliveries_in_phase engine requests deliveries 1 delivery_1 deliveries-UniqueKeys refl

perform-Conforms_example :
    (d' : Delivery) × (find delivery_id 1 (perform engine (take 1 0 300000000 3) deliveries)
      ≡ some d')
    × Conforms DeliveryState.pending d'.state
perform-Conforms_example =
    perform-Conforms engine (take 1 0 300000000 3) deliveries 1 delivery_1 deliveries-UniqueKeys
      refl

perform_all-attempts_and_lease_example :
    (d' : Delivery) × (find delivery_id 1 (perform_all engine requests deliveries) ≡ some d')
    × (d'.attempt_count ≤ 3)
    × LeaseHeld d'
perform_all-attempts_and_lease_example =
    perform_all-attempts_and_lease engine 3 requests deliveries 1 delivery_1 deliveries-UniqueKeys
      (omega arith, (omega arith, (tt, (tt, tt)))) refl (omega arith)
      ((λ s. absurd (cc)), (λ s. refl))
