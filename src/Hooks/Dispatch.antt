-- ===== src/Hooks/Dispatch.antt =====
-- services/garudaportal/webhook/dispatcher.go: sending an event and recording the outcome. The
-- receiver is a parameter: what becomes of one request. The signature is a header of the request
-- and decides nothing here.
use gpass.Prelude.{
  ℤ, pos, negsuc, ℕ, zero, suc, ◌+◌, ◌*◌, String, Bool, ◌&&◌, none, some, List, [], ◌∷◌, ltb, leb,
  if◌then◌else◌, Result, ok, err,
}
use gpass.Hooks.Subscriptions.{WebhookSubscription}
use gpass.Hooks.Deliveries.{
  WebhookDelivery, DeliveryStore, DeliveryError, create_delivery, update_delivery,
}

-- The request cannot be built, or the call fails with an error text, or an answer comes.
pub data Response : Type 0 where
  not_built : Response
  failed : String → Response
  answered : ℕ → String → Response

abbrev pub minute : ℕ
minute = 60_000_000_000

abbrev pub retry_delays : List ℕ
retry_delays = minute ∷ 5 * minute ∷ 30 * minute ∷ 120 * minute ∷ 1440 * minute ∷ []

-- `retryDelays[i]`, and the last one from the end of the list on
unfoldable pub delay_at : List ℕ → ℕ → ℕ
delay_at [] i = 0
delay_at (d ∷ []) i = d
delay_at (d ∷ e ∷ ds) zero = d
delay_at (d ∷ e ∷ ds) (suc i) = delay_at (e ∷ ds) i

unfoldable pub next_retry_delay : ℤ → ℕ
unfolding delay_at
next_retry_delay (negsuc n) = delay_at retry_delays 0
next_retry_delay (pos n) = delay_at retry_delays n

abbrev pub is_success : ℕ → Bool
is_success code = leb 200 code && ltb code 300

-- The outcome of a try, written with `UpdateStatus`; a failed write is dropped by the worker.
unfoldable pub record_answer :
    ℕ → String → ℕ → Response → DeliveryStore → Result DeliveryError DeliveryStore
record_answer now id attempts not_built s = ok s
record_answer now id attempts (failed text) s =
    update_delivery now id "PENDING" 0 text (some (now + next_retry_delay (pos attempts))) s
record_answer now id attempts (answered code body) s =
    if is_success code
    then update_delivery now id "DELIVERED" code body none s
    else update_delivery now id "PENDING" code body (some (now + next_retry_delay (pos attempts))) s

abbrev pub sent_delivery : String → String → String → WebhookDelivery
sent_delivery subscription_id event_type payload = record {
  id = "";
  subscription_id = subscription_id;
  event_type = event_type;
  payload = payload;
  status = "PENDING";
  attempts = 0;
  last_response_code = 0;
  last_response_body = "";
  next_retry_at = none;
  delivered_at = none;
  created_at = 0;
}

-- `Deliver`, with the deliveries that it leaves. Its error is not looked at by its callers.
unfoldable pub deliver :
    ℕ → String → WebhookSubscription → String → String → Response → DeliveryStore → DeliveryStore
unfolding record_answer
deliver now uuid sub event_type payload answer s =
    let (d, s') = create_delivery now uuid (sent_delivery sub.id event_type payload) s in
    elim (record_answer now d.id 0 answer s') [ err _ ↦ s' | ok s'' ↦ s'' ]
