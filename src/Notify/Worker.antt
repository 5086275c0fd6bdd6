-- ===== src/Notify/Worker.antt =====
-- internal/notify/notify.go: one pass over the deliveries that are due.
use thornhill.Base.{
  ℕ, ◌+◌, Bool, true, false, Option, none, some, List, [], ◌∷◌, ◌++◌, String, if◌then◌else◌,
}
use thornhill.Store.Outbox.Push.{PushDelivery, Outbox, claim_push_deliveries}
use thornhill.Store.Outbox.Outcomes.{
  release_push_claim, mark_push_delivered, mark_push_failed, mark_push_abandoned,
  disable_push_subscription,
}
use thornhill.Notify.{
  Answer, Outcome, delivered, interrupted, gone, backoff, abandoned, retry_delay,
  safe_delivery_error, send, outcome, batch_size, claim_lease,
}

-- The outbox, the deliveries that the provider was called for, and those that were put back to be tried
-- again, by their keys.
pub record Worker : Type 0 where
  pub outbox : Outbox
  pub sent : List ℕ
  pub retried : List ℕ

abbrev pub writes : Bool → (Outbox → Outbox) → Worker → Worker
writes fails f w = if fails then w else record w { outbox = f w.outbox }

-- `fail`: put back, to be tried again after the delay.
unfoldable pub fail : ℕ → String → PushDelivery → Answer → Worker → Worker
fail now token d a w =
    let result = (send a).1 in
    writes a.store_fails
      (mark_push_failed token d.id (now + retry_delay d.attempts)
        (safe_delivery_error result.0 result.1))
      (record w { retried = w.retried ++ d.id ∷ [] })

-- `abandon`.
unfoldable pub abandon : ℕ → String → PushDelivery → Answer → Worker → Worker
abandon now token d a w =
    let result = (send a).1 in
    writes a.store_fails
      (mark_push_abandoned now token d.id (safe_delivery_error result.0 result.1)) w

-- The worker after an outcome, and whether the loop goes on.
unfoldable pub settle : ℕ → String → PushDelivery → Answer → Worker → Outcome → Worker × Bool
settle now token d a w delivered =
    (writes a.store_fails (mark_push_delivered now token d.id) w, true)
settle now token d a w interrupted = (writes a.store_fails (release_push_claim token) w, false)
settle now token d a w gone =
    (writes a.store_fails (disable_push_subscription now d.subscription_id) w, true)
settle now token d a w backoff = (fail now token d a w, true)
settle now token d a w abandoned = (abandon now token d a w, true)

abbrev pub calls : Answer → PushDelivery → Worker → Worker
calls a d w = if (send a).0 then record w { sent = w.sent ++ d.id ∷ [] } else w

-- One round of the loop of `deliver`.
unfoldable pub deliver_one : ℕ → String → PushDelivery → Answer → Worker → Worker × Bool
deliver_one now token d a w =
    if a.live_before
    then (writes a.store_fails (release_push_claim token) w, false)
    else settle now token d a (calls a d w) (outcome a.done d.attempts (send a).1)

unfoldable pub deliver_each : ℕ → String → (ℕ → Answer) → List PushDelivery → Worker → Worker
deliver_each now token answers [] w = w
deliver_each now token answers (d ∷ ds) w =
    let (w', more) = deliver_one now token d (answers d.id) w in
    let rest = deliver_each now token answers ds w' in if more then rest else w'

abbrev pub deliver_claimed :
    ℕ → String → (ℕ → Answer) → Worker → Outbox × Option (List PushDelivery) → Worker
deliver_claimed now token answers w (box, none) = w
deliver_claimed now token answers w (box, some ds) =
    deliver_each now token answers ds (record w { outbox = box })

-- `deliver`: nothing is claimed while the voice is live or if the claim fails.
unfoldable pub deliver : ℕ → String → Bool → Bool → (ℕ → Answer) → Worker → Worker
deliver now token live claim_fails answers w =
    if live
    then w
    else if claim_fails
    then w
    else deliver_claimed now token answers w
        (claim_push_deliveries now token batch_size claim_lease w.outbox)
