-- ===== src/Notify/Retries/Bound.antt =====
-- internal/notify/notify.go: the bound on retries over any run of the worker.
use thornhill.Base.{
  ℕ, ◌+◌, ◌≤◌, refl, Bool, true, false, Option, List, [], ◌∷◌, String, is_empty, arith, if_elim,
}
use thornhill.Store.Outbox.{AttentionRow, claim_limit}
use thornhill.Store.Outbox.Push.{
  PushDelivery, Outbox, owe_all, claim_deliveries, claim_push_deliveries, upsert_push_subscription,
  delete_push_subscription,
}
use thornhill.Notify.{Answer, batch_size, claim_lease}
use thornhill.Notify.Worker.{Worker, deliver_claimed, deliver}
use thornhill.Notify.Retries.{count}
use thornhill.Notify.Retries.Claims.{claim-Claimed}
use thornhill.Notify.Retries.Owing.{owe_all-Sound, upsert-Sound, delete-Sound}
use thornhill.Notify.Retries.Round.{Fits, each-Fits}

claimed-Fits :
    (now : ℕ) (token : String) (answers : ℕ → Answer) (w : Worker)
    → Fits w
    → Fits (
        deliver_claimed now token answers w
          (claim_push_deliveries now token batch_size claim_lease w.outbox))
unfolding claim_push_deliveries
claimed-Fits now token answers w (s, small) =
    let box = owe_all now w.outbox.attention w.outbox.subscriptions w.outbox in
    let s' = owe_all-Sound w.retried now w.outbox.attention w.outbox.subscriptions w.outbox s in
    let r =
      claim_deliveries now token (now + claim_lease) (claim_limit batch_size) box box.deliveries in
    let (order, backed, waiting, above, below) =
      claim-Claimed now token (now + claim_lease) (claim_limit batch_size) box w.retried
        box.next_delivery 0 box.deliveries s'.order s'.backed in
    if_elim
      (λ (x : Outbox × Option (List PushDelivery)). Fits (deliver_claimed now token answers w x))
      (is_empty token) (s, small)
      (each-Fits now token answers r.1 (record w { outbox = record box { deliveries = r.0 } })
        (record {
          positive = s'.positive;
          order = order;
          backed = backed;
          waiting = waiting;
          fresh = s'.fresh;
          below = below;
          small = small;
        }))

-- What happens to the worker and its tables: a pass, an opt-in, an opt-out, or any change of the
-- attention rows.
pub data Op : Type 0 where
  passes : (now : ℕ) (token : String) (live claim_fails : Bool) (answers : ℕ → Answer) → Op
  opts_in : (now : ℕ) (endpoint p256dh auth : String) → Op
  opts_out : (endpoint : String) → Op
  attends : List AttentionRow → Op

unfoldable pub step : Worker → Op → Worker
step w (passes now token live claim_fails answers) = deliver now token live claim_fails answers w
step w (opts_in now e p a) = record w { outbox = upsert_push_subscription now e p a w.outbox }
step w (opts_out e) = record w { outbox = delete_push_subscription e w.outbox }
step w (attends rows) = record w { outbox = record w.outbox { attention = rows } }

unfoldable pub run : Worker → List Op → Worker
run w [] = w
run w (op ∷ ops) = run (step w op) ops

pub step-Fits : (w : Worker) (op : Op) → Fits w → Fits (step w op)
unfolding step deliver
step-Fits w (passes now token true claim_fails answers) h = h
step-Fits w (passes now token false true answers) h = h
step-Fits w (passes now token false false answers) h = claimed-Fits now token answers w h
step-Fits w (opts_in now e p a) (s, small) = (upsert-Sound w.retried now e p a w.outbox s, small)
step-Fits w (opts_out e) (s, small) = (delete-Sound w.retried e w.outbox s, small)
step-Fits w (attends rows) (s, small) =
    (record { positive = s.positive; order = s.order; backed = s.backed; fresh = s.fresh }, small)

run-Fits : (w : Worker) (ops : List Op) → Fits w → Fits (run w ops)
unfolding run
run-Fits w [] h = h
run-Fits w (op ∷ ops) h = run-Fits (step w op) ops (step-Fits w op h)

-- The worker of a new database.
abbrev pub new_worker : Worker
new_worker = record {
  outbox = record {
    attention = [];
    subscriptions = [];
    deliveries = [];
    next_subscription = 1;
    next_delivery = 1;
  };
  sent = [];
  retried = [];
}

-- No delivery is put back more than five times. This holds over any run of passes, opt-ins, opt-outs and
-- changes of the attention rows from an empty outbox, whatever the provider answers, whether the store
-- records the outcomes or fails to, and whenever a pass is interrupted.
pub retries_bounded : (ops : List Op) (k : ℕ) → count k (run new_worker ops).retried ≤ 5
retries_bounded ops k =
    (run-Fits new_worker ops (
      record { positive = omega arith; order = tt; backed = tt; fresh = λ j le. refl },
      λ j. omega arith,
    )).1
      k
