-- ===== src/Tests/Notify.antt =====
-- The push worker of internal/notify/notify.go on one delivery.
use thornhill.Base.{◌≡◌, refl, true, false, ◌⊎◌, none, some, [], ◌∷◌, ◌+◌, ◌*◌, ◌≤◌, ◌<◌, is_empty}
use thornhill.Store.Outbox.{has_number, claim_limit}
use thornhill.Store.Outbox.Push.{
  find_attention, find_subscription, owed, owe, owe_row, owe_all, has_delivery, delivery_claimable,
  returned_delivery, claim_deliveries, claim_push_deliveries, Subscription,
}
use thornhill.Notify.{Answer, transport, retry_delay, retryable, send, outcome, outcome_of_error}
use thornhill.Notify.Worker.{Worker, deliver, deliver_each, deliver_one, settle, fail}
use thornhill.Notify.Delay.{retry_delay_ladder}
use thornhill.Notify.Live.{WasQuiet, sent_while_quiet}
use thornhill.Notify.Retries.{count}
use thornhill.Notify.Retries.Bound.{passes, opts_in, attends, new_worker, run, retries_bounded}
use thornhill.Tests.Outbox.{first_row}

retry_delay_ladder_example :
    (30 ≤ retry_delay 3)
    × (retry_delay 3 ≤ 960)
    × (((1 ≤ 3) × (3 < 6) × (retry_delay (3 + 1) ≡ 2 * retry_delay 3))
        ⊎ ((retry_delay (3 + 1) ≡ retry_delay 3) × ((3 < 1) ⊎ (6 ≤ 3))))
retry_delay_ladder_example = retry_delay_ladder 3

abbrev unavailable : Answer
unavailable = record {
  live_before = false;
  live_at_lock = false;
  live_after = false;
  status = 503;
  error = some transport;
  cancelled = false;
  done_in_send = false;
  done = false;
  store_fails = false;
}

abbrev browser : Subscription
browser = record {
  id = 1;
  endpoint = "https://push.example/1";
  p256dh = "k";
  auth = "a";
  created_at = 2;
  disabled_at = none;
}

abbrev one_browser : Worker
one_browser = record new_worker {
  outbox = record new_worker.outbox {
    attention = first_row ∷ [];
    subscriptions = browser ∷ [];
    next_subscription = 2;
  };
}

sent_while_quiet_example :
    (has_number 1 one_browser.sent ≡ true) ⊎ ((false ≡ false) × WasQuiet unavailable)
unfolding deliver deliver_each deliver_one settle fail send outcome outcome_of_error retryable
    claim_push_deliveries claim_deliveries delivery_claimable returned_delivery owe_all owe_row owe
    owed has_delivery find_attention find_subscription claim_limit is_empty has_number
sent_while_quiet_example =
    sent_while_quiet 10 "T1" false false (λ k. unavailable) one_browser 1 refl

retries_bounded_example :
    count 1
      (run new_worker (
        opts_in 2 "https://push.example/1" "k" "a"
        ∷ attends (first_row ∷ [])
        ∷ passes 10 "T1" false false (λ k. unavailable)
        ∷ passes 50 "T2" false false (λ k. unavailable)
        ∷ [])).retried
    ≤ 5
retries_bounded_example =
    retries_bounded
      (opts_in 2 "https://push.example/1" "k" "a"
        ∷ attends (first_row ∷ [])
        ∷ passes 10 "T1" false false (λ k. unavailable)
        ∷ passes 50 "T2" false false (λ k. unavailable)
        ∷ [])
      1
