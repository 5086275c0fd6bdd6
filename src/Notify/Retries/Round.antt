-- ===== src/Notify/Retries/Round.antt =====
-- internal/notify/notify.go: the deliveries of one pass, one after the other.
use thornhill.Base.{
  ℕ, ◌+◌, ◌≤◌, ◌<◌, ◌≡◌, refl, sym, Bool, true, false, inl, inr, Option, none, some, List, [], ◌∷◌,
  ◌++◌, String, arith, if_elim,
}
use mathlib.Core.Path.{subst}
use thornhill.Store.Outbox.{has_number}
use thornhill.Store.Outbox.Push.{PushDelivery, Outbox}
use thornhill.Store.Outbox.Outcomes.{
  release_push_claim, mark_push_delivered, mark_push_failed, mark_push_abandoned,
  disable_push_subscription,
}
use thornhill.Notify.{
  SendError, Answer, Outcome, delivered, interrupted, gone, backoff, abandoned, send, outcome,
  outcome_of_error, retry_delay, safe_delivery_error, deadline_exceeded, canceled, transport,
  became_live,
}
use thornhill.Notify.Worker.{
  Worker, writes, fail, abandon, settle, calls, deliver_one, deliver_each,
}
use thornhill.Notify.Live.{one-cases, each-cases}
use thornhill.Notify.Retries.{
  count, count-append, keys, InOrder, Backed, Waiting, Backed-drop, Backed-none, Backed-retry,
  Waiting-retry,
}
use thornhill.Notify.Retries.Owing.{Sound}
use thornhill.Notify.Retries.Pass.{
  InOrder-same, Backed-same, KeepsKeys, release-KeepsKeys, delivered-KeepsKeys, failed-KeepsKeys,
  abandoned-KeepsKeys, disabled-KeepsKeys,
}

-- In a pass, with `ds` still to be delivered.
pub record InPass (ds : List PushDelivery) (w : Worker) : Type 0 where
  pub positive : 0 < w.outbox.next_delivery
  pub order : InOrder 0 w.outbox.deliveries
  pub backed : Backed w.retried w.outbox.next_delivery (keys ds) w.outbox.deliveries
  pub waiting : Waiting w.retried ds
  pub fresh : (k : ℕ) → w.outbox.next_delivery ≤ k → count k w.retried ≡ 0
  pub below : (k : ℕ) → has_number k (keys ds) ≡ true → k < w.outbox.next_delivery
  pub small : (k : ℕ) → count k w.retried ≤ 5

-- Between passes.
abbrev pub Fits : Worker → Type 0
Fits w = Sound w.retried w.outbox × ((k : ℕ) → count k w.retried ≤ 5)

ends : (ds : List PushDelivery) (w : Worker) → InPass ds w → Fits w
ends ds w h = (
  record {
    positive = h.positive;
    order = h.order;
    backed = Backed-none w.retried w.outbox.next_delivery (keys ds) w.outbox.deliveries h.backed;
    fresh = h.fresh;
  },
  h.small,
)

drops : (d : PushDelivery) (ds : List PushDelivery) (w : Worker) → InPass (d ∷ ds) w → InPass ds w
unfolding has_number
drops d ds w h = record {
  positive = h.positive;
  order = h.order;
  backed = Backed-drop w.retried w.outbox.next_delivery d.id (keys ds) w.outbox.deliveries h.backed;
  waiting = h.waiting.2;
  fresh = h.fresh;
  below = λ k q. h.below k (ground arith);
  small = h.small;
}

writes-InPass :
    (fails : Bool) (f : Outbox → Outbox) (ds : List PushDelivery) (w : Worker)
    → KeepsKeys f
    → InPass ds w
    → InPass ds (writes fails f w)
writes-InPass true f ds w keep h = h
writes-InPass false f ds w keep h =
    let (e, s) = keep w.outbox in
    record {
      positive = rw e h.positive;
      order = InOrder-same 0 w.outbox.deliveries (f w.outbox).deliveries s h.order;
      backed = rw e (
          Backed-same w.retried w.outbox.next_delivery (keys ds) w.outbox.deliveries
            (f w.outbox).deliveries s h.backed);
      waiting = h.waiting;
      fresh = λ k le. h.fresh k (rw (← e) le);
      below = λ k q. rw e (h.below k q);
      small = h.small;
    }

retries-InPass :
    (d : PushDelivery) (ds : List PushDelivery) (w : Worker)
    → d.attempts < 6
    → InPass (d ∷ ds) w
    → InPass ds (record w { retried = w.retried ++ d.id ∷ [] })
unfolding has_number
retries-InPass d ds w lt h =
    let (less, apart, rest) = h.waiting in
    record {
      positive = h.positive;
      order = h.order;
      backed =
          Backed-retry w.retried w.outbox.next_delivery d.id (keys ds) w.outbox.deliveries apart
            h.backed;
      waiting = Waiting-retry w.retried d.id ds apart rest;
      fresh = λ k le. ground (arith, count-append k d.id w.retried, h.fresh k le, h.below d.id);
      below = λ k q. h.below k (ground arith);
      small = λ k. ground (arith, count-append k d.id w.retried, h.small k);
    }

calls-InPass :
    (a : Answer) (d : PushDelivery) (ds : List PushDelivery) (w : Worker)
    → InPass ds w
    → InPass ds (calls a d w)
calls-InPass a d ds w h =
    if_elim (InPass ds) (send a).0
      (record {
        positive = h.positive;
        order = h.order;
        backed = h.backed;
        waiting = h.waiting;
        fresh = h.fresh;
        below = h.below;
        small = h.small;
      })
      h

outcome-backoff :
    (done : Bool) (attempts : ℕ) (r : ℕ × Option SendError)
    → outcome done attempts r ≡ backoff
    → attempts < 6
unfolding outcome outcome_of_error
outcome-backoff done attempts (status, none) h = cc
outcome-backoff done attempts (status, some became_live) h = cc
outcome-backoff done attempts (status, some deadline_exceeded) h = ground arith
outcome-backoff done attempts (status, some canceled) h = ground arith
outcome-backoff done attempts (status, some transport) h = ground arith

settle-InPass :
    (now : ℕ) (token : String) (d : PushDelivery) (a : Answer) (ds : List PushDelivery) (w : Worker)
    (o : Outcome)
    → (o ≡ backoff → d.attempts < 6)
    → InPass (d ∷ ds) w
    → InPass ds (settle now token d a w o).0
unfolding settle fail abandon
settle-InPass now token d a ds w delivered lt h =
    writes-InPass a.store_fails (mark_push_delivered now token d.id) ds w
      (delivered-KeepsKeys now token d.id) (drops d ds w h)
settle-InPass now token d a ds w interrupted lt h =
    writes-InPass a.store_fails (release_push_claim token) ds w (release-KeepsKeys token)
      (drops d ds w h)
settle-InPass now token d a ds w gone lt h =
    writes-InPass a.store_fails (disable_push_subscription now d.subscription_id) ds w
      (disabled-KeepsKeys now d.subscription_id) (drops d ds w h)
settle-InPass now token d a ds w backoff lt h =
    let message = safe_delivery_error (send a).1.0 (send a).1.1 in
    writes-InPass a.store_fails (mark_push_failed token d.id (now + retry_delay d.attempts) message)
      ds (record w { retried = w.retried ++ d.id ∷ [] })
      (failed-KeepsKeys token d.id (now + retry_delay d.attempts) message)
      (retries-InPass d ds w (lt refl) h)
settle-InPass now token d a ds w abandoned lt h =
    let message = safe_delivery_error (send a).1.0 (send a).1.1 in
    writes-InPass a.store_fails (mark_push_abandoned now token d.id message) ds w
      (abandoned-KeepsKeys now token d.id message) (drops d ds w h)

one-InPass :
    (now : ℕ) (token : String) (d : PushDelivery) (a : Answer) (ds : List PushDelivery) (w : Worker)
    → InPass (d ∷ ds) w
    → InPass ds (deliver_one now token d a w).0
one-InPass now token d a ds w h =
    let P = λ (r : Worker × Bool). InPass ds r.0 in
    elim (one-cases now token d a w) [
      | inl e ↦ subst P (sym e) (
          writes-InPass a.store_fails (release_push_claim token) ds w (release-KeepsKeys token)
            (drops d ds w h))
      | inr (f, e) ↦ subst P (sym e) (
          settle-InPass now token d a ds (calls a d w) (outcome a.done d.attempts (send a).1)
            (outcome-backoff a.done d.attempts (send a).1) (calls-InPass a d (d ∷ ds) w h))
    ]

pub each-Fits :
    (now : ℕ) (token : String) (answers : ℕ → Answer) (ds : List PushDelivery) (w : Worker)
    → InPass ds w
    → Fits (deliver_each now token answers ds w)
unfolding deliver_each
each-Fits now token answers [] w h = ends [] w h
each-Fits now token answers (d ∷ ds) w h =
    let h' = one-InPass now token d (answers d.id) ds w h in
    let w' = (deliver_one now token d (answers d.id) w).0 in
    elim (each-cases now token answers d ds w) [
      | inl e ↦ subst Fits (sym e) (each-Fits now token answers ds w' h')
      | inr e ↦ subst Fits (sym e) (ends ds w' h')
    ]
