-- ===== src/Notify/Live.antt =====
-- internal/notify/notify.go: no browser is told while the operator is spoken to.
use thornhill.Base.{
  ℕ, ◌≡◌, refl, sym, ◌∙◌, ap, Bool, true, false, ◌⊎◌, inl, inr, Option, none, some, List, [], ◌∷◌,
  ◌++◌, String, arith, if-cases,
}
use mathlib.Core.Path.{subst}
use thornhill.Store.Outbox.{has_number}
use thornhill.Store.Outbox.Outcomes.{release_push_claim}
use thornhill.Store.Outbox.Push.{PushDelivery, Outbox, claim_push_deliveries}
use thornhill.Notify.{
  Answer, Outcome, delivered, interrupted, gone, backoff, abandoned, send, outcome, batch_size,
  claim_lease,
}
use thornhill.Notify.Worker.{
  Worker, fail, abandon, settle, calls, writes, deliver_one, deliver_each, deliver_claimed, deliver,
}

has_number-append :
    (k x : ℕ) (xs : List ℕ)
    → has_number k (xs ++ x ∷ []) ≡ true
    → (has_number k xs ≡ true) ⊎ (x ≡ k)
unfolding has_number
has_number-append k x [] h = ground arith
has_number-append k x (y ∷ xs) h = ground (arith, has_number-append k x xs)

settle-sent :
    (now : ℕ) (token : String) (d : PushDelivery) (a : Answer) (w : Worker) (o : Outcome)
    → (settle now token d a w o).0.sent ≡ w.sent
unfolding settle fail abandon
settle-sent now token d a w delivered = ground arith
settle-sent now token d a w interrupted = ground arith
settle-sent now token d a w gone = ground arith
settle-sent now token d a w backoff = ground arith
settle-sent now token d a w abandoned = ground arith

-- The voice was not live when the delivery was taken up, nor when it was sent.
abbrev pub WasQuiet : Answer → Type 0
WasQuiet a = (a.live_before ≡ false) × (a.live_at_lock ≡ false)

calls-sent :
    (d : PushDelivery) (a : Answer) (w : Worker) (k : ℕ)
    → has_number k (calls a d w).sent ≡ true
    → (has_number k w.sent ≡ true) ⊎ ((d.id ≡ k) × (a.live_at_lock ≡ false))
unfolding send
calls-sent d a w k h = ground (arith, has_number-append k d.id w.sent)

written-sent :
    (fails : Bool) (f : Outbox → Outbox) (w : Worker) (k : ℕ)
    → has_number k (writes fails f w).sent ≡ true
    → has_number k w.sent ≡ true
written-sent true f w k h = h
written-sent false f w k h = h

pub one-cases :
    (now : ℕ) (token : String) (d : PushDelivery) (a : Answer) (w : Worker)
    → (deliver_one now token d a w ≡ (writes a.store_fails (release_push_claim token) w, false))
      ⊎ ((a.live_before ≡ false)
          × (deliver_one now token d a w
              ≡ settle now token d a (calls a d w) (outcome a.done d.attempts (send a).1)))
unfolding deliver_one
one-cases now token d a w =
    elim (if-cases a.live_before (writes a.store_fails (release_push_claim token) w, false)
      (settle now token d a (calls a d w) (outcome a.done d.attempts (send a).1))) [
        | inl (t, e) ↦ inl e
        | inr (f, e) ↦ inr (f, e)
      ]

one-sent :
    (now : ℕ) (token : String) (answers : ℕ → Answer) (d : PushDelivery) (w : Worker) (k : ℕ)
    → has_number k (deliver_one now token d (answers d.id) w).0.sent ≡ true
    → (has_number k w.sent ≡ true) ⊎ WasQuiet (answers k)
one-sent now token answers d w k h =
    let a = answers d.id in
    let has = λ (s : Worker × Bool). has_number k s.0.sent in
    elim (one-cases now token d a w) [
      | inl e ↦ inl (written-sent a.store_fails (release_push_claim token) w k (sym (ap has e) ∙ h))
      | inr (f, e) ↦
          (let o = outcome a.done d.attempts (send a).1 in
            elim (calls-sent d a w k (
              ap (has_number k) (sym (settle-sent now token d a (calls a d w) o))
              ∙ sym (ap has e)
              ∙ h)) [
                | inl old ↦ inl old
                | inr (same, quiet) ↦ inr (subst (λ (i : ℕ). WasQuiet (answers i)) same (f, quiet))
              ])
    ]

pub each-cases :
    (now : ℕ) (token : String) (answers : ℕ → Answer) (d : PushDelivery) (ds : List PushDelivery)
    (w : Worker)
    → let s = deliver_one now token d (answers d.id) w in
      (deliver_each now token answers (d ∷ ds) w ≡ deliver_each now token answers ds s.0)
      ⊎ (deliver_each now token answers (d ∷ ds) w ≡ s.0)
unfolding deliver_each
each-cases now token answers d ds w =
    let s = deliver_one now token d (answers d.id) w in
    elim (if-cases s.1 (deliver_each now token answers ds s.0) s.0) [
      | inl (t, e) ↦ inl e
      | inr (f, e) ↦ inr e
    ]

each-sent :
    (now : ℕ) (token : String) (answers : ℕ → Answer) (ds : List PushDelivery) (w : Worker) (k : ℕ)
    → has_number k (deliver_each now token answers ds w).sent ≡ true
    → (has_number k w.sent ≡ true) ⊎ WasQuiet (answers k)
unfolding deliver_each
each-sent now token answers [] w k h = inl h
each-sent now token answers (d ∷ ds) w k h =
    let s = deliver_one now token d (answers d.id) w in
    let has = λ (x : Worker). has_number k x.sent in
    elim (each-cases now token answers d ds w) [
      | inl e ↦ elim (each-sent now token answers ds s.0 k (sym (ap has e) ∙ h)) [
        | inl old ↦ one-sent now token answers d w k old
        | inr q ↦ inr q
      ]
      | inr e ↦ one-sent now token answers d w k (sym (ap has e) ∙ h)
    ]

claimed-sent :
    (now : ℕ) (token : String) (answers : ℕ → Answer) (w : Worker)
    (r : Outbox × Option (List PushDelivery)) (k : ℕ)
    → has_number k (deliver_claimed now token answers w r).sent ≡ true
    → (has_number k w.sent ≡ true) ⊎ WasQuiet (answers k)
claimed-sent now token answers w (box, none) k h = inl h
claimed-sent now token answers w (box, some ds) k h =
    each-sent now token answers ds (record w { outbox = box }) k h

-- The provider is called for a delivery only if the voice was not live when the pass began, when the
-- delivery was taken up, and when its send took the lock.
pub sent_while_quiet :
    (now : ℕ) (token : String) (live claim_fails : Bool) (answers : ℕ → Answer) (w : Worker) (k : ℕ)
    → has_number k (deliver now token live claim_fails answers w).sent ≡ true
    → (has_number k w.sent ≡ true) ⊎ ((live ≡ false) × WasQuiet (answers k))
unfolding deliver
sent_while_quiet now token true claim_fails answers w k h = inl h
sent_while_quiet now token false true answers w k h = inl h
sent_while_quiet now token false false answers w k h =
    elim (claimed-sent now token answers w
      (claim_push_deliveries now token batch_size claim_lease w.outbox) k h) [
        | inl old ↦ inl old
        | inr q ↦ inr (refl, q)
      ]
