-- ===== src/Notify/Retries/Pass.antt =====
-- internal/notify/notify.go: one pass of the worker keeps the table and the log of retries together.
use thornhill.Base.{
  ℕ, ◌≡◌, refl, ◌&&◌, List, [], ◌∷◌, String, str_eq, ◌==◌, is_empty, arith, if_elim,
}
use thornhill.Store.Outbox.{is_none}
use thornhill.Store.Outbox.Push.{DeliveryRow, Outbox, compact_attention_text}
use thornhill.Store.Outbox.Outcomes.{
  update_claimed, release_delivery, release_deliveries, release_push_claim, as_delivered,
  mark_push_delivered, as_failed, mark_push_failed, as_abandoned, mark_push_abandoned,
  disable_push_subscription,
}
use thornhill.Notify.Retries.{InOrder, Backed}

-- The two tables have the same rows in the same order, up to what is not counted.
abbrev pub SameKeys : List DeliveryRow → List DeliveryRow → Type 0
SameKeys [] [] = Unit {0}
SameKeys (a ∷ xs) (b ∷ ys) = (b.id ≡ a.id) × (b.attempts ≡ a.attempts) × SameKeys xs ys
SameKeys _ _ = ⊥

pub InOrder-same : (b : ℕ) (xs ys : List DeliveryRow) → SameKeys xs ys → InOrder b xs → InOrder b ys
InOrder-same b [] [] s o = tt
InOrder-same b (x ∷ xs) (y ∷ ys) (i, a, s) (lo, o) = (rw i lo, rw i (InOrder-same x.id xs ys s o))
InOrder-same b [] (y ∷ ys) s o = absurd s
InOrder-same b (x ∷ xs) [] s o = absurd s

pub Backed-same :
    (c : List ℕ) (next : ℕ) (pend : List ℕ) (xs ys : List DeliveryRow)
    → SameKeys xs ys
    → Backed c next pend xs
    → Backed c next pend ys
Backed-same c next pend [] [] s h = tt
Backed-same c next pend (x ∷ xs) (y ∷ ys) (i, a, s) (n, lt, h) =
    (rw i (rw a n), rw i lt, Backed-same c next pend xs ys s h)
Backed-same c next pend [] (y ∷ ys) s h = absurd s
Backed-same c next pend (x ∷ xs) [] s h = absurd s

SameKeys-refl : (xs : List DeliveryRow) → SameKeys xs xs
SameKeys-refl [] = tt
SameKeys-refl (x ∷ xs) = (refl, refl, SameKeys-refl xs)

updated-SameKeys :
    (id : ℕ) (token : String) (f : DeliveryRow → DeliveryRow) (xs : List DeliveryRow)
    → ((d : DeliveryRow) → ((f d).id ≡ d.id) × ((f d).attempts ≡ d.attempts))
    → SameKeys xs (update_claimed id token f xs)
unfolding update_claimed
updated-SameKeys id token f [] keep = tt
updated-SameKeys id token f (d ∷ xs) keep =
    if_elim (SameKeys (d ∷ xs)) (d.id == id && (str_eq d.claim_token token && is_none d.sent_at))
      ((keep d).0, (keep d).1, updated-SameKeys id token f xs keep)
      (refl, refl, updated-SameKeys id token f xs keep)

released-SameKeys :
    (token : String) (xs : List DeliveryRow) → SameKeys xs (release_deliveries token xs)
unfolding release_deliveries release_delivery
released-SameKeys token [] = tt
released-SameKeys token (d ∷ xs) = (ground arith, ground arith, released-SameKeys token xs)

-- A statement of the store that neither adds nor removes deliveries, nor counts a claim.
abbrev pub KeepsKeys : (Outbox → Outbox) → Type 0
KeepsKeys f =
    (box : Outbox)
    → ((f box).next_delivery ≡ box.next_delivery) × SameKeys box.deliveries (f box).deliveries

pub release-KeepsKeys : (token : String) → KeepsKeys (release_push_claim token)
unfolding release_push_claim
release-KeepsKeys token box =
    if_elim
      (λ (b : Outbox). (b.next_delivery ≡ box.next_delivery) × SameKeys box.deliveries b.deliveries)
      (is_empty token) (refl, SameKeys-refl box.deliveries)
      (refl, released-SameKeys token box.deliveries)

pub delivered-KeepsKeys :
    (now : ℕ) (token : String) (id : ℕ) → KeepsKeys (mark_push_delivered now token id)
unfolding mark_push_delivered
delivered-KeepsKeys now token id box =
    (refl, updated-SameKeys id token (as_delivered now) box.deliveries (λ d. (refl, refl)))

pub failed-KeepsKeys :
    (token : String) (id retry_at : ℕ) (message : String)
    → KeepsKeys (mark_push_failed token id retry_at message)
unfolding mark_push_failed
failed-KeepsKeys token id retry_at message box = (
  refl,
  updated-SameKeys id token (as_failed retry_at (compact_attention_text message 300)) box.deliveries
      (λ d. (refl, refl)),
)

pub abandoned-KeepsKeys :
    (now : ℕ) (token : String) (id : ℕ) (message : String)
    → KeepsKeys (mark_push_abandoned now token id message)
unfolding mark_push_abandoned
abandoned-KeepsKeys now token id message box = (
  refl,
  updated-SameKeys id token (as_abandoned now (compact_attention_text message 300)) box.deliveries
      (λ d. (ground arith, ground arith)),
)

pub disabled-KeepsKeys : (now id : ℕ) → KeepsKeys (disable_push_subscription now id)
unfolding disable_push_subscription
disabled-KeepsKeys now id box = (refl, SameKeys-refl box.deliveries)
