-- ===== src/Notify/Retries/Claims.antt =====
-- internal/store/store.go: what a claim of push deliveries hands out.
use mathlib.Core.Path.{subst}
use thornhill.Base.{
  ℕ, zero, suc, ◌+◌, ◌≤◌, ◌<◌, ◌≡◌, refl, sym, ◌∙◌, ap, true, false, ◌⊎◌, inl, inr, Option, none,
  some, List, [], ◌∷◌, ◌++◌, String, arith, if-cases, Bool-cases,
}
use thornhill.Store.Outbox.{AttentionRow, has_number}
use thornhill.Store.Outbox.Push.{
  Subscription, DeliveryRow, PushDelivery, Outbox, wanted, find_attention, find_subscription,
  delivery_claimable, returned, returned_delivery, claimed_delivery, claim_deliveries,
}
use thornhill.Notify.Retries.{count, keys, due, InOrder, Backed, Waiting, Backed-below}

wanted_both :
    (o : Option AttentionRow) (q : Option Subscription)
    → wanted o q ≡ true
    → (a : AttentionRow) × (s : Subscription) × (o ≡ some a) × (q ≡ some s)
wanted_both none q h = cc
wanted_both (some a) none h = cc
wanted_both (some a) (some s) h = (a, s, refl, refl)

claimable-wanted :
    (now : ℕ) (box : Outbox) (d : DeliveryRow)
    → delivery_claimable now box d ≡ true
    → wanted
        (find_attention d.attention_id box.attention)
        (find_subscription d.subscription_id box.subscriptions)
      ≡ true
unfolding delivery_claimable
claimable-wanted now box d h = ground arith

handed_out :
    (now : ℕ) (token : String) (until : ℕ) (box : Outbox) (d : DeliveryRow)
    → delivery_claimable now box d ≡ true
    → (p : PushDelivery) × (p.id ≡ d.id)
      × (p.attempts ≡ d.attempts + 1)
      × (returned_delivery box (claimed_delivery token until d) ≡ p ∷ [])
unfolding returned_delivery
handed_out now token until box d h =
    let d' = claimed_delivery token until d in
    let (a, s, e, f) =
      wanted_both (find_attention d.attention_id box.attention)
        (find_subscription d.subscription_id box.subscriptions) (claimable-wanted now box d h) in
    (
      record {
        id = d.id;
        subscription_id = d.subscription_id;
        endpoint = s.endpoint;
        p256dh = s.p256dh;
        auth = s.auth;
        title = a.push_title;
        body = a.push_body;
        attention_id = a.id;
        attempts = d.attempts + 1;
      },
      refl,
      refl,
      ap
            (λ (x : Option AttentionRow).
              returned d' x (find_subscription d.subscription_id box.subscriptions))
            e
          ∙ ap (λ (x : Option Subscription). returned d' (some a) x) f,
    )

-- The first row is handed out once, or it is passed over.
claim-cases :
    (now : ℕ) (token : String) (until n : ℕ) (box : Outbox) (d : DeliveryRow)
    (rows : List DeliveryRow)
    → ((p : PushDelivery) × (p.id ≡ d.id)
        × (p.attempts ≡ d.attempts + 1)
        × (claim_deliveries now token until (suc n) box (d ∷ rows) ≡ (
          claimed_delivery token until d ∷ (claim_deliveries now token until n box rows).0,
          p ∷ (claim_deliveries now token until n box rows).1,
        )))
      ⊎ (claim_deliveries now token until (suc n) box (d ∷ rows) ≡ (
        d ∷ (claim_deliveries now token until (suc n) box rows).0,
        (claim_deliveries now token until (suc n) box rows).1,
      ))
unfolding claim_deliveries
claim-cases now token until n box d rows =
    let taken = claim_deliveries now token until n box rows in
    let passed = claim_deliveries now token until (suc n) box rows in
    let d' = claimed_delivery token until d in
    elim (if-cases {A = List DeliveryRow × List PushDelivery} (delivery_claimable now box d)
      (d' ∷ taken.0, returned_delivery box d' ++ taken.1) (d ∷ passed.0, passed.1)) [
        | inl (t, e) ↦
            (let (p, i, n', q) = handed_out now token until box d t in
              inl (p, i, n', e ∙ ap (λ (xs : List PushDelivery). (d' ∷ taken.0, xs ++ taken.1)) q))
        | inr (f, e) ↦ inr e
      ]

fresh_below :
    (x b : ℕ) (xs : List ℕ)
    → x ≤ b
    → ((k : ℕ) → has_number k xs ≡ true → b < k)
    → has_number x xs ≡ false
fresh_below x b xs le above = elim (Bool-cases (has_number x xs)) [
  | inl t ↦ (let lt = above x t in ground arith)
  | inr f ↦ f
]

beyond :
    (x b m k : ℕ) (xs : List ℕ)
    → b < m
    → x ≡ m
    → ((k : ℕ) → has_number k xs ≡ true → m < k)
    → has_number k (x ∷ xs) ≡ true
    → b < k
unfolding has_number
beyond x b m k xs lt same above h = elim (Bool-cases (has_number k xs)) [
  | inl t ↦ (let lt' = above k t in omega arith)
  | inr f ↦ ground arith
]

within :
    (x next k : ℕ) (xs : List ℕ)
    → x < next
    → ((k : ℕ) → has_number k xs ≡ true → k < next)
    → has_number k (x ∷ xs) ≡ true
    → k < next
unfolding has_number
within x next k xs lt lim h = elim (Bool-cases (has_number k xs)) [
  | inl t ↦ lim k t
  | inr f ↦ ground arith
]

claimed-backed :
    (c pend : List ℕ) (x y n : ℕ) → count x c + due [] x ≤ n → count x c + due (y ∷ pend) x ≤ n + 1
unfolding has_number
claimed-backed c pend x y n h = ground arith

claimed_over :
    (c pend : List ℕ) (x n : ℕ)
    → count x c + due [] x ≤ n
    → has_number x pend ≡ false
    → count x c + due pend x ≤ n
claimed_over c pend x n h f = ground arith

abbrev pub Claimed : List ℕ → ℕ → ℕ → List DeliveryRow × List PushDelivery → Type 0
Claimed c next b (rows, out) =
    InOrder b rows
    × Backed c next (keys out) rows
    × Waiting c out
    × ((k : ℕ) → has_number k (keys out) ≡ true → b < k)
    × ((k : ℕ) → has_number k (keys out) ≡ true → k < next)

pub claim-Claimed :
    (now : ℕ) (token : String) (until n : ℕ) (box : Outbox) (c : List ℕ) (next b : ℕ)
    (rows : List DeliveryRow)
    → InOrder b rows
    → Backed c next [] rows
    → Claimed c next b (claim_deliveries now token until n box rows)
unfolding claim_deliveries has_number
claim-Claimed now token until zero box c next b rows o h = (o, h, tt, (λ k q. cc), (λ k q. cc))
claim-Claimed now token until (suc n) box c next b [] o h = (tt, tt, tt, (λ k q. cc), (λ k q. cc))
claim-Claimed now token until (suc n) box c next b (d ∷ rows) (lo, o) (m, lt, h) =
    elim (claim-cases now token until n box d rows) [
      | inl (p, i, a, e) ↦
          (let r = claim_deliveries now token until n box rows in
            let (o', h', w', out, lim) = claim-Claimed now token until n box c next d.id rows o h in
            subst (Claimed c next b) (sym e) (
              (lo, o'),
              (
                claimed-backed c (keys r.1) d.id p.id d.attempts m,
                lt,
                Backed-below c next p.id d.id (keys r.1) r.0 (omega (arith, i)) o' h',
              ),
              (
                rw i (rw a (ground arith)),
                rw i (fresh_below d.id d.id (keys r.1) (omega arith) out),
                w',
              ),
              (λ k q. beyond p.id b d.id k (keys r.1) lo i out q),
              (λ k q. within p.id next k (keys r.1) (rw i lt) lim q),
            ))
      | inr e ↦
          (let r = claim_deliveries now token until (suc n) box rows in
            let (o', h', w', out, lim) =
              claim-Claimed now token until (suc n) box c next d.id rows o h in
            subst (Claimed c next b) (sym e) (
              (lo, o'),
              (
                claimed_over c (keys r.1) d.id d.attempts m
                    (fresh_below d.id d.id (keys r.1) (omega arith) out),
                lt,
                h',
              ),
              w',
              (λ k q. (let below = out k q in omega arith)),
              lim,
            ))
    ]
