-- ===== src/Store/Outbox/Leases.antt =====
-- internal/store/store.go: what a claim of attention rows takes and returns.
use thornhill.Base.{
  ℕ, zero, suc, ◌+◌, ◌<◌, ◌≡◌, refl, true, false, ◌⊎◌, inl, inr, some, List, [], ◌∷◌, String,
  is_empty, arith, Bool-cases,
}
use thornhill.Store.Outbox.{
  AttentionRow, claim_limit, attention_claimable, claimed_by, claim_attention,
  claim_pending_attention, has_number,
}

abbrev pub ids : List AttentionRow → List ℕ
ids [] = []
ids (r ∷ rows) = r.id ∷ ids rows

-- The rows stand in the order of their keys, all of them beyond `b`.
abbrev pub Above : ℕ → List AttentionRow → Type 0
Above b [] = Unit {0}
Above b (r ∷ rows) = (b < r.id) × Above r.id rows

pub claim-cases :
    (now : ℕ) (token : String) (until n : ℕ) (r : AttentionRow) (rows : List AttentionRow)
    → ((attention_claimable now r ≡ true)
        × (claim_attention now token until (suc n) (r ∷ rows) ≡ (
          claimed_by token until r ∷ (claim_attention now token until n rows).0,
          claimed_by token until r ∷ (claim_attention now token until n rows).1,
        )))
      ⊎ ((attention_claimable now r ≡ false)
          × (claim_attention now token until (suc n) (r ∷ rows) ≡ (
            r ∷ (claim_attention now token until (suc n) rows).0,
            (claim_attention now token until (suc n) rows).1,
          )))
unfolding claim_attention
claim-cases now token until n r rows = elim (Bool-cases (attention_claimable now r)) [
  | inl t ↦ inl (t, rw t refl)
  | inr f ↦ inr (f, rw f refl)
]

-- A claim leaves the keys and their order.
pub claim-Above :
    (now : ℕ) (token : String) (until n b : ℕ) (rows : List AttentionRow)
    → Above b rows
    → Above b (claim_attention now token until n rows).0
unfolding claim_attention
claim-Above now token until zero b rows h = h
claim-Above now token until (suc n) b [] h = h
claim-Above now token until (suc n) b (r ∷ rows) (lo, h) =
    elim (claim-cases now token until n r rows) [
      | inl (t, e) ↦ rw e (lo, claim-Above now token until n r.id rows h)
      | inr (f, e) ↦ rw e (lo, claim-Above now token until (suc n) r.id rows h)
    ]

-- What is returned stands in the table.
pub returned-Above :
    (now : ℕ) (token : String) (until n b : ℕ) (rows : List AttentionRow) (k : ℕ)
    → Above b rows
    → has_number k (ids (claim_attention now token until n rows).1) ≡ true
    → b < k
unfolding has_number claim_attention
returned-Above now token until zero b rows k h m = cc
returned-Above now token until (suc n) b [] k h m = cc
returned-Above now token until (suc n) b (r ∷ rows) k (lo, h) m =
    elim (claim-cases now token until n r rows) [
      | inl (t, e) ↦ ground (arith, returned-Above now token until n r.id rows k h)
      | inr (f, e) ↦ ground (arith, returned-Above now token until (suc n) r.id rows k h)
    ]

pub pending_attention-claims :
    (now clock : ℕ) (token : String) (limit lease : ℕ) (rows : List AttentionRow)
    {out : List AttentionRow}
    → (claim_pending_attention now clock token limit lease rows).1 ≡ some out
    → (out ≡ (claim_attention now token (clock + lease) (claim_limit limit) rows).1)
      × ((claim_pending_attention now clock token limit lease rows).0
          ≡ (claim_attention now token (clock + lease) (claim_limit limit) rows).0)
unfolding claim_pending_attention
pending_attention-claims now clock token limit lease rows {out} h =
    elim (Bool-cases (is_empty token)) [ inl t ↦ ground arith | inr f ↦ ground arith ]
