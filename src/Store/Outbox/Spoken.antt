-- ===== src/Store/Outbox/Spoken.antt =====
-- internal/store/store.go: the acknowledgements of attention rows over a run of the table's operations.
use thornhill.Base.{
  ℕ, zero, suc, ◌+◌, ◌≡◌, refl, inl, inr, none, List, [], ◌∷◌, ◌++◌, String, arith, if◌then◌else◌,
}
use thornhill.Store.Outbox.{
  AttentionRow, is_none, claim_limit, claim_attention, claim_pending_attention, release_row,
  release_rows, release_attention_claim, speakable, speak_rows, mark_attention_spoken,
}
use thornhill.Store.Outbox.Leases.{claim-cases}

-- What happens to the table: a row is recorded, claimed, released or acknowledged.
pub data Op : Type 0 where
  records : AttentionRow → Op
  claims : (now clock : ℕ) (token : String) (limit lease : ℕ) → Op
  releases : (token : String) → Op
  speaks : (now : ℕ) (token : String) (ids : List ℕ) → Op

-- The table, and how many rows the acknowledgements said that they changed. A row is recorded unspoken.
unfoldable pub step : List AttentionRow × ℕ → Op → List AttentionRow × ℕ
step (rows, total) (records r) = (rows ++ record r { spoken_at = none } ∷ [], total)
step (rows, total) (claims now clock token limit lease) =
    ((claim_pending_attention now clock token limit lease rows).0, total)
step (rows, total) (releases token) = (release_attention_claim token rows, total)
step (rows, total) (speaks now token ids) =
    let (rows', n) = mark_attention_spoken now token ids rows in (rows', total + n)

unfoldable pub run : List AttentionRow × ℕ → List Op → List AttentionRow × ℕ
run s [] = s
run s (op ∷ ops) = run (step s op) ops

abbrev pub spoken : List AttentionRow → ℕ
spoken [] = 0
spoken (r ∷ rows) = if is_none r.spoken_at then spoken rows else spoken rows + 1

spoken-append :
    (rows : List AttentionRow) (r : AttentionRow)
    → spoken (rows ++ record r { spoken_at = none } ∷ []) ≡ spoken rows
spoken-append [] r = refl
spoken-append (x ∷ rows) r = ground (arith, spoken-append rows r)

spoken-claim :
    (now : ℕ) (token : String) (until n : ℕ) (rows : List AttentionRow)
    → spoken (claim_attention now token until n rows).0 ≡ spoken rows
unfolding claim_attention
spoken-claim now token until zero rows = refl
spoken-claim now token until (suc n) [] = refl
spoken-claim now token until (suc n) (r ∷ rows) = elim (claim-cases now token until n r rows) [
  | inl (t, e) ↦ rw e (ground (arith, spoken-claim now token until n rows))
  | inr (f, e) ↦ rw e (ground (arith, spoken-claim now token until (suc n) rows))
]

spoken-release :
    (token : String) (rows : List AttentionRow) → spoken (release_rows token rows) ≡ spoken rows
unfolding release_rows release_row
spoken-release token [] = refl
spoken-release token (r ∷ rows) = ground (arith, spoken-release token rows)

spoken-speak :
    (now : ℕ) (token : String) (ids : List ℕ) (rows : List AttentionRow)
    → spoken (speak_rows now token ids rows).0 ≡ spoken rows + (speak_rows now token ids rows).1
unfolding speak_rows speakable
spoken-speak now token ids [] = refl
spoken-speak now token ids (r ∷ rows) = ground (arith, spoken-speak now token ids rows)

spoken-step :
    (rows : List AttentionRow) (total : ℕ) (op : Op)
    → let s = step (rows, total) op in spoken s.0 + total ≡ spoken rows + s.1
unfolding step claim_pending_attention release_attention_claim mark_attention_spoken
spoken-step rows total (records r) = ground (arith, spoken-append rows r)
spoken-step rows total (claims now clock token limit lease) =
    ground (arith, spoken-claim now token (clock + lease) (claim_limit limit) rows)
spoken-step rows total (releases token) = ground (arith, spoken-release token rows)
spoken-step rows total (speaks now token ids) = ground (arith, spoken-speak now token ids rows)

-- Over any run of the table's operations, by any number of claimants, the numbers that the acknowledgements
-- return add up to the number of rows that became acknowledged: no row is acknowledged twice, and none
-- is without being counted.
pub spoken-run :
    (rows : List AttentionRow) (total : ℕ) (ops : List Op)
    → let s = run (rows, total) ops in spoken s.0 + total ≡ spoken rows + s.1
unfolding run
spoken-run rows total [] = refl
spoken-run rows total (op ∷ ops) =
    let s = step (rows, total) op in
    omega (arith, spoken-step rows total op, spoken-run s.0 s.1 ops)
