-- ===== src/Store/Outbox/Exclusive.antt =====
-- internal/store/store.go: a lease on attention rows is exclusive, whatever happens to the table meanwhile.
use thornhill.Base.{
  ℕ, zero, suc, ◌+◌, ◌≤◌, ◌≡◌, ◌≢◌, refl, sym, ◌∙◌, ap, true, false, ◌⊎◌, inl, inr, none, some,
  List, [], ◌∷◌, ◌++◌, String, eq_iff, arith, Bool-cases,
}
use thornhill.Store.Outbox.{
  AttentionRow, claim_limit, attention_claimable, claim_attention, claim_pending_attention,
  release_row, release_rows, release_attention_claim, speakable, speak_rows, mark_attention_spoken,
  has_number,
}
use thornhill.Store.Outbox.Leases.{
  ids, Above, claim-Above, claim-cases, returned-Above, pending_attention-claims,
}
use thornhill.Store.Outbox.Spoken.{Op, records, claims, releases, speaks, step, run}

-- A row that is not the one with the key, or is acknowledged, or stands under the lease.
abbrev IsHeld : ℕ → String → ℕ → AttentionRow → Type 0
IsHeld k token until r =
    (r.id ≢ k) ⊎ (r.spoken_at ≢ none) ⊎ ((r.claim_token ≡ token) × (r.claim_until ≡ some until))

abbrev Held : ℕ → String → ℕ → List AttentionRow → Type 0
Held k token until [] = Unit {0}
Held k token until (r ∷ rows) = IsHeld k token until r × Held k token until rows

-- An operation of others while the lease of `token` lasts: a new row has a new key, a claim is made before the
-- lease has lapsed, and a release is of another token.
abbrev pub Foreign : ℕ → String → ℕ → Op → Type 0
Foreign k token until (records r) = r.id ≢ k
Foreign k token until (claims now clock token' limit lease) = now ≤ until
Foreign k token until (releases token') = token' ≢ token
Foreign k token until (speaks now token' ids) = Unit {0}

abbrev pub AllForeign : ℕ → String → ℕ → List Op → Type 0
AllForeign k token until [] = Unit {0}
AllForeign k token until (op ∷ ops) = Foreign k token until op × AllForeign k token until ops

Above-Held :
    (k : ℕ) (token : String) (until : ℕ) (rows : List AttentionRow)
    → Above k rows
    → Held k token until rows
Above-Held k token until [] h = tt
Above-Held k token until (r ∷ rows) (lo, h) =
    (inl (λ e. omega arith), Above-Held k token until rows (weaker k r.id rows (omega arith) h))
  where
    weaker : (a b : ℕ) (xs : List AttentionRow) → a ≤ b → Above b xs → Above a xs
    weaker a b [] le h = tt
    weaker a b (x ∷ xs) le (lo, h) = (omega arith, h)

claimed-Held :
    (now : ℕ) (token : String) (until n b k : ℕ) (rows : List AttentionRow)
    → Above b rows
    → has_number k (ids (claim_attention now token until n rows).1) ≡ true
    → Held k token until (claim_attention now token until n rows).0
unfolding claim_attention has_number
claimed-Held now token until zero b k rows h m = cc
claimed-Held now token until (suc n) b k [] h m = tt
claimed-Held now token until (suc n) b k (r ∷ rows) (lo, h) m =
    elim (claim-cases now token until n r rows) [
      | inl (t, e) ↦ rw e (
        inr (inr (refl, refl)),
        elim (Bool-cases (has_number k (ids (claim_attention now token until n rows).1))) [
          | inl later ↦ claimed-Held now token until n r.id k rows h later
          | inr f ↦
              (let q : r.id ≡ k = ground arith in
                Above-Held k token until (claim_attention now token until n rows).0
                  (rw (← q) (claim-Above now token until n r.id rows h)))
        ],
      )
      | inr (f, e) ↦
          (let later : has_number k (ids (claim_attention now token until (suc n) rows).1) ≡ true =
              ap (λ (x : List AttentionRow × List AttentionRow). has_number k (ids x.1)) (sym e)
              ∙ m in
            let lt = returned-Above now token until (suc n) r.id rows k h later in
            rw e (inl (λ q. omega arith), claimed-Held now token until (suc n) r.id k rows h later))
    ]

claimable-other :
    (now k : ℕ) (token : String) (until : ℕ) (r : AttentionRow)
    → now ≤ until
    → attention_claimable now r ≡ true
    → IsHeld k token until r
    → r.id ≢ k
unfolding attention_claimable
claimable-other now k token until r le t (inl other) = other
claimable-other now k token until r le t (inr (inl said)) = ground (arith, said)
claimable-other now k token until r le t (inr (inr (a, b))) = ground arith

-- A claim before the lease has lapsed takes no held row.
claim-Held :
    (now : ℕ) (token' : String) (until' n k : ℕ) (token : String) (until : ℕ)
    (rows : List AttentionRow)
    → now ≤ until
    → Held k token until rows
    → Held k token until (claim_attention now token' until' n rows).0
      × (has_number k (ids (claim_attention now token' until' n rows).1) ≡ false)
unfolding claim_attention has_number
claim-Held now token' until' zero k token until rows le h = (h, refl)
claim-Held now token' until' (suc n) k token until [] le h = (tt, refl)
claim-Held now token' until' (suc n) k token until (r ∷ rows) le (held, h) =
    elim (claim-cases now token' until' n r rows) [
      | inl (t, e) ↦
          (let (rest, none_out) = claim-Held now token' until' n k token until rows le h in
            let other = claimable-other now k token until r le t held in
            rw e ((inl other, rest), ground (arith, none_out, other)))
      | inr (f, e) ↦
          (let (rest, none_out) = claim-Held now token' until' (suc n) k token until rows le h in
            rw e ((held, rest), none_out))
    ]

release-Held :
    (k : ℕ) (token : String) (until : ℕ) (token' : String) (rows : List AttentionRow)
    → token' ≢ token
    → Held k token until rows
    → Held k token until (release_rows token' rows)
unfolding release_rows release_row
release-Held k token until token' [] other h = tt
release-Held k token until token' (r ∷ rows) other (held, h) =
    (kept held, release-Held k token until token' rows other h)
  where
    kept : IsHeld k token until r → IsHeld k token until (release_row token' r)
    kept (inl x) = inl (ground (arith, x))
    kept (inr (inl x)) = inr (inl (ground (arith, x)))
    kept (inr (inr (a, b))) = inr (inr (ground (arith, eq_iff r.claim_token token')))

speak-Held :
    (k : ℕ) (token : String) (until now : ℕ) (token' : String) (out : List ℕ)
    (rows : List AttentionRow)
    → Held k token until rows
    → Held k token until (speak_rows now token' out rows).0
unfolding speak_rows
speak-Held k token until now token' out [] h = tt
speak-Held k token until now token' out (r ∷ rows) (held, h) =
    let rest = speak-Held k token until now token' out rows h in
    elim (Bool-cases (speakable token' out r)) [
      | inl t ↦ rw t (inr (inl (λ q. cc)), rest)
      | inr f ↦ rw f (held, rest)
    ]

append-Held :
    (k : ℕ) (token : String) (until : ℕ) (r : AttentionRow) (rows : List AttentionRow)
    → r.id ≢ k
    → Held k token until rows
    → Held k token until (rows ++ record r { spoken_at = none } ∷ [])
append-Held k token until r [] other h = (inl other, tt)
append-Held k token until r (x ∷ rows) other (held, h) =
    (held, append-Held k token until r rows other h)

step-Held :
    (k : ℕ) (token : String) (until : ℕ) (op : Op) (rows : List AttentionRow) (total : ℕ)
    → Foreign k token until op
    → Held k token until rows
    → Held k token until (step (rows, total) op).0
unfolding step claim_pending_attention release_attention_claim mark_attention_spoken
step-Held k token until (records r) rows total f h = append-Held k token until r rows f h
step-Held k token until (claims now clock token' limit lease) rows total f h =
    ground (
      arith,
      h,
      (claim-Held now token' (clock + lease) (claim_limit limit) k token until rows f h).0,
    )
step-Held k token until (releases token') rows total f h =
    ground (arith, h, release-Held k token until token' rows f h)
step-Held k token until (speaks now token' out) rows total f h =
    ground (arith, h, speak-Held k token until now token' out rows h)

run-Held :
    (k : ℕ) (token : String) (until : ℕ) (ops : List Op) (rows : List AttentionRow) (total : ℕ)
    → AllForeign k token until ops
    → Held k token until rows
    → Held k token until (run (rows, total) ops).0
unfolding run
run-Held k token until [] rows total f h = h
run-Held k token until (op ∷ ops) rows total (f, fs) h =
    let s = step (rows, total) op in
    run-Held k token until ops s.0 s.1 fs (step-Held k token until op rows total f h)

-- A lease is exclusive. Of the rows that one claim returned, no later claim returns any that the database
-- runs before the lease has lapsed, whoever makes it and with whatever limit, and whatever happened to
-- the table in between: rows recorded under new keys, further claims before the lease has lapsed,
-- acknowledgements, and releases of other leases. A release of this lease itself is excluded. The
-- rows have distinct keys, in order.
pub lease_excludes :
    (now clock later clock' : ℕ) (token token' : String) (limit limit' lease lease' b total : ℕ)
    (rows : List AttentionRow) (ops : List Op) {out again : List AttentionRow} (k : ℕ)
    → Above b rows
    → AllForeign k token (clock + lease) ops
    → later ≤ clock + lease
    → let first = claim_pending_attention now clock token limit lease rows in
      first.1 ≡ some out
      → (claim_pending_attention later clock' token' limit' lease' (run (first.0, total) ops).0).1
        ≡ some again
      → has_number k (ids out) ≡ true
      → has_number k (ids again) ≡ false
lease_excludes now clock later clock' token token' limit limit' lease lease' b total rows ops {out}
      {again} k above foreign le p q m =
    let first = claim_pending_attention now clock token limit lease rows in
    let (e, f) = pending_attention-claims now clock token limit lease rows p in
    let held : Held k token (clock + lease) first.0 = rw f (
      claimed-Held now token (clock + lease) (claim_limit limit) b k rows above
        (ap (λ (xs : List AttentionRow). has_number k (ids xs)) (sym e) ∙ m)) in
    let after = (run (first.0, total) ops).0 in
    let (e', f') = pending_attention-claims later clock' token' limit' lease' after q in
    let (rest, none_again) =
      claim-Held later token' (clock' + lease') (claim_limit limit') k token (clock + lease) after
        le (run-Held k token (clock + lease) ops first.0 total foreign held) in
    rw e' none_again
