-- ===== src/Dispatch/Cancelling.antt =====
-- internal/dispatch/dispatch.go: a cancel and the row it meets.
use thornhill.Base.{
  ℕ, ◌≡◌, ◌≢◌, refl, sym, ◌∙◌, ap, true, false, ◌⊎◌, inl, inr, none, some, [], ◌∷◌, ◌++◌, String,
  arith, Bool-cases,
}
use thornhill.Store.Job.{cancelled, Job, is_terminal}
use thornhill.Store.Jobs.{Result, ok, err, Updated, find, stamped, update_job}
use thornhill.Store.Jobs.Update.{KeepsId, found-update, update_job-found, update_job_row}
use thornhill.Dispatch.{
  Dispatcher, World, interfered, cancel_mut, cancelled_with, cancel_row, cancel,
}
use thornhill.Dispatch.Atomic.{Claimed}

cancel-KeepsId : KeepsId cancel_mut
unfolding cancel_mut
cancel-KeepsId j = ground arith

cancel-effect :
    (now : ℕ) (k : Job)
    → (cancel_mut k).1 ≡ true
    → (is_terminal k.status ≡ false) × ((stamped now (cancel_mut k).0).status ≡ cancelled)
unfolding cancel_mut stamped
cancel-effect now k h = ground arith

-- What a refused cancel leaves of a row.
abbrev pub SameOutcome : Job → Job → Type 0
SameOutcome k j =
    (j.status ≡ k.status)
    × (j.result_digest ≡ k.result_digest)
    × (j.question ≡ k.question)
    × (j.error ≡ k.error)

cancelled_with-cases :
    (id : String) (d : Dispatcher) (r : Result Updated)
    → (((cancelled_with id d r).error ≢ none)
        × ((cancelled_with id d r).state.signals ≡ d.signals)
        × ((cancelled_with id d r).state.published ≡ d.published)
        × (((cancelled_with id d r).state.db ≡ d.db)
            ⊎ ((u : Updated) × (r ≡ ok u)
                × (u.flag ≡ false)
                × ((cancelled_with id d r).state.db ≡ u.db))))
      ⊎ ((u : Updated) × (r ≡ ok u)
          × (u.flag ≡ true)
          × ((cancelled_with id d r).error ≡ none)
          × ((cancelled_with id d r).state.db ≡ u.db)
          × ((cancelled_with id d r).state.signals ≡ d.signals ++ id ∷ []))
unfolding cancelled_with
cancelled_with-cases id d (err e) = inl ((λ q. cc), refl, refl, inl refl)
cancelled_with-cases id d (ok u) = elim (Bool-cases u.flag) [
  | inl t ↦ inr (u, refl, t, ground arith, ground arith, ground arith)
  | inr f ↦ inl ((λ q. ground arith), ground arith, ground arith, inr (u, refl, f, ground arith))
]

cancel-refusal :
    (now : ℕ) (k : Job)
    → (cancel_mut k).1 ≡ false
    → (is_terminal k.status ≡ true) × SameOutcome k (stamped now (cancel_mut k).0)
unfolding cancel_mut stamped
cancel-refusal now k h = ground arith

-- A cancel of a job that is in the table when it is first read tells the runner only about a row that it
-- moved itself. Either the command fails, and then nothing is announced, no runner is told, and the
-- table is the one that others left, or the one row was terminal and keeps its status, its digest,
-- its question and its error: a row that is done or failed is never made cancelled. Or the row was not
-- terminal when it was written and is cancelled now, and its runner is told once.
pub cancel_fences :
    (w : World) (id : String) (d : Dispatcher) {seen : Job}
    → find id d.db.jobs ≡ some seen
    → (((cancel w id d).error ≢ none)
        × ((cancel w id d).state.signals ≡ d.signals)
        × ((cancel w id d).state.published ≡ d.published)
        × (((cancel w id d).state.db ≡ w.meanwhile d.db)
            ⊎ Claimed id
                (w.meanwhile d.db)
                (cancel w id d).state
                (λ k j. (is_terminal k.status ≡ true) × SameOutcome k j)))
      ⊎ (((cancel w id d).error ≡ none)
          × ((cancel w id d).state.signals ≡ d.signals ++ id ∷ [])
          × Claimed id
              (w.meanwhile d.db)
              (cancel w id d).state
              (λ k j. (is_terminal k.status ≡ false) × (j.status ≡ cancelled)))
unfolding cancel cancel_row
cancel_fences w id d {seen} at =
    let db = w.meanwhile d.db in
    let r = update_job w.now id cancel_mut db in
    rw at (elim (cancelled_with-cases id (interfered w d) r) [
      | inl (bad, quiet, mute, inl base) ↦ inl (bad, quiet, mute, inl base)
      | inl (bad, quiet, mute, inr (u, e, flag, base)) ↦
          (let (k, found, f) = update_job-found w.now id cancel_mut db e in
            let t = found-update w.now cancel_mut db k f in
            inl (
              bad,
              quiet,
              mute,
              inr (
                k,
                stamped w.now (cancel_mut k).0,
                found,
                rw base (update_job_row w.now id cancel_mut db cancel-KeepsId e ∙ ap some t.0),
                cancel-refusal w.now k (sym t.1 ∙ flag),
              ),
            ))
      | inr (u, e, flag, fine, base, told) ↦
          (let (k, found, f) = update_job-found w.now id cancel_mut db e in
            let t = found-update w.now cancel_mut db k f in
            inr (
              fine,
              told,
              (
                k,
                stamped w.now (cancel_mut k).0,
                found,
                rw base (update_job_row w.now id cancel_mut db cancel-KeepsId e ∙ ap some t.0),
                cancel-effect w.now k (sym t.1 ∙ flag),
              ),
            ))
    ])
