-- ===== src/Bridge/Handles.antt =====
-- internal/bridge/hermes.go: the durable handle of an upstream run after a call whose outcome is unknown.
use thornhill.Base.{
  ℕ, ◌≡◌, refl, sym, ◌∙◌, ap, Bool, true, false, ◌⊎◌, inl, inr, some, String, is_empty, eq_iff,
  arith,
}
use thornhill.Store.Job.{failed, Decision, Approval, Job}
use thornhill.Store.Jobs.{Result, ok, err, Updated, find, stamped, update_job}
use thornhill.Store.Jobs.Update.{KeepsId, found-update, update_job-found, update_job_row}
use thornhill.Bridge.{Hermes, World, indeterminate_outcome, run_owns_state}
use thornhill.Bridge.Cleanup.{TerminalCleanup, stop_and_confirm_terminal_outcome}
use thornhill.Bridge.Indeterminate.{
  append_failure_evidence, indeterminate_reason, indeterminate_mut, recorded,
  record_indeterminate_approval, fail_indeterminate_approval,
}
use thornhill.Bridge.Authority.{Ended, stop_confirms}

evidence-keeps :
    (text : String) (j : Job)
    → ((append_failure_evidence text j).id ≡ j.id)
      × ((append_failure_evidence text j).status ≡ j.status)
      × ((append_failure_evidence text j).hermes_run_id ≡ j.hermes_run_id)
unfolding append_failure_evidence
evidence-keeps text j = ground arith

indeterminate-KeepsId :
    (now : ℕ) (run : String) (a : Approval) (d : Decision) (reason : String) (terminal : Bool)
    → KeepsId (indeterminate_mut now run a d reason terminal)
unfolding indeterminate_mut
indeterminate-KeepsId now run a d reason terminal j =
    ground (arith, evidence-keeps reason (record j { status = failed }))

indeterminate-effect :
    (now : ℕ) (run : String) (a : Approval) (d : Decision) (reason : String) (terminal : Bool)
    (j : Job)
    → (indeterminate_mut now run a d reason terminal j).1 ≡ true
    → ((indeterminate_mut now run a d reason terminal j).0.status ≡ failed)
      × (((indeterminate_mut now run a d reason terminal j).0.hermes_run_id ≡ run)
          ⊎ (terminal ≡ true))
unfolding indeterminate_mut run_owns_state
indeterminate-effect now run a d reason terminal j h =
    ground (arith, eq_iff j.hermes_run_id run, evidence-keeps reason (record j { status = failed }))

stamped-run :
    (now : ℕ) (j : Job)
    → ((stamped now j).status ≡ j.status) × ((stamped now j).hermes_run_id ≡ j.hermes_run_id)
unfolding stamped
stamped-run now j = (refl, refl)

recorded-cases :
    (id : String) (a : Approval) (d : Decision) (reason why : String) (h : Hermes)
    (r : Result Updated) {j : Job}
    → (recorded id a d reason h r).job ≡ some j
    → (recorded id a d reason h r).error ≡ some (indeterminate_outcome why)
    → (u : Updated) × (r ≡ ok u)
      × (u.job ≡ j)
      × (u.flag ≡ true)
      × ((recorded id a d reason h r).hermes.db ≡ u.db)
unfolding recorded
recorded-cases id a d reason why h (err e) {j} p q = cc
recorded-cases id a d reason why h (ok u) {j} p q =
    (u, refl, ground arith, ground arith, ground arith)

record-keeps :
    (w : World) (id run : String) (a : Approval) (d : Decision) (cause : String)
    (c : TerminalCleanup) (h : Hermes) {j : Job} {why : String}
    → (record_indeterminate_approval w id run a d cause c h).job ≡ some j
    → (record_indeterminate_approval w id run a d cause c h).error
      ≡ some (indeterminate_outcome why)
    → (find id (record_indeterminate_approval w id run a d cause c h).hermes.db.jobs ≡ some j)
      × (j.status ≡ failed)
      × ((j.hermes_run_id ≡ run) ⊎ (c.terminal ≡ true))
unfolding record_indeterminate_approval
record-keeps w id run a d cause c h {j} {why} p q =
    let reason = indeterminate_reason d cause c in
    let mut = indeterminate_mut w.now run a d reason c.terminal in
    let (u, r, same, flag, base) =
      recorded-cases id a d reason why h (update_job w.now id mut h.db) p q in
    let (x, at, e) = update_job-found w.now id mut h.db r in
    let f = found-update w.now mut h.db x e in
    let effect = indeterminate-effect w.now run a d reason c.terminal x (sym f.1 ∙ flag) in
    let kept = stamped-run w.now (mut x).0 in
    let row : j ≡ stamped w.now (mut x).0 = sym same ∙ f.0 in
    (
      rw base (
          update_job_row w.now id mut h.db (indeterminate-KeepsId w.now run a d reason c.terminal) r
          ∙ ap some same),
      ap (λ (k : Job). k.status) row ∙ kept.0 ∙ effect.0,
      elim effect.1 [
        | inl s ↦ inl (ap (λ (k : Job). k.hermes_run_id) row ∙ kept.1 ∙ s)
        | inr t ↦ inr t
      ],
    )

-- After an authority call whose outcome is unknown, the job that the operation reports as indeterminate is
-- the one in the table and has failed; and it still names its run, as an open obligation to clean up,
-- unless a read of the status proved that this run has ended.
pub handle_is_kept :
    (w : World) (id run : String) (a : Approval) (d : Decision) (cause : String) (h : Hermes)
    {j : Job} {why : String}
    → is_empty run ≡ false
    → (fail_indeterminate_approval w id run a d cause h).job ≡ some j
    → (fail_indeterminate_approval w id run a d cause h).error ≡ some (indeterminate_outcome why)
    → (find id (fail_indeterminate_approval w id run a d cause h).hermes.db.jobs ≡ some j)
      × (j.status ≡ failed)
      × ((j.hermes_run_id ≡ run) ⊎ Ended w.initial run ⊎ Ended w.final run)
unfolding fail_indeterminate_approval
handle_is_kept w id run a d cause h {j} {why} nonempty p q =
    let s = stop_and_confirm_terminal_outcome w run h in
    let (at, status, run_id) = record-keeps w id run a d cause s.0 s.1 p q in
    (
      at,
      status,
      elim run_id [
        | inl same ↦ inl same
        | inr t ↦ elim (stop_confirms w run h nonempty) [
          | inl (ended, _, _) ↦ inr (inl ended)
          | inr (not_ended, sent, iff) ↦ inr (inr (iff.0 t))
        ]
      ],
    )
