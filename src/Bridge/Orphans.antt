-- ===== src/Bridge/Orphans.antt =====
-- internal/bridge/hermes.go: the reconciliation of the jobs at a restart. Each row has a `World` of its own, by
-- its key.
use thornhill.Base.{
  Bool, true, false, not, ◌&&◌, ◌||◌, ◌==◌, Option, none, some, List, [], ◌∷◌, ◌++◌, String, str_eq,
  is_empty, concat, if◌then◌else◌,
}
use thornhill.Store.Job.{
  Status, running, needs_input, needs_approval, parked_approval, failed, indeterminate, Approval,
  Job, redacted, status_eq, is_active, is_sending,
}
use thornhill.Store.Jobs.{Error, Result, ok, err, Updated, update_job, set_state}
use thornhill.Bridge.{Hermes, World, Outcome, Refusal, job_failed, publish}
use thornhill.Bridge.Cleanup.{stop_and_confirm_terminal_outcome, cleanup_err}
use thornhill.Bridge.Indeterminate.{append_failure_evidence}
use thornhill.Bridge.Parking.{Released, released_row, release_parked_run, park_approval_locked}
use thornhill.Bridge.Ownership.{release_run}
use thornhill.Bridge.Turn.{sole_pending}

-- Why the reconciliation stops before its end.
pub data Broken : Type 0 where
  broken_store : Error → Broken
  broken_release : String → Broken
  broken_park : Refusal → Broken

pub record Reconciled : Type 0 where
  pub hermes : Hermes
  pub broken : Option Broken

abbrev pub reconciled : Hermes → Reconciled
reconciled h = record { hermes = h; broken = none }

abbrev pub breaks : Broken → Hermes → Reconciled
breaks b h = record { hermes = h; broken = some b }

abbrev pub holds_run : Job → Bool
holds_run j = not (is_empty j.hermes_run_id)

-- A run that has ended is taken off its row, if the row is still as it was read.
unfoldable pub clear_mut : Status → String → Job → Job × Bool
clear_mut s run j =
    if status_eq j.status s && str_eq j.hermes_run_id run
    then (record j { hermes_run_id = "" }, true)
    else (j, false)

unfoldable pub cleared : Hermes → Result Updated → Reconciled
cleared h (err e) = breaks (broken_store e) h
cleared h (ok u) = reconciled (record h { db = u.db })

unfoldable pub clear_run_of : World → Status → Job → Hermes → Reconciled
clear_run_of w s j h =
    let h' = record h { db = w.meanwhile h.db } in
    cleared h' (update_job w.now j.id (clear_mut s j.hermes_run_id) h'.db)

unfoldable pub reconcile_failed : World → Job → Hermes → Reconciled
reconcile_failed w j h =
    let (c, h') = stop_and_confirm_terminal_outcome w j.hermes_run_id h in
    elim (cleanup_err c) [ none ↦ clear_run_of w failed j h' | some e ↦ reconciled h' ]

unfoldable pub released_input : World → Job → Option String × Hermes → Reconciled
released_input w j (some e, h) =
    breaks (broken_release (concat ("release stale input run " ∷ j.hermes_run_id ∷ ": " ∷ e ∷ [])))
      h
released_input w j (none, h) = clear_run_of w needs_input j h

unfoldable pub reconcile_input : World → Job → Hermes → Reconciled
reconcile_input w j h =
    if holds_run j then released_input w j (release_run w j.id j.hermes_run_id h) else reconciled h

unfoldable pub released_again : Job → Released × Hermes → Reconciled
released_again j (released_row x, h) = reconciled h
released_again j (r, h) =
    reconciled (record h { retries = h.retries ++ (j.id, j.hermes_run_id) ∷ [] })

unfoldable pub reconcile_parked : World → Job → Hermes → Reconciled
reconcile_parked w j h =
    if holds_run j
    then released_again j (release_parked_run w j.id j.hermes_run_id h)
    else reconciled h

unfoldable pub parked_again : Outcome → Reconciled
parked_again o = elim o.error [
  | none ↦ reconciled o.hermes
  | some r ↦ breaks (broken_park r) o.hermes
]

-- A request that was being sent has an unknown outcome; others are dropped.
unfoldable pub orphan_approvals : List Approval → List Approval
orphan_approvals (a ∷ []) = if is_sending a.state then set_state indeterminate (a ∷ []) else []
orphan_approvals _ = []

unfoldable pub orphan_evidence : Option String → Job → Job
orphan_evidence none j =
    record (append_failure_evidence
      "orphaned by process restart; stale Hermes run cleanup was confirmed; job can be safely resumed"
      j) { hermes_run_id = "" }
orphan_evidence (some e) j =
    append_failure_evidence
      (concat (
        "orphaned by process restart; stale Hermes run cleanup was not confirmed; upstream run ID was retained for reconciliation: "
        ∷ e ∷ []))
      j

-- The snapshot must still be the row, by status, run and version.
unfoldable pub orphan_mut : Job → Option String → Job → Job × Bool
orphan_mut seen e x =
    if status_eq x.status seen.status
      && (str_eq x.hermes_run_id seen.hermes_run_id && x.state_version == seen.state_version)
    then (
      record (orphan_evidence e (record x { status = failed })) {
        approvals = orphan_approvals x.approvals;
      },
      true,
    )
    else (x, false)

unfoldable pub orphaned : Job → Hermes → Result Updated → Reconciled
orphaned j h (err e) = breaks (broken_store e) h
orphaned j h (ok u) =
    let h' = record h { db = u.db } in
    if u.flag
    then reconciled (publish job_failed j.id (some (redacted u.job)) none none h')
    else reconciled h'

unfoldable pub orphan_cleanup : World → Job → Hermes → Option String × Hermes
orphan_cleanup w j h =
    let (c, h') = stop_and_confirm_terminal_outcome w j.hermes_run_id h in
    if holds_run j then (cleanup_err c, h') else (none, h)

unfoldable pub orphan_row : World → Job → Option String × Hermes → Reconciled
orphan_row w j (e, h) =
    let h' = record h { db = w.meanwhile h.db } in
    orphaned j h' (update_job w.now j.id (orphan_mut j e) h'.db)

unfoldable pub reconcile_orphan : World → Job → Hermes → Reconciled
reconcile_orphan w j h = orphan_row w j (orphan_cleanup w j h)

unfoldable pub reconcile_working : World → Job → Hermes → Option Approval → Reconciled
reconcile_working w j h none = reconcile_orphan w j h
reconcile_working w j h (some a) = parked_again (
    park_approval_locked w j.id j.hermes_run_id a.id a.decision_nonce
      "process restarted while approval was pending" h)

-- One round of the loop of `ReconcileOrphans`.
unfoldable pub reconcile_row : World → Job → Hermes → Reconciled
reconcile_row w j h =
    if status_eq j.status failed && holds_run j
    then reconcile_failed w j h
    else if status_eq j.status needs_input
    then reconcile_input w j h
    else if status_eq j.status parked_approval
    then reconcile_parked w j h
    else if status_eq j.status running || status_eq j.status needs_approval
    then reconcile_working w j h (sole_pending j.status j.approvals)
    else reconciled h

unfoldable pub reconcile_rows : (String → World) → List Job → Hermes → Reconciled
reconcile_rows worlds [] h = reconciled h
reconcile_rows worlds (j ∷ js) h =
    let r = reconcile_row (worlds j.id) j h in
    let rest = reconcile_rows worlds js r.hermes in elim r.broken [ none ↦ rest | some b ↦ r ]

-- `ActiveJobs` and `UnresolvedRunJobs`, whose order by creation is left to the order of the rows.
unfoldable pub active_jobs : List Job → List Job
active_jobs [] = []
active_jobs (j ∷ js) = let rest = active_jobs js in if is_active j.status then j ∷ rest else rest

unfoldable pub unresolved_run_jobs : List Job → List Job
unresolved_run_jobs [] = []
unresolved_run_jobs (j ∷ js) =
    let rest = unresolved_run_jobs js in
    if status_eq j.status failed && holds_run j then j ∷ rest else rest

-- `ReconcileOrphans`.
unfoldable pub reconcile_orphans : (String → World) → Hermes → Reconciled
reconcile_orphans worlds h =
    reconcile_rows worlds (active_jobs h.db.jobs ++ unresolved_run_jobs h.db.jobs) h
