-- ===== src/Tests/Restart.antt =====
-- The reconciliation of internal/bridge/hermes.go on one orphaned job.
use thornhill.Base.{
  ◌≡◌, refl, false, trim_space, trim_left, trim_right, is_space, contains, has_prefix, is_empty,
  concat,
}
use thornhill.Store.Jobs.{
  find, update_job, update_found, stamped, guard_job_dispatch, put, attention_for_transition,
}
use thornhill.Bridge.Cleanup.{
  terminal_hermes_run_status, get_run_status, proven, stop_and_verify, cleanup_err,
  stop_and_confirm_terminal_outcome,
}
use thornhill.Bridge.Indeterminate.{append_failure_evidence}
use thornhill.Bridge.Orphans.{
  reconcile_orphans, reconcile_rows, reconcile_row, reconcile_working, reconcile_orphan, orphan_row,
  orphan_cleanup, orphaned, orphan_mut, orphan_evidence, orphan_approvals, active_jobs,
  unresolved_run_jobs,
}
use thornhill.Bridge.Restart.{open_row}
use thornhill.Bridge.Restart.Whole.{restart_leaves_none_open}
use thornhill.Tests.Bridge.{quiet, working_broker}

restart_leaves_none_open_example :
    open_row (find "J1" (reconcile_orphans (λ k. quiet) working_broker).hermes.db.jobs) ≡ false
unfolding reconcile_orphans reconcile_rows reconcile_row reconcile_working reconcile_orphan
    orphan_row orphan_cleanup orphaned orphan_mut orphan_evidence orphan_approvals active_jobs
    unresolved_run_jobs append_failure_evidence update_job find update_found stamped
    guard_job_dispatch put attention_for_transition terminal_hermes_run_status get_run_status proven
    stop_and_verify cleanup_err stop_and_confirm_terminal_outcome trim_space trim_left trim_right
    is_space contains has_prefix is_empty concat
restart_leaves_none_open_example =
    restart_leaves_none_open (λ k. quiet) working_broker "J1" (λ k. (λ db. refl, λ db. refl))
      (refl, tt) refl
