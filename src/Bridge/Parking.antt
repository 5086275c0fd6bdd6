-- ===== src/Bridge/Parking.antt =====
-- internal/bridge/hermes.go: a request is parked unresolved, and the run it stood in is released.
use thornhill.Base.{
  Bool, true, false, ◌&&◌, Option, none, some, [], ◌∷◌, ◌++◌, String, str_eq, is_empty,
  if◌then◌else◌,
}
use thornhill.Store.Job.{parked_approval, Job, redacted, status_eq}
use thornhill.Store.Jobs.{Db, Error, Result, ok, err, Updated, update_job, park_approval}
use thornhill.Bridge.{Hermes, World, Outcome, store_error, job_approval_parked, publish}
use thornhill.Bridge.Cleanup.{stop_and_confirm_terminal_outcome}

unfoldable pub release_mut : String → Job → Job × Bool
release_mut run j =
    if status_eq j.status parked_approval && str_eq j.hermes_run_id run
    then (record j { hermes_run_id = "" }, true)
    else (j, false)

-- How a release ends: the stop was not confirmed, the row could not be written, or it is the new row.
pub data Released : Type 0 where
  unconfirmed : Released
  unwritten : Error → Released
  released_row : Job → Released

abbrev pub written : Hermes → Result Updated → Released × Hermes
written h (err e) = (unwritten e, h)
written h (ok u) = (released_row u.job, record h { db = u.db })

-- `releaseParkedRunLocked` of a run.
unfoldable pub release_parked_run : World → String → String → Hermes → Released × Hermes
release_parked_run w id run h =
    let (c, h') = stop_and_confirm_terminal_outcome w run h in
    if c.terminal
    then written h' (update_job w.now id (release_mut run) h'.db)
    else (unconfirmed, h')

-- The row that is published, and the cleanup that is left for the background.
abbrev pub after_release : String → String → Job → Released × Hermes → Job × Hermes
after_release id run j (released_row j', h) = (j', h)
after_release id run j (r, h) = (j, record h { retries = h.retries ++ (id, run) ∷ [] })

unfoldable pub released_parked : World → String → String → Job → Hermes → Job × Hermes
released_parked w id run j h =
    if is_empty run then (j, h) else after_release id run j (release_parked_run w id run h)

unfoldable pub parked_with : World → String → String → Hermes → Result Updated × Option Db → Outcome
parked_with w id run h (err e, none) = record {
  job = none;
  error = some (store_error e);
  hermes = h;
}
parked_with w id run h (err e, some db) = record {
  job = none;
  error = some (store_error e);
  hermes = record h { db = db };
}
parked_with w id run h (ok u, o) =
    let (j, h') = released_parked w id run u.job (record h { db = u.db }) in
    record {
      job = some j;
      error = none;
      hermes = publish job_approval_parked id (some (redacted j)) none none h';
    }

-- `parkApprovalLocked`.
unfoldable pub park_approval_locked :
    World → String → String → String → String → String → Hermes → Outcome
park_approval_locked w id run approval_id nonce reason h =
    parked_with w id run h
      (park_approval w.now id approval_id nonce reason w.now (w.before_claim h.db))
