-- ===== src/Dispatch.antt =====
-- internal/dispatch/dispatch.go: the operator's commands on a job. A command names a row of the table by its
-- key: the search by name comes before. `World` holds the answers of the runner, the queue and the
-- commit, and what others write between the first read and the update.
pub mod Atomic
pub mod Races
pub mod Cancelling
pub mod Naming
use thornhill.Base.{
  ℕ, Bool, true, false, not, ◌&&◌, ◌||◌, Option, none, some, List, [], ◌∷◌, ◌++◌, String, str_eq,
  is_empty, if◌then◌else◌,
}
use thornhill.Store.Job.{
  Status, queued, needs_input, parked_approval, failed, cancelled, Approval, Job, redacted,
  is_terminal, status_eq,
}
use thornhill.Store.Jobs.{Db, Error, not_found, Result, ok, err, Updated, find, update_job}

pub data Kind : Type 0 where
  job_queued job_cancelled : Kind

-- The dispatcher's surroundings: the tables, the queue of runs, what was put on the bus, of renamed
-- jobs the old and the new name, and the jobs whose runner was told to cancel.
pub record Dispatcher : Type 0 where
  pub db : Db
  pub queue : List String
  pub published : List (Kind × Job)
  pub renames : List (String × (String × String))
  pub signals : List String

pub record World : Type 0 where
  pub now : ℕ
  pub release_error : Option String
  pub enqueue_error : Option String
  pub commit_error : Option String
  pub meanwhile : Db → Db

pub data Refusal : Type 0 where
  store_error : Error → Refusal
  wrong_status lost_race no_name : Refusal
  release_failed enqueue_failed commit_failed : String → Refusal

pub record Reply : Type 0 where
  pub error : Option Refusal
  pub state : Dispatcher

abbrev pub refuse : Refusal → Dispatcher → Reply
refuse r d = record { error = some r; state = d }

abbrev pub interfered : World → Dispatcher → Dispatcher
interfered w d = record d { db = w.meanwhile d.db }

unfoldable pub cancel_mut : Job → Job × Bool
cancel_mut j =
    if not (is_terminal j.status) then (record j { status = cancelled }, true) else (j, false)

unfoldable pub cancelled_with : String → Dispatcher → Result Updated → Reply
cancelled_with id d (err e) = refuse (store_error e) d
cancelled_with id d (ok u) =
    if u.flag
    then record {
      error = none;
      state = record d {
        db = u.db;
        published = d.published ++ (job_cancelled, redacted u.job) ∷ [];
        signals = d.signals ++ id ∷ [];
      };
    }
    else refuse wrong_status (record d { db = u.db })

unfoldable pub cancel_row : World → String → Dispatcher → Option Job → Reply
cancel_row w id d none = refuse (store_error not_found) d
cancel_row w id d (some j) =
    cancelled_with id (interfered w d) (update_job w.now id cancel_mut (w.meanwhile d.db))

-- `Cancel`.
unfoldable pub cancel : World → String → Dispatcher → Reply
cancel w id d = cancel_row w id d (find id d.db.jobs)

-- The end of a transaction that queues a run: a claim that was lost, a queue that fails or a commit that
-- fails rolls back.
unfoldable pub committed : Bool → Option String → Option String → Dispatcher → Dispatcher → Reply
committed false enqueue commit after d = refuse lost_race d
committed true (some e) commit after d = refuse (enqueue_failed e) d
committed true none (some e) after d = refuse (commit_failed e) d
committed true none none after d = record { error = none; state = after }

unfoldable pub queued_with : World → String → Dispatcher → Result Updated → Reply
queued_with w id d (err e) = refuse (store_error e) d
queued_with w id d (ok u) =
    committed u.flag w.enqueue_error w.commit_error
      (record d {
        db = u.db;
        queue = d.queue ++ id ∷ [];
        published = d.published ++ (job_queued, redacted u.job) ∷ [];
      })
      d

unfoldable pub answer_mut : String → Job → Job × Bool
answer_mut text j =
    if status_eq j.status needs_input
    then (record j { status = queued; question = ""; pending_input = text }, true)
    else (j, false)

unfoldable pub answer_row : World → String → String → Dispatcher → Option Job → Reply
answer_row w id text d none = refuse (store_error not_found) d
answer_row w id text d (some j) =
    if not (status_eq j.status needs_input)
    then refuse wrong_status d
    else queued_with w id (interfered w d)
        (update_job w.now id (answer_mut text) (w.meanwhile d.db))

-- `Answer`.
unfoldable pub answer : World → String → String → Dispatcher → Reply
answer w id text d = answer_row w id text d (find id d.db.jobs)

abbrev pub resumable : Status → Bool
resumable s = status_eq s failed || status_eq s parked_approval

unfoldable pub prepare_for_resume : Job → Job × Bool
prepare_for_resume j = if not (resumable j.status) then (j, false) else (
  record j {
    status = queued;
    question = "";
    result_digest = "";
    hermes_run_id = "";
    approvals = if status_eq j.status failed then [] else j.approvals;
    finished_at = none;
  },
  true,
)

unfoldable pub resume_mut : Status → String → Job → Job × Bool
resume_mut expected_status expected_run j =
    if status_eq j.status expected_status && str_eq j.hermes_run_id expected_run
    then prepare_for_resume j
    else (j, false)

-- The runner is asked only about a run that the row names.
abbrev pub release_answer : World → Job → Option String
release_answer w j = if is_empty j.hermes_run_id then none else w.release_error

unfoldable pub resume_released : World → String → Dispatcher → Job → Option String → Reply
resume_released w id d j (some e) = refuse (release_failed e) d
resume_released w id d j none =
    queued_with w id (interfered w d)
      (update_job w.now id (resume_mut j.status j.hermes_run_id) (w.meanwhile d.db))

unfoldable pub resume_row : World → String → Dispatcher → Option Job → Reply
resume_row w id d none = refuse (store_error not_found) d
resume_row w id d (some j) =
    if not (resumable j.status)
    then refuse wrong_status d
    else resume_released w id d j (release_answer w j)

-- `Resume`.
unfoldable pub resume : World → String → Dispatcher → Reply
resume w id d = resume_row w id d (find id d.db.jobs)
