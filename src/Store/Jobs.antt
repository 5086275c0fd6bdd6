-- ===== src/Store/Jobs.antt =====
-- internal/store/store.go: the table of jobs and its updates. A transaction is one step: it holds the
-- row's lock from its read to its commit. A closure that sets a flag of its caller returns it. A lost
-- connection is not modelled; a missing row and the deployment's pause are.
pub mod Update
pub mod Authority
use thornhill.Base.{
  ℕ, ◌+◌, Bool, true, false, not, ◌&&◌, Option, none, some, List, [], ◌∷◌, ◌++◌, String, str_eq,
  if◌then◌else◌,
}
use thornhill.Store.Job.{
  Status, queued, running, needs_input, needs_approval, parked_approval, done, failed, cancelled,
  ApprovalState, pending, sending, parked, indeterminate, Approval, Progress, Job, is_terminal,
  is_dispatched, is_pending, status_eq,
}

-- A row of `attention_events`, by the transition that made it, without its texts. The version is new with every
-- update, so that the clause on conflicts is never taken.
pub record Attention : Type 0 where
  pub job_id : String
  pub job_version : ℕ
  pub kind : Status

pub record Db : Type 0 where
  pub jobs : List Job
  pub attention : List Attention
  pub dispatch_paused : Bool

pub data Error : Type 0 where
  not_found ambiguous approval_stale dispatch_is_paused : Error

pub data Result {ℓ} (A : Type ℓ) : Type ℓ where
  ok : A → Result A
  err : Error → Result A

abbrev pub is_ok {ℓ} : {A : Type ℓ} → Result A → Bool
is_ok (ok x) = true
is_ok (err e) = false

pub record Updated : Type 0 where
  pub job : Job
  pub flag : Bool
  pub db : Db

-- `SELECT … WHERE id=$1`; the key is unique.
unfoldable pub find : String → List Job → Option Job
find id [] = none
find id (j ∷ js) = let rest = find id js in if str_eq j.id id then some j else rest

-- `UPDATE jobs SET … WHERE id=$1`.
unfoldable pub put : Job → List Job → List Job
put x [] = []
put x (j ∷ js) = let rest = put x js in if str_eq j.id x.id then x ∷ rest else j ∷ rest

-- The transitions that `attentionForTransition` answers with a row.
abbrev pub noteworthy : Status → Bool
noteworthy done = true
noteworthy failed = true
noteworthy needs_input = true
noteworthy needs_approval = true
noteworthy parked_approval = true
noteworthy _ = false

unfoldable pub attention_for_transition : Status → Job → List Attention
attention_for_transition previous j =
    if not (status_eq previous j.status) && noteworthy j.status
    then record { job_id = j.id; job_version = j.state_version; kind = j.status } ∷ []
    else []

abbrev pub or_now : Option ℕ → ℕ → Option ℕ
or_now none now = some now
or_now (some t) now = some t

-- What `UpdateJobTx` writes beside the caller's change.
unfoldable pub stamped : ℕ → Job → Job
stamped now j = record j {
  state_version = j.state_version + 1;
  updated_at = now;
  finished_at = if is_terminal j.status then or_now j.finished_at now else j.finished_at;
}

-- The trigger of the schema: while dispatch is paused no status changes to queued or running.
unfoldable pub guard_job_dispatch : Bool → Status → Status → Bool
guard_job_dispatch paused old new = not (paused && (not (status_eq old new) && is_dispatched new))

unfoldable pub update_found : ℕ → (Job → Job × Bool) → Db → Job → Result Updated
update_found now mut db j =
    let (m, flag) = mut j in
    let j' = stamped now m in
    if guard_job_dispatch db.dispatch_paused j.status j'.status
    then ok (record {
      job = j';
      flag = flag;
      db = record db {
        jobs = put j' db.jobs;
        attention = db.attention ++ attention_for_transition j.status j';
      };
    })
    else err dispatch_is_paused

-- `UpdateJob`. The closures change neither the key nor the columns that the update leaves out (the task and
-- the time of creation).
unfoldable pub update_job : ℕ → String → (Job → Job × Bool) → Db → Result Updated
update_job now id mut db = elim (find id db.jobs) [
  | none ↦ err not_found
  | some j ↦ update_found now mut db j
]

-- The columns that an insertion leaves to their defaults are empty.
abbrev pub new_job : ℕ → String → String → String → Job
new_job now id name task = record {
  id = id;
  display_name = name;
  task = task;
  status = queued;
  question = "";
  pending_input = "";
  result_digest = "";
  error = "";
  hermes_session_id = "";
  hermes_run_id = "";
  approvals = [];
  progress = none;
  created_at = now;
  updated_at = now;
  finished_at = none;
  state_version = 0;
}

-- `CreateJobTx`, with the fresh key that it draws.
unfoldable pub create_job : ℕ → String → String → String → Db → Result Updated
create_job now id name task db =
    if db.dispatch_paused
    then err dispatch_is_paused
    else ok (record {
      job = new_job now id name task;
      flag = true;
      db = record db { jobs = db.jobs ++ new_job now id name task ∷ [] };
    })

-- Whether the job waits with exactly this pending request.
unfoldable pub awaits : String → String → Job → List Approval → Bool
awaits approval_id nonce j (a ∷ []) =
    status_eq j.status needs_approval
    && (str_eq a.id approval_id && (str_eq a.decision_nonce nonce && is_pending a.state))
awaits approval_id nonce j _ = false

unfoldable pub set_state : ApprovalState → List Approval → List Approval
set_state s [] = []
set_state s (a ∷ rest) = record a { state = s } ∷ rest

unfoldable pub claim_mut : String → String → Job → Job × Bool
claim_mut approval_id nonce j =
    if awaits approval_id nonce j j.approvals
    then (record j { approvals = set_state sending j.approvals }, true)
    else (j, false)

unfoldable pub park_approvals : ℕ → String → List Approval → List Approval
park_approvals at reason [] = []
park_approvals at reason (a ∷ rest) =
    record a { state = parked; parked_at = some at; park_reason = reason } ∷ rest

unfoldable pub park_mut : String → String → String → ℕ → Job → Job × Bool
park_mut approval_id nonce reason at j =
    if awaits approval_id nonce j j.approvals
    then (
      record j {
        status = parked_approval;
        approvals = park_approvals at reason j.approvals;
        progress = some (record {
          tool = "approval";
          label = "approval parked unresolved; resume requires a fresh authority request";
          state = "parked";
          updated_at = at;
        });
      },
      true,
    )
    else (j, false)

-- What a caller keeps of the store: an update that claims nothing is still written.
abbrev pub or_stale : Result Updated → Result Updated × Option Db
or_stale (err e) = (err e, none)
or_stale (ok u) = if u.flag then (ok u, some u.db) else (err approval_stale, some u.db)

unfoldable pub claim_approval : ℕ → String → String → String → Db → Result Updated × Option Db
claim_approval now job_id approval_id nonce db =
    or_stale (update_job now job_id (claim_mut approval_id nonce) db)

unfoldable pub park_approval :
    ℕ → String → String → String → String → ℕ → Db → Result Updated × Option Db
park_approval now job_id approval_id nonce reason at db =
    or_stale (update_job now job_id (park_mut approval_id nonce reason at) db)
