-- ===== src/Bridge.antt =====
-- internal/bridge/hermes.go: the broker between the desk and the Hermes runs. What the broker keeps, what
-- it sends upstream, and what a call meets there. The children are its operations: the policies
-- (Policy), the proof that a run has ended (Cleanup), a failure whose outcome is unknown
-- (Indeterminate), the parking of a request (Parking), the operator's decision (Decide), the arrival
-- of a request (Request), the worker's hold (Ownership), a turn (Turn, Reply, Prompt, Settle), a delivery
-- (Runs) and the restart (Orphans). The other children prove.
pub mod Policy
pub mod Cleanup
pub mod Indeterminate
pub mod Parking
pub mod Decide
pub mod Request
pub mod Ownership
pub mod Turn
pub mod Fence
pub mod Reply
pub mod Settle
pub mod Prompt
pub mod Runs
pub mod Orphans
pub mod Ending
pub mod Restart
pub mod Closing
pub mod Authority
pub mod Posts
pub mod Warrant
pub mod Effect
pub mod Waiting
pub mod Kept
pub mod Grants
pub mod Standing
pub mod Handles
use thornhill.Base.{
  ℕ, Bool, true, false, ◌&&◌, ◌||◌, Option, none, some, List, [], ◌∷◌, ◌++◌, String, str_eq,
  if◌then◌else◌,
}
use thornhill.Store.Job.{Status, running, needs_approval, Approval, Decision, Job, status_eq}
use thornhill.Store.Jobs.{Db, Error}

-- What is sent to Hermes: `postApproval`, `stopRun` and the start of a run. Reads of a run's status change nothing.
pub data Call : Type 0 where
  post : (run choice : String) (all : Bool) (request key : String) → Call
  stop : (run : String) → Call
  start : (job_id input : String) → Call

pub data Kind : Type 0 where
  job_needs_approval job_approval_parked job_approval_resolved job_failed : Kind
  job_approval_auto_denied job_approval_auto_allowed : Kind
  job_running job_progress job_needs_input job_done : Kind

-- What is put on the bus: the job's row, or the decision and the request it was made for.
pub record Publication : Type 0 where
  pub kind : Kind
  pub job_id : String
  pub job : Option Job
  pub decision : Option Decision
  pub approval : Option Approval

-- `hermesRunOwner`: one worker's hold on a job. The pointer is the number that the worker was given.
pub record Owner : Type 0 where
  pub worker : ℕ
  pub run_id : String
  pub cancelled : Bool

-- The mutable part of `Hermes`, with the tables it writes and the record of what it did. A session
-- map from jobs to sets of hashes is the list of its pairs; `retries` are the bounded cleanups that
-- run in the background.
pub record Hermes : Type 0 where
  pub base_url : String
  pub db : Db
  pub cancels : List (String × Owner)
  pub run_ids : List (String × String)
  pub session_allows : List (String × String)
  pub session_denials : List (String × String)
  pub permanent_allows : List (String × String)
  pub permanent_denials : List (String × String)
  pub calls : List Call
  pub published : List Publication
  pub retries : List (String × String)

pub data PostError : Type 0 where
  api_error : (status_code : ℕ) (code message : String) → PostError
  other_error : String → PostError

-- The answer of the approval endpoint: how many requests it resolved, or an error.
pub data PostAnswer : Type 0 where
  resolved : ℕ → PostAnswer
  failed_with : PostError → PostAnswer

-- The answer of a status read: the run it names and the status, and an error of the transport.
pub record StatusAnswer : Type 0 where
  pub run_id : String
  pub status : String
  pub error : Option String

-- What one operation meets: the time, fresh identities, the answers of Hermes and of the policy tables,
-- the digest (SHA-256 of the JSON), and what others write to the tables before the claim and during
-- the post.
pub record World : Type 0 where
  pub now : ℕ
  pub fresh_id : String
  pub fresh_nonce : String
  pub posted : PostAnswer
  pub reconciled : StatusAnswer
  pub initial : StatusAnswer
  pub stop_error : Option String
  pub final : StatusAnswer
  pub policy_error : Option String
  pub digest : List String → String
  pub before_claim : Db → Db
  pub meanwhile : Db → Db

-- Why an operation ends with an error.
pub data Refusal : Type 0 where
  store_error : Error → Refusal
  invalid_decision run_changed not_one_pending mismatched : Refusal
  parked_without_run parked_unowned no_reusable_scope not_permanent : Refusal
  collision run_superseded : Refusal
  indeterminate_outcome : String → Refusal
  policy_not_saved : String → Refusal

pub record Outcome : Type 0 where
  pub job : Option Job
  pub error : Option Refusal
  pub hermes : Hermes

unfoldable pub run_owns_state : Job → String → Bool
run_owns_state j run =
    str_eq j.hermes_run_id run && (status_eq j.status running || status_eq j.status needs_approval)

-- A missing key of a Go map of texts reads as the empty text.
unfoldable pub lookup : String → List (String × String) → String
lookup k [] = ""
lookup k ((k', v) ∷ rest) = let found = lookup k rest in if str_eq k' k then v else found

unfoldable pub owned_run_id : String → Hermes → String
owned_run_id job_id h = lookup job_id h.run_ids

-- `Bus.Publish`.
abbrev pub publish :
    Kind → String → Option Job → Option Decision → Option Approval → Hermes → Hermes
publish kind id j decision approval h = record h {
  published =
      h.published
      ++ record { kind = kind; job_id = id; job = j; decision = decision; approval = approval }
        ∷ [];
}

-- The log of `postApproval`, whose body carries these four fields.
abbrev pub sends : Call → Hermes → Hermes
sends c h = record h { calls = h.calls ++ c ∷ [] }
