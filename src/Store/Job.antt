-- ===== src/Store/Job.antt =====
-- internal/store/store.go: job records and the authority requests in them. The string constants of
-- the source are the constructors of data types; a decision that is none of them is `unknown`.
use thornhill.Base.{ℕ, Bool, true, false, Option, List, map, String}

pub data Status : Type 0 where
  queued running needs_input needs_approval parked_approval done failed cancelled : Status

pub data ApprovalState : Type 0 where
  pending sending parked indeterminate : ApprovalState

pub data Decision : Type 0 where
  allow_once allow_session allow_always deny_once deny_session deny_always : Decision
  safer_alternative : Decision
  unknown : String → Decision

pub record Approval : Type 0 where
  pub id : String
  pub provider_request_id : String
  pub decision_nonce : String
  pub decision : Option Decision
  pub state : ApprovalState
  pub command : String
  pub description : String
  pub pattern_keys : List String
  pub allow_permanent : Bool
  pub requested_at : ℕ
  pub parked_at : Option ℕ
  pub park_reason : String

pub record Progress : Type 0 where
  pub tool : String
  pub label : String
  pub state : String
  pub updated_at : ℕ

pub record Job : Type 0 where
  pub id : String
  pub display_name : String
  pub task : String
  pub status : Status
  pub question : String
  pub pending_input : String
  pub result_digest : String
  pub error : String
  pub hermes_session_id : String
  pub hermes_run_id : String
  pub approvals : List Approval
  pub progress : Option Progress
  pub created_at : ℕ
  pub updated_at : ℕ
  pub finished_at : Option ℕ
  pub state_version : ℕ

unfoldable pub redacted_approval : Approval → Approval
redacted_approval a = record a { decision_nonce = "" }

-- `Job.Redacted`; of an empty list nothing is copied.
unfoldable pub redacted : Job → Job
redacted j = record j { approvals = map redacted_approval j.approvals }

abbrev pub is_terminal : Status → Bool
is_terminal done = true
is_terminal failed = true
is_terminal cancelled = true
is_terminal _ = false

abbrev pub is_dispatched : Status → Bool
is_dispatched queued = true
is_dispatched running = true
is_dispatched _ = false

-- The statuses that `ActiveJobs` selects.
abbrev pub is_active : Status → Bool
is_active queued = true
is_active running = true
is_active needs_input = true
is_active needs_approval = true
is_active parked_approval = true
is_active _ = false

abbrev pub status_eq : Status → Status → Bool
status_eq queued queued = true
status_eq running running = true
status_eq needs_input needs_input = true
status_eq needs_approval needs_approval = true
status_eq parked_approval parked_approval = true
status_eq done done = true
status_eq failed failed = true
status_eq cancelled cancelled = true
status_eq _ _ = false

abbrev pub is_pending : ApprovalState → Bool
is_pending pending = true
is_pending _ = false

abbrev pub is_sending : ApprovalState → Bool
is_sending sending = true
is_sending _ = false
