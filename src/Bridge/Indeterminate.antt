-- ===== src/Bridge/Indeterminate.antt =====
-- internal/bridge/hermes.go: an authority call whose outcome is unknown. No allow and no deny is inferred.
use thornhill.Base.{
  ℕ, Bool, true, false, not, ◌&&◌, ◌||◌, Option, none, some, List, [], ◌∷◌, ◌++◌, String, str_eq,
  is_empty, concat, decimal, trim_space, contains, if◌then◌else◌,
}
use thornhill.Store.Job.{
  failed, indeterminate, Decision, deny_always, Approval, Job, allow_once, allow_session,
  allow_always, deny_once, deny_session, safer_alternative, unknown, redacted, redacted_approval,
}
use thornhill.Store.Jobs.{Result, ok, err, Updated, update_job}
use thornhill.Bridge.{
  Hermes, World, Outcome, store_error, indeterminate_outcome, job_failed, run_owns_state, publish,
  PostError, api_error, other_error,
}
use thornhill.Bridge.Cleanup.{
  TerminalCleanup, nothing_done, stop_and_confirm_terminal_outcome, get_run_status, proven,
  evidence,
}

-- The text that the source keeps for a decision.
abbrev pub decision_text : Decision → String
decision_text allow_once = "allow_once"
decision_text allow_session = "allow_session"
decision_text allow_always = "allow_always"
decision_text deny_once = "deny_once"
decision_text deny_session = "deny_session"
decision_text deny_always = "deny_always"
decision_text safer_alternative = "use_safer_alternative"
decision_text (unknown t) = t

-- `hermesAPIError.Error`, and the text of an error of the transport.
unfoldable pub post_error_text : PostError → String
post_error_text (api_error status code message) =
    if is_empty code
    then concat ("Hermes http " ∷ decimal status ∷ ": " ∷ message ∷ [])
    else concat ("Hermes http " ∷ decimal status ∷ " (" ∷ code ∷ "): " ∷ message ∷ [])
post_error_text (other_error t) = t

unfoldable pub append_failure_evidence : String → Job → Job
append_failure_evidence text j =
    let text' = trim_space text in
    if is_empty text' || contains j.error text'
    then j
    else if is_empty (trim_space j.error)
    then record j { error = text' }
    else record j { error = concat (j.error ∷ "\nPrevious/resume failure: " ∷ text' ∷ []) }

abbrev unless_empty : String → String → String
unless_empty prefix t = if is_empty t then "" else concat (prefix ∷ t ∷ [])

abbrev error_part : String → Option String → String
error_part prefix none = ""
error_part prefix (some e) = concat (prefix ∷ e ∷ [])

unfoldable pub indeterminate_reason : Decision → String → TerminalCleanup → String
indeterminate_reason decision cause c = concat (
    "approval outcome indeterminate: authority selected \""
    ∷ decision_text decision
    ∷ "\", but Hermes did not confirm that the decision reached the pending request; no allow or deny was inferred; resume requires a fresh authority request"
    ∷ ": "
    ∷ cause
    ∷ unless_empty "; reconciled Hermes run status=" c.initial
    ∷ error_part "; run status reconciliation failed: " c.initial_error
    ∷ unless_empty "; post-stop Hermes run status=" c.final
    ∷ evidence c
    ∷ [])

abbrev fenced : Decision → Approval → Approval
fenced decision a = record a { state = indeterminate; decision = some decision }

unfoldable pub fence_id : String → Decision → List Approval → List Approval
fence_id id decision [] = []
fence_id id decision (a ∷ rest) =
    let others = fence_id id decision rest in
    (if str_eq a.id id then fenced decision a else a) ∷ others

unfoldable pub has_id : String → List Approval → Bool
has_id id [] = false
has_id id (a ∷ rest) = let found = has_id id rest in str_eq a.id id || found

unfoldable pub fence_all : Decision → List Approval → List Approval
fence_all decision [] = []
fence_all decision (a ∷ rest) = fenced decision a ∷ fence_all decision rest

abbrev is_deny_always : Decision → Bool
is_deny_always deny_always = true
is_deny_always _ = false

abbrev is_none_left : List Approval → Bool
is_none_left [] = true
is_none_left (a ∷ rest) = false

-- Which entries are fenced: the named one, all of them after a lost deny of all, or a new one.
unfoldable pub fence_approvals : Approval → Decision → List Approval → List Approval
fence_approvals a decision xs =
    if has_id a.id xs
    then fence_id a.id decision xs
    else if is_deny_always decision && not (is_none_left xs)
    then fence_all decision xs
    else if is_empty a.id
    then xs
    else xs ++ fenced decision a ∷ []

abbrev clear_run : Bool → Job → Job
clear_run terminal j = if terminal then record j { hermes_run_id = "" } else j

-- The closure of `recordIndeterminateApproval`.
unfoldable pub indeterminate_mut :
    ℕ → String → Approval → Decision → String → Bool → Job → Job × Bool
indeterminate_mut now run a decision reason terminal j =
    if run_owns_state j run
    then (let noted = append_failure_evidence reason (record j { status = failed }) in
        (
          clear_run terminal (record noted {
            progress = some (record {
              tool = "approval";
              label = "approval outcome indeterminate; resume requires a fresh authority request";
              state = "indeterminate";
              updated_at = now;
            });
            approvals = fence_approvals a decision j.approvals;
          }),
          true,
        ))
    else (j, false)

unfoldable pub recorded : String → Approval → Decision → String → Hermes → Result Updated → Outcome
recorded id a decision reason h (err e) = record {
  job = none;
  error = some (store_error e);
  hermes = h;
}
recorded id a decision reason h (ok u) =
    let h' = record h { db = u.db } in
    if u.flag
    then record {
      job = some u.job;
      error = some (indeterminate_outcome reason);
      hermes =
          publish job_failed id (some (redacted u.job)) (some decision)
            (some (record (redacted_approval a) { decision = some decision })) h';
    }
    else record { job = some u.job; error = none; hermes = h' }

unfoldable pub record_indeterminate_approval :
    World → String → String → Approval → Decision → String → TerminalCleanup → Hermes → Outcome
record_indeterminate_approval w id run a decision cause c h =
    let reason = indeterminate_reason decision cause c in
    recorded id a decision reason h
      (update_job w.now id (indeterminate_mut w.now run a decision reason c.terminal) h.db)

unfoldable pub fail_indeterminate_approval :
    World → String → String → Approval → Decision → String → Hermes → Outcome
fail_indeterminate_approval w id run a decision cause h =
    let (c, h') = stop_and_confirm_terminal_outcome w run h in
    record_indeterminate_approval w id run a decision cause c h'

-- After a refusal that says the request is no longer pending: the status is read before a stop.
unfoldable pub reconcile_approval_lifecycle_conflict :
    World → String → String → Approval → Decision → String → Hermes → Outcome
reconcile_approval_lifecycle_conflict w id run a decision cause h =
    let seen = get_run_status w.reconciled run in
    let stopped = fail_indeterminate_approval w id run a decision cause h in
    if proven seen
    then record_indeterminate_approval w id run a decision cause
        (record nothing_done { initial = seen.0; terminal = true }) h
    else stopped
