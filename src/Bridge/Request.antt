-- ===== src/Bridge/Request.antt =====
-- internal/bridge/hermes.go: a run asks for authority. A standing decision answers it, or the job waits for
-- the operator.
use thornhill.Base.{
  Bool, true, false, not, ◌&&◌, Option, none, some, List, [], ◌∷◌, ◌++◌, String, is_empty, concat,
  if◌then◌else◌,
}
use thornhill.Store.Job.{
  failed, needs_approval, pending, Decision, allow_session, allow_always, deny_session, deny_always,
  Approval, Job, redacted, redacted_approval,
}
use thornhill.Store.Jobs.{not_found, Result, ok, err, Updated, find, update_job}
use thornhill.Bridge.{
  post, Hermes, World, Outcome, Refusal, store_error, collision, run_superseded,
  indeterminate_outcome, Kind, job_needs_approval, job_failed, job_approval_auto_denied,
  job_approval_auto_allowed, PostError, run_owns_state, publish, sends,
}
use thornhill.Bridge.Policy.{
  matches_session_allow, matches_session_denial, matches_permanent_allow, matches_permanent_denial,
}
use thornhill.Bridge.Cleanup.{stop_and_confirm_terminal_outcome, cleanup_err}
use thornhill.Bridge.Indeterminate.{decision_text, fail_indeterminate_approval}
use thornhill.Bridge.Decide.{post_approval, post_failure, refuse}

-- The event of the stream that asks.
pub record RunEvent : Type 0 where
  pub request_id : String
  pub command : String
  pub description : String
  pub pattern_key : String
  pub pattern_keys : List String
  pub allow_permanent : Bool

unfoldable pub event_keys : RunEvent → List String
event_keys ev = keys_of ev.pattern_keys ev.pattern_key
  where
    keys_of : List String → String → List String
    keys_of [] k = if is_empty k then [] else k ∷ []
    keys_of (x ∷ xs) k = x ∷ xs

unfoldable pub requested : World → RunEvent → Approval
requested w ev = record {
  id = w.fresh_id;
  provider_request_id = ev.request_id;
  decision_nonce = w.fresh_nonce;
  decision = none;
  state = pending;
  command = ev.command;
  description = ev.description;
  pattern_keys = event_keys ev;
  allow_permanent = ev.allow_permanent;
  requested_at = w.now;
  parked_at = none;
  park_reason = "";
}

abbrev or_automatic : Decision → String → Option Refusal → Option Refusal
or_automatic d cause (some e) = some e
or_automatic d cause none = some (
    indeterminate_outcome (
      concat (
        "automatic approval \""
        ∷ decision_text d
        ∷ "\" was indeterminate; no allow or deny was inferred: "
        ∷ cause
        ∷ [])))

-- `failAutomaticApproval`.
unfoldable pub fail_automatic_approval :
    World → String → String → Approval → Decision → String → Hermes → Outcome
fail_automatic_approval w id run a d cause h =
    let o = fail_indeterminate_approval w id run a d cause h in
    record o { error = or_automatic d cause o.error }

abbrev with_stop_error : Option String → String
with_stop_error none =
    "multiple concurrent Hermes approvals could not be correlated safely; all were denied and the run was stopped"
with_stop_error (some e) = concat (
    "multiple concurrent Hermes approvals could not be correlated safely; all were denied and the run was stopped"
    ∷ "; upstream stop was not confirmed: " ∷ e ∷ [])

abbrev is_none : Option String → Bool
is_none none = true
is_none (some e) = false

unfoldable pub collision_mut : String → Option String → Job → Job × Bool
collision_mut run stop_error j =
    if run_owns_state j run
    then (
      record j {
        status = failed;
        error = with_stop_error stop_error;
        approvals = [];
        hermes_run_id = if is_none stop_error then "" else j.hermes_run_id;
      },
      true,
    )
    else (j, false)

abbrev pub collided : String → Hermes → Result Updated → Outcome
collided id h (err e) = refuse none collision h
collided id h (ok u) = refuse none collision (
    if u.flag
    then publish job_failed id (some (redacted u.job)) none none (record h { db = u.db })
    else record h { db = u.db })

unfoldable pub collide_answer :
    World → String → String → Approval → Hermes → Option PostError → Outcome
collide_answer w id run a h (some e) =
    fail_automatic_approval w id run a deny_always (post_failure w.posted e) h
collide_answer w id run a h none =
    let (c, h') = stop_and_confirm_terminal_outcome w run h in
    collided id h' (update_job w.now id (collision_mut run (cleanup_err c)) h'.db)

-- A second request of a run that waits already: all are denied and the run is stopped.
unfoldable pub collide : World → String → String → Approval → Hermes → Outcome
collide w id run a h =
    let h1 = sends (post run "deny" true "" "") h in
    collide_answer w id run a (record h1 { db = w.meanwhile h1.db }) (post_approval w.posted true)

unfoldable pub automatic_answer :
    World → String → String → Approval → Decision → Kind → Hermes → Option PostError → Outcome
automatic_answer w id run a d kind h (some e) =
    fail_automatic_approval w id run a d (post_failure w.posted e) h
automatic_answer w id run a d kind h none = record {
  job = none;
  error = none;
  hermes = publish kind id none (some d) (some (redacted_approval a)) h;
}

-- One authority call that a standing decision makes.
unfoldable pub automatic :
    World → String → String → Approval → Decision → String → Kind → Hermes → Outcome
automatic w id run a d choice kind h =
    let h1 = sends (post run choice false a.provider_request_id a.id) h in
    automatic_answer w id run a d kind (record h1 { db = w.meanwhile h1.db })
      (post_approval w.posted false)

unfoldable pub admit_mut : String → Approval → Job → Job × Bool
admit_mut run a j =
    if run_owns_state j run
    then (
      record j { approvals = j.approvals ++ a ∷ []; status = needs_approval; progress = none },
      true,
    )
    else (j, false)

unfoldable pub admitted_with : String → Hermes → Result Updated → Outcome
admitted_with id h (err e) = refuse none (store_error e) h
admitted_with id h (ok u) =
    let h' = record h { db = u.db } in
    if u.flag
    then record {
      job = some u.job;
      error = none;
      hermes = publish job_needs_approval id (some (redacted u.job)) none none h';
    }
    else refuse none run_superseded h'

-- The job waits for the operator.
unfoldable pub admit : World → String → String → Approval → Hermes → Outcome
admit w id run a h =
    admitted_with id h (update_job w.now id (admit_mut run a) (w.before_claim h.db))

-- The standing decisions, denials first.
unfoldable pub decide_by_policy : World → String → String → RunEvent → Approval → Hermes → Outcome
decide_by_policy w id run ev a h =
    if not (is_empty (matches_session_denial w h id a.pattern_keys))
    then automatic w id run a deny_session "deny" job_approval_auto_denied h
    else if not (is_empty (matches_permanent_denial w h a.pattern_keys))
    then automatic w id run a deny_always "deny" job_approval_auto_denied h
    else if not (is_empty (matches_session_allow w h id a.pattern_keys))
    then automatic w id run a allow_session "once" job_approval_auto_allowed h
    else if not (is_empty (matches_permanent_allow w h a.pattern_keys)) && ev.allow_permanent
    then automatic w id run a allow_always "once" job_approval_auto_allowed h
    else admit w id run a h

unfoldable pub requests :
    World → String → String → RunEvent → Approval → List Approval → Hermes → Outcome
requests w id run ev a [] h = decide_by_policy w id run ev a h
requests w id run ev a (x ∷ xs) h = collide w id run a h

unfoldable pub request_row : World → String → String → RunEvent → Hermes → Option Job → Outcome
request_row w id run ev h none = refuse none (store_error not_found) h
request_row w id run ev h (some j) = requests w id run ev (requested w ev) j.approvals h

-- `handleApprovalRequest`.
unfoldable pub handle_approval_request : World → String → String → RunEvent → Hermes → Outcome
handle_approval_request w id run ev h = request_row w id run ev h (find id h.db.jobs)
