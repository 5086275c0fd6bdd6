-- ===== src/Bridge/Decide.antt =====
-- internal/bridge/hermes.go: the operator's decision on the one pending request of a job. The job's name
-- in the table is resolved by the caller, so that the lookups here are by key.
use thornhill.Base.{
  ℕ, Bool, true, false, not, ◌&&◌, ◌||◌, Option, none, some, List, [], ◌∷◌, String, str_eq,
  is_empty, concat, decimal, ◌==◌, if◌then◌else◌,
}
use thornhill.Store.Job.{
  running, needs_approval, Decision, allow_once, allow_session, allow_always, deny_once,
  deny_session, deny_always, safer_alternative, unknown, Approval, Progress, Job, redacted,
  redacted_approval, status_eq, is_pending,
}
use thornhill.Store.Jobs.{Db, not_found, Result, ok, err, Updated, find, update_job, claim_approval}
use thornhill.Bridge.{
  post, Hermes, World, Outcome, Refusal, store_error, invalid_decision, run_changed,
  not_one_pending, mismatched, parked_without_run, parked_unowned, no_reusable_scope, not_permanent,
  policy_not_saved, job_approval_resolved, PostAnswer, resolved, failed_with, PostError, api_error,
  other_error, run_owns_state, owned_run_id, publish, sends,
}
use thornhill.Bridge.Policy.{
  approval_pattern_hash, persistent_policy_keys, has_pair, save_permanent,
}
use thornhill.Bridge.Indeterminate.{
  post_error_text, fail_indeterminate_approval, reconcile_approval_lifecycle_conflict,
}
use thornhill.Bridge.Parking.{park_approval_locked}

-- What Hermes is told. The scope of a session or permanent grant is kept here, so it hears "once".
unfoldable pub api_choice : Decision → Option String
api_choice allow_once = some "once"
api_choice allow_session = some "once"
api_choice allow_always = some "once"
api_choice deny_once = some "deny"
api_choice deny_session = some "deny"
api_choice deny_always = some "deny"
api_choice safer_alternative = some "safer_alternative"
api_choice (unknown t) = none

abbrev pub is_reusable : Decision → Bool
is_reusable allow_session = true
is_reusable allow_always = true
is_reusable deny_session = true
is_reusable deny_always = true
is_reusable _ = false

abbrev pub is_allow_always : Decision → Bool
is_allow_always allow_always = true
is_allow_always _ = false

-- `postApproval`: the error of the call, or of an answer with the wrong number of resolved requests.
unfoldable pub post_approval : PostAnswer → Bool → Option PostError
post_approval (failed_with e) all = some e
post_approval (resolved n) all =
    if not (n == 1) && not all
    then some (
        other_error
          (concat ("Hermes resolved " ∷ decimal n ∷ " approvals, wanted exactly one" ∷ [])))
    else if n == 0
    then some (other_error "Hermes reported no approval resolved")
    else none

-- An error of the transport is wrapped before it is shown.
abbrev pub post_failure : PostAnswer → PostError → String
post_failure (failed_with e) e' = concat ("resolve Hermes approval: " ∷ post_error_text e' ∷ [])
post_failure (resolved n) e' = post_error_text e'

abbrev pub refuse : Option Job → Refusal → Hermes → Outcome
refuse j r h = record { job = j; error = some r; hermes = h }

-- The codes of a conflict that say the request is no longer pending.
unfoldable pub is_lifecycle_conflict : PostError → Bool
is_lifecycle_conflict (api_error status code message) =
    status == 409
    && (str_eq code "approval_not_pending"
        || (str_eq code "approval_not_active" || str_eq code "approval_request_mismatch"))
is_lifecycle_conflict (other_error t) = false

abbrev pub add_pair : String → String → List (String × String) → List (String × String)
add_pair a b entries = if has_pair a b entries then entries else (a, b) ∷ entries

-- A denial is kept before the call.
unfoldable pub keep_denial : World → String → Decision → Approval → Hermes → Hermes × Option String
keep_denial w id deny_session a h = (
  record h {
    session_denials = add_pair id (approval_pattern_hash w.digest a.pattern_keys) h.session_denials;
  },
  none,
)
keep_denial w id deny_always a h =
    let hash = approval_pattern_hash w.digest (persistent_policy_keys h a.pattern_keys) in
    let (rows, e) = save_permanent w.policy_error hash id h.permanent_denials in
    (record h { permanent_denials = rows }, e)
keep_denial w id d a h = (h, none)

-- A grant is kept after the call was confirmed.
unfoldable pub keep_grant :
    World → String → Decision → Approval → Option String → Hermes → Hermes × Option String
keep_grant w id allow_session a e h = (
  record h {
    session_allows = add_pair id (approval_pattern_hash w.digest a.pattern_keys) h.session_allows;
  },
  e,
)
keep_grant w id allow_always a e h =
    let hash = approval_pattern_hash w.digest (persistent_policy_keys h a.pattern_keys) in
    let (rows, e') = save_permanent w.policy_error hash id h.permanent_allows in
    (record h { permanent_allows = rows }, e')
keep_grant w id d a e h = (h, e)

abbrev alternative_progress : ℕ → Decision → Option Progress → Option Progress
alternative_progress now safer_alternative p = some (record {
  tool = "approval";
  label =
      "operator denied the proposed mechanism and requested a safer native or managed alternative";
  state = "safer_alternative";
  updated_at = now;
})
alternative_progress now d p = p

unfoldable pub resolve_mut : ℕ → String → Decision → Job → Job × Bool
resolve_mut now run d j =
    if run_owns_state j run
    then (
      record j {
        approvals = [];
        status = running;
        progress = alternative_progress now d j.progress;
      },
      true,
    )
    else (j, false)

abbrev policy_refusal : Option String → Option Refusal
policy_refusal none = none
policy_refusal (some e) = some (policy_not_saved e)

unfoldable pub resolved_with :
    String → Decision → Approval → Option String → Hermes → Result Updated → Outcome
resolved_with id d a e h (err x) = refuse none (store_error x) h
resolved_with id d a e h (ok u) =
    let h' = record h { db = u.db } in
    if u.flag
    then record {
      job = some u.job;
      error = policy_refusal e;
      hermes =
          publish job_approval_resolved id (some (redacted u.job)) (some d)
            (some (redacted_approval a)) h';
    }
    else record { job = some u.job; error = none; hermes = h' }

unfoldable pub confirmed :
    World → String → String → Decision → Approval → Option String → Hermes → Outcome
confirmed w id run d a e h =
    let (h', e') = keep_grant w id d a e h in
    resolved_with id d a e' h' (update_job w.now id (resolve_mut w.now run d) h'.db)

unfoldable pub post_failed :
    World → String → String → Decision → Approval → PostError → Hermes → Outcome
post_failed w id run d a e h =
    let conflict = reconcile_approval_lifecycle_conflict w id run a d (post_error_text e) h in
    let lost = fail_indeterminate_approval w id run a d (post_failure w.posted e) h in
    if is_lifecycle_conflict e then conflict else lost

unfoldable pub after_post :
    World
    → String
    → String
    → Decision
    → Approval
    → Option String
    → Hermes
    → Option PostError
    → Outcome
after_post w id run d a e h (some x) = post_failed w id run d a x h
after_post w id run d a e h none = confirmed w id run d a e h

-- From the claimed row to the end: the one authority call.
unfoldable pub decide_claimed :
    World → String → Decision → String → Approval → Job → Hermes → Outcome
decide_claimed w id d choice a j h =
    let (h1, e) = keep_denial w id d a h in
    let h2 = sends (post j.hermes_run_id choice false a.provider_request_id a.id) h1 in
    let h3 = record h2 { db = w.meanwhile h2.db } in
    after_post w id j.hermes_run_id d a e h3 (post_approval w.posted false)

unfoldable pub claimed_with :
    World → String → Decision → String → Approval → Hermes → Result Updated × Option Db → Outcome
claimed_with w id d choice a h (err e, none) = refuse none (store_error e) h
claimed_with w id d choice a h (err e, some db) = refuse none (store_error e) (record h { db = db })
claimed_with w id d choice a h (ok u, o) =
    decide_claimed w id d choice a u.job (record h { db = u.db })

abbrev pub parked_because : Refusal → Outcome → Outcome
parked_because r o = elim o.error [ some e ↦ o | none ↦ record o { error = some r } ]

-- The head is the pending request with this identity and nonce.
unfoldable pub decide_head :
    World → String → String → String → Decision → String → Job → Approval → Hermes → Outcome
decide_head w id approval_id nonce d choice j a h =
    let parks = λ (run reason : String) (r : Refusal).
      parked_because r (park_approval_locked w id run approval_id nonce reason h) in
    if is_empty j.hermes_run_id
    then parks "" "approval had no active upstream run" parked_without_run
    else if not (str_eq (owned_run_id id h) j.hermes_run_id)
    then parks j.hermes_run_id "approval run was no longer owned by this process" parked_unowned
    else if is_reusable d && is_empty (approval_pattern_hash w.digest a.pattern_keys)
    then refuse (some j) no_reusable_scope h
    else if is_allow_always d && not a.allow_permanent
    then refuse (some j) not_permanent h
    else claimed_with w id d choice a h
        (claim_approval w.now id approval_id nonce (w.before_claim h.db))

unfoldable pub decide_pending :
    World → String → String → String → Decision → String → Job → List Approval → Hermes → Outcome
decide_pending w id approval_id nonce d choice j (a ∷ []) h =
    if not (status_eq j.status needs_approval)
    then refuse (some j) not_one_pending h
    else if not (str_eq a.id approval_id && (str_eq a.decision_nonce nonce && is_pending a.state))
    then refuse (some j) mismatched h
    else decide_head w id approval_id nonce d choice j a h
decide_pending w id approval_id nonce d choice j xs h = refuse (some j) not_one_pending h

unfoldable pub decide_row :
    World → String → String → String → String → Decision → String → Hermes → Option Job → Outcome
decide_row w key id approval_id nonce d choice h none = refuse none (store_error not_found) h
decide_row w key id approval_id nonce d choice h (some j) =
    if not (str_eq j.hermes_run_id key)
    then refuse (some j) run_changed h
    else decide_pending w id approval_id nonce d choice j j.approvals h

-- With the lock of the run: the row is read again, and only this reading counts.
unfoldable pub decide_locked :
    World → String → String → String → Decision → String → Hermes → Option Job → Outcome
decide_locked w id approval_id nonce d choice h none = refuse none (store_error not_found) h
decide_locked w id approval_id nonce d choice h (some first) =
    decide_row w first.hermes_run_id id approval_id nonce d choice h (find id h.db.jobs)

unfoldable pub decide_choice :
    World → Db → String → String → String → Decision → Hermes → Option String → Outcome
decide_choice w before id approval_id nonce d h none = refuse none invalid_decision h
decide_choice w before id approval_id nonce d h (some choice) =
    decide_locked w id approval_id nonce d choice h (find id before.jobs)

-- `DecideApproval`; `before` is the table that the first reading sees, before the lock is taken.
unfoldable pub decide_approval : World → Db → String → String → String → Decision → Hermes → Outcome
decide_approval w before id approval_id nonce d h =
    decide_choice w before id approval_id nonce d h (api_choice d)
