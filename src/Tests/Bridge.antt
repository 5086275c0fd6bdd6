-- ===== src/Tests/Bridge.antt =====
-- The broker of internal/bridge/hermes.go on one waiting job.
use thornhill.Base.{
  ◌≢◌, ◌≡◌, refl, ap, inl, true, false, ◌⊎◌, ◌↔◌, Option, none, some, List, [], ◌∷◌, ◌++◌, String,
  is_empty, concat, trim_space, trim_left, trim_right, is_space, contains, has_prefix,
}
use thornhill.Bridge.Waiting.{request_waits}
use thornhill.Bridge.Effect.{decide_approval-OnePost}
use thornhill.Bridge.Warrant.{OnePost}
use thornhill.Bridge.Policy.{
  matches_session_allow, matches_session_denial, matches_permanent_allow, matches_permanent_denial,
  matches_session, matches_permanent, has_pair, has_key, approval_pattern_hash, sort_keys,
  normal_keys, member, insert_key, persistent_policy_keys,
}
use thornhill.Bridge.Request.{event_keys}
use thornhill.Bridge.{owned_run_id, lookup}
use thornhill.Store.Jobs.{is_ok, claim_approval, awaits}
use thornhill.Bridge.Kept.{SameGrants}
use thornhill.Bridge.Grants.{decide_approval-Confirmed}
use thornhill.Store.Job.{Decision, allow_session, allow_always}
use thornhill.Store.Job.{running}
use thornhill.Tests.Store.{claimed, claim_runs}
use thornhill.Store.Job.{failed, allow_once, Job, redacted, redacted_approval}
use thornhill.Store.Jobs.{
  find, update_job, update_found, stamped, guard_job_dispatch, put, attention_for_transition,
}
use thornhill.Bridge.{
  post, stop, Hermes, World, Outcome, Refusal, run_owns_state, resolved, indeterminate_outcome,
}
use thornhill.Bridge.Cleanup.{
  terminal_hermes_run_status, get_run_status, proven, stop_and_verify, cleanup_err, evidence,
  stop_and_confirm_terminal_outcome,
}
use thornhill.Bridge.Indeterminate.{
  append_failure_evidence, indeterminate_reason, fence_id, has_id, fence_all, fence_approvals,
  indeterminate_mut, recorded, record_indeterminate_approval, fail_indeterminate_approval,
}
use thornhill.Bridge.Decide.{api_choice, decide_approval}
use thornhill.Bridge.Request.{RunEvent, requested, handle_approval_request}
use thornhill.Bridge.Authority.{Ended, stop_confirms, NoPost}
use thornhill.Bridge.Warrant.{Sent, decide_approval-Sent}
use thornhill.Bridge.Standing.{OneCall, Denied, Granted, Waits, request_grants}
use thornhill.Bridge.Handles.{handle_is_kept}
use thornhill.Tests.Store.{request, waiting, tables}

abbrev pub desk_broker : Hermes
desk_broker = record {
  base_url = "http://127.0.0.1:8642";
  db = tables;
  cancels = [];
  run_ids = ("J1", "R1") ∷ [];
  session_allows = [];
  session_denials = [];
  permanent_allows = [];
  permanent_denials = [];
  calls = [];
  published = [];
  retries = [];
}

abbrev first_key : List String → String
first_key [] = ""
first_key (k ∷ ks) = k

abbrev pub quiet : World
quiet = record {
  now = 9;
  fresh_id = "A2";
  fresh_nonce = "N2";
  posted = resolved 1;
  reconciled = record { run_id = "R1"; status = "running"; error = none };
  initial = record { run_id = "R1"; status = "running"; error = none };
  stop_error = none;
  final = record { run_id = "R1"; status = "stopping"; error = none };
  policy_error = none;
  digest = first_key;
  before_claim = λ db. db;
  meanwhile = λ db. db;
}

stop_confirms_example :
    let (c, h') = stop_and_confirm_terminal_outcome quiet "R1" desk_broker in
    (Ended quiet.initial "R1" × (c.terminal ≡ true) × (h' ≡ desk_broker))
    ⊎ (¬ Ended quiet.initial "R1"
        × (h'.calls ≡ desk_broker.calls ++ stop "R1" ∷ [])
        × ((c.terminal ≡ true) ↔ Ended quiet.final "R1"))
unfolding is_empty
stop_confirms_example = stop_confirms quiet "R1" desk_broker refl

decide_approval-Sent_example :
    let o = decide_approval quiet tables "J1" "A1" "N1" allow_once desk_broker in
    NoPost desk_broker o.hermes
    ⊎ ((choice : String) × (api_choice allow_once ≡ some choice)
        × Sent quiet "J1" "A1" "N1" allow_once choice desk_broker o)
decide_approval-Sent_example =
    decide_approval-Sent quiet tables "J1" "A1" "N1" allow_once desk_broker

abbrev asks : RunEvent
asks = record {
  request_id = "req-8";
  command = "make clean";
  description = "";
  pattern_key = "make";
  pattern_keys = [];
  allow_permanent = false;
}

request_grants_example :
    let o = handle_approval_request quiet "J1" "R1" asks desk_broker in
    let a = requested quiet asks in
    NoPost desk_broker o.hermes
    ⊎ (OneCall desk_broker (post "R1" "deny" true "" "") o
        × Waits (find "J1" desk_broker.db.jobs) (λ xs. xs ≢ []))
    ⊎ (OneCall desk_broker (post "R1" "deny" false a.provider_request_id a.id) o
        × Denied quiet desk_broker "J1" a.pattern_keys
        × Waits (find "J1" desk_broker.db.jobs) (λ xs. xs ≡ []))
    ⊎ (OneCall desk_broker (post "R1" "once" false a.provider_request_id a.id) o
        × Granted quiet desk_broker "J1" asks a.pattern_keys
        × Waits (find "J1" desk_broker.db.jobs) (λ xs. xs ≡ []))
request_grants_example = request_grants quiet "J1" "R1" asks desk_broker

abbrev lost : Outcome
unfolding fail_indeterminate_approval record_indeterminate_approval recorded indeterminate_reason
    evidence cleanup_err stop_and_confirm_terminal_outcome stop_and_verify get_run_status proven
    terminal_hermes_run_status update_job find update_found stamped guard_job_dispatch put
    attention_for_transition indeterminate_mut run_owns_state append_failure_evidence trim_space
    trim_left trim_right is_space contains has_prefix is_empty concat fence_approvals fence_id
    fence_all has_id redacted redacted_approval
lost = fail_indeterminate_approval quiet "J1" "R1" request allow_once "timeout" desk_broker

abbrev row_of : Outcome → Job
row_of o = elim o.job [ some j ↦ j | none ↦ waiting ]

abbrev reason_of : Option Refusal → String
reason_of (some (indeterminate_outcome r)) = r
reason_of _ = ""

handle_is_kept_example :
    let o = fail_indeterminate_approval quiet "J1" "R1" request allow_once "timeout" desk_broker in
    (find "J1" o.hermes.db.jobs ≡ some (row_of lost))
    × ((row_of lost).status ≡ failed)
    × (((row_of lost).hermes_run_id ≡ "R1") ⊎ Ended quiet.initial "R1" ⊎ Ended quiet.final "R1")
unfolding fail_indeterminate_approval record_indeterminate_approval recorded indeterminate_reason
    evidence cleanup_err stop_and_confirm_terminal_outcome stop_and_verify get_run_status proven
    terminal_hermes_run_status update_job find update_found stamped guard_job_dispatch put
    attention_for_transition indeterminate_mut run_owns_state append_failure_evidence trim_space
    trim_left trim_right is_space contains has_prefix is_empty concat fence_approvals fence_id
    fence_all has_id redacted redacted_approval
handle_is_kept_example =
    handle_is_kept quiet "J1" "R1" request allow_once "timeout" desk_broker {j = row_of lost}
      {why = reason_of lost.error} refl refl refl

decide_approval-OnePost_example :
    OnePost desk_broker "once" request claimed
      (decide_approval quiet tables "J1" "A1" "N1" allow_once desk_broker)
unfolding api_choice find is_empty owned_run_id lookup awaits
decide_approval-OnePost_example =
    decide_approval-OnePost quiet tables "J1" "A1" "N1" allow_once desk_broker {choice = "once"}
      {first = waiting} {j = waiting} {a = request} {u = claimed} refl refl refl refl
      (refl, refl, refl, refl, inl refl, inl refl, ap (λ r. r.0) claim_runs)

abbrev pub working : Job
working = record waiting { status = running; approvals = [] }

abbrev pub working_broker : Hermes
working_broker = record desk_broker { db = record tables { jobs = working ∷ [] } }

request_waits_example :
    let o = handle_approval_request quiet "J1" "R1" asks working_broker in
    (o.error ≡ none)
    × (o.hermes.calls ≡ working_broker.calls)
    × (is_ok (claim_approval 12 "J1" "A2" "N2" o.hermes.db).0 ≡ true)
unfolding find run_owns_state requested event_keys is_empty matches_session_allow
    matches_session_denial matches_permanent_allow matches_permanent_denial matches_session
    matches_permanent has_pair has_key approval_pattern_hash sort_keys normal_keys member insert_key
    trim_space trim_left trim_right is_space concat persistent_policy_keys
request_waits_example =
    request_waits quiet "J1" "R1" asks working_broker {j = working} {k = working} 12 refl refl
      (refl, refl, refl, inl refl) refl refl refl

decide_approval-Confirmed_example :
    let o = decide_approval quiet tables "J1" "A1" "N1" allow_session desk_broker in
    SameGrants desk_broker o.hermes
    ⊎ ((quiet.posted ≡ resolved 1)
        × (◌≡◌ {A = Decision} allow_session allow_session
            ⊎ ◌≡◌ {A = Decision} allow_session allow_always))
decide_approval-Confirmed_example =
    decide_approval-Confirmed quiet tables "J1" "A1" "N1" allow_session desk_broker
