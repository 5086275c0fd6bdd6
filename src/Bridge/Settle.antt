-- ===== src/Bridge/Settle.antt =====
-- internal/bridge/hermes.go: how the end of a turn is recorded and announced. The text of a refused request
-- is an argument, since a `Refusal` leaves it out.
use thornhill.Base.{
  Bool, true, false, ◌||◌, Option, none, some, [], ◌∷◌, String, concat, if◌then◌else◌,
}
use thornhill.Store.Job.{
  done, failed, needs_input, cancelled, parked_approval, Approval, Job, redacted, status_eq,
}
use thornhill.Store.Jobs.{Error, Result, ok, err, Updated, find, update_job}
use thornhill.Bridge.{
  Hermes, World, Refusal, Kind, job_failed, job_needs_input, job_done, run_owns_state, publish,
}
use thornhill.Bridge.Indeterminate.{append_failure_evidence}
use thornhill.Bridge.Parking.{park_approval_locked}
use thornhill.Bridge.Turn.{
  TurnEnd, replied, approval_parked, provider_cancelled, provider_failed, request_refused,
  not_started, unsubscribed, stopped, waits_for,
}
use thornhill.Bridge.Reply.{trailing_question, bounded_digest}

-- What `Run` returns.
pub data Returned : Type 0 where
  nothing : Returned
  store_failed : Error → Returned
  run_failed : String → Returned

pub record Settled : Type 0 where
  pub hermes : Hermes
  pub returned : Returned

abbrev pub settled : Hermes → Returned → Settled
settled h r = record { hermes = h; returned = r }

unfoldable pub fail_mut : String → String → Job → Job × Bool
fail_mut run why j =
    if run_owns_state j run
    then (
      record (append_failure_evidence why (record j { status = failed })) { approvals = [] },
      true,
    )
    else (j, false)

unfoldable pub ask_mut : String → String → Job → Job × Bool
ask_mut run question j =
    if run_owns_state j run
    then (
      record j { status = needs_input; question = question; hermes_run_id = ""; progress = none },
      true,
    )
    else (j, false)

unfoldable pub done_mut : String → String → Job → Job × Bool
done_mut run digest j =
    if run_owns_state j run
    then (record j { status = done; result_digest = digest; approvals = []; progress = none }, true)
    else (j, false)

-- An update of a failure that is not written leaves the state to whoever owns it.
unfoldable pub failure_told : String → Option String → Hermes → Result Updated → Settled
failure_told id why h (err e) = settled h nothing
failure_told id why h (ok u) =
    let h' = record h { db = u.db } in
    if u.flag
    then settled (publish job_failed id (some (redacted u.job)) none none h')
        (run_failed (elim why [ some t ↦ concat ("hermes run: " ∷ t ∷ []) | none ↦ u.job.error ]))
    else settled h' nothing

unfoldable pub success_told : Kind → String → Hermes → Result Updated → Settled
success_told kind id h (err e) = settled h (store_failed e)
success_told kind id h (ok u) =
    let h' = record h { db = u.db } in
    if u.flag
    then settled (publish kind id (some u.job) none none h') nothing
    else settled h' nothing

unfoldable pub kept_pending : (Refusal → String) → Hermes → Option Refusal → Settled
kept_pending text h none = settled h nothing
kept_pending text h (some r) =
    settled h
      (run_failed (concat ("approval remained pending for startup reconciliation: " ∷ text r ∷ [])))

abbrev pub over_text : String → String
over_text c = concat ("job execution context ended; active Hermes run was stopped: " ∷ c ∷ [])

unfoldable pub park_at_end :
    World
    → (Refusal → String)
    → String
    → String
    → String
    → Hermes
    → Option Job
    → Option Approval
    → Settled
park_at_end w text id run c h (some j) (some a) =
    let o =
      park_approval_locked w id j.hermes_run_id a.id a.decision_nonce
        "worker context ended while approval was pending" h in
    kept_pending text o.hermes o.error
park_at_end w text id run c h _ _ =
    failure_told id none h (update_job w.now id (fail_mut run (over_text c)) h.db)

abbrev pub moved_on : Option Job → Bool
moved_on none = false
moved_on (some j) = status_eq j.status cancelled || status_eq j.status parked_approval

-- The worker's context has ended.
unfoldable pub context_over :
    World → (Refusal → String) → String → String → String → Hermes → Settled
context_over w text id run c h =
    let row = find id h.db.jobs in
    if moved_on row then settled h nothing else park_at_end w text id run c h row (waits_for row)

unfoldable pub turn_failed :
    World → (Refusal → String) → String → String → Option String → String → Hermes → Settled
turn_failed w text id run (some c) why h = context_over w text id run c h
turn_failed w text id run none why h =
    failure_told id (some why) h (update_job w.now id (fail_mut run why) h.db)

-- With a context that has ended no statement is made.
unfoldable pub reply_told : World → String → String → Option String → String → Hermes → Settled
reply_told w id run (some c) out h = settled h (run_failed c)
reply_told w id run none out h =
    let (question, asks) = trailing_question out in
    if asks
    then success_told job_needs_input id h (update_job w.now id (ask_mut run question) h.db)
    else success_told job_done id h (update_job w.now id (done_mut run (bounded_digest out)) h.db)

-- `Run` after its turn.
unfoldable pub finish :
    World → (Refusal → String) → String → String → Option String → TurnEnd → Hermes → Settled
finish w text id run over (replied out) h = reply_told w id run over out h
finish w text id run over approval_parked h = settled h nothing
finish w text id run over provider_cancelled h =
    turn_failed w text id run over "Hermes run cancelled after a fail-closed stop" h
finish w text id run over (provider_failed e) h = turn_failed w text id run over e h
finish w text id run over (request_refused r) h = turn_failed w text id run over (text r) h
finish w text id run over (not_started e) h = turn_failed w text id run over e h
finish w text id run over (unsubscribed e) h = turn_failed w text id run over e h
finish w text id run over (stopped e) h = turn_failed w text id run over e h
