-- ===== src/Bridge/Turn.antt =====
-- internal/bridge/hermes.go: one turn of a job, from the start of its upstream run to the end of the event
-- stream. What the loop waits for is an `Input`, what others write in between too; the lines of the stream
-- are decoded elsewhere, and the timers fire when an input says so.
use thornhill.Base.{
  ℕ, Bool, true, false, ◌&&◌, Option, none, some, List, [], ◌∷◌, String, is_empty, concat,
  trim_space, if◌then◌else◌,
}
use thornhill.Store.Job.{
  Status, running, needs_approval, Approval, Progress, Job, status_eq, is_pending,
}
use thornhill.Store.Jobs.{not_found, approval_stale, Result, ok, err, Updated, find, update_job}
use thornhill.Bridge.{
  start, stop, Hermes, World, Outcome, Refusal, store_error, job_running, job_progress,
  run_owns_state, owned_run_id, publish, sends,
}
use thornhill.Bridge.Parking.{park_approval_locked}
use thornhill.Bridge.Request.{RunEvent, handle_approval_request}
use thornhill.Bridge.Ownership.{set_run_id}

-- What the loop meets next: an event of the stream, the end of the stream, a timer, the end of the
-- worker's context, or what other goroutines do.
pub data Input : Type 0 where
  message_delta : String → Input
  tool_started tool_completed : (tool preview : String) → Input
  approval_request : RunEvent → Input
  run_completed : (output : String) → Input
  run_failed : (error : String) → Input
  run_cancelled other_event : Input
  closed : (scan_error context_error : Option String) → Input
  parking_due : Input
  idle : (after : String) → Input
  context_ended : (error : String) → Input
  others : (Hermes → Hermes) → Input

-- How a turn ends: with the reply, with the request parked, because the provider ended the run, because
-- a request could not be handled, because its run did not start, because the request for its events could
-- not be built, or fail-closed.
pub data TurnEnd : Type 0 where
  replied : String → TurnEnd
  approval_parked provider_cancelled : TurnEnd
  provider_failed : String → TurnEnd
  request_refused : Refusal → TurnEnd
  not_started unsubscribed stopped : String → TurnEnd

pub record Turn : Type 0 where
  pub hermes : Hermes
  pub output : String
  pub terminal : Bool
  pub armed : Bool

pub record Progressed : Type 0 where
  pub turn : Turn
  pub ended : Option TurnEnd

abbrev pub goes_on : Turn → Progressed
goes_on t = record { turn = t; ended = none }

abbrev pub ends : TurnEnd → Turn → Progressed
ends e t = record { turn = t; ended = some e }

-- `stopRun`, whose answer is not looked at.
abbrev pub stop_run : String → Turn → Turn
stop_run run t = record t { hermes = sends (stop run) t.hermes }

abbrev pub stops : String → String → Turn → Progressed
stops run why t = ends (stopped why) (stop_run run t)

unfoldable pub progress_mut : String → Progress → Job → Job × Bool
progress_mut run p j =
    if run_owns_state j run then (record j { progress = some p }, true) else (j, false)

abbrev pub progressed_with : String → Hermes → Result Updated → Hermes
progressed_with id h (err e) = h
progressed_with id h (ok u) =
    let h' = record h { db = u.db } in
    if u.flag then publish job_progress id (some u.job) none none h' else h'

unfoldable pub update_progress : World → String → String → String → String → Hermes → Hermes
update_progress w id tool label state h = progressed_with id h (
    update_job w.now id
      (progress_mut (owned_run_id id h)
        (record { tool = tool; label = label; state = state; updated_at = w.now }))
      h.db)

-- Whether the job waits with one pending request, and that request.
abbrev pub sole_pending : Status → List Approval → Option Approval
sole_pending s (a ∷ []) = if status_eq s needs_approval && is_pending a.state then some a else none
sole_pending s _ = none

abbrev pub waits_for : Option Job → Option Approval
waits_for none = none
waits_for (some j) = sole_pending j.status j.approvals

unfoldable pub arms : Turn → Option Approval → Progressed
arms t none = goes_on t
arms t (some a) = goes_on (record t { armed = true })

unfoldable pub answered : Turn → Option Job → Option Refusal → Progressed
answered t row (some e) = ends (request_refused e) t
answered t none none = ends (request_refused (store_error not_found)) t
answered t (some j) none = arms t (waits_for (some j))

unfoldable pub after_request : String → Turn → Outcome → Progressed
after_request id t o = answered (record t { hermes = o.hermes }) (find id o.hermes.db.jobs) o.error

-- A stale request was decided meanwhile; after another error the wait goes on for a minute.
unfoldable pub parked_or : Turn → Option Refusal → Progressed
parked_or t none = ends approval_parked t
parked_or t (some (store_error approval_stale)) = goes_on (record t { armed = false })
parked_or t (some e) = goes_on t

unfoldable pub parks : World → String → String → Turn → Option Approval → Progressed
parks w id run t none = goes_on (record t { armed = false })
parks w id run t (some a) =
    let o =
      park_approval_locked w id run a.id a.decision_nonce
        "operator was silent past the approval resource threshold" t.hermes in
    parked_or (record t { hermes = o.hermes }) o.error

unfoldable pub park_due : World → String → String → Turn → Option Job → Progressed
park_due w id run t none = goes_on t
park_due w id run t (some j) = parks w id run t (waits_for (some j))

abbrev context_over : String → String
context_over e = concat ("Hermes run context ended; run stopped: " ∷ e ∷ [])

-- One round of the loop of `runTurnOwned`.
unfoldable pub turn_step : World → String → String → Input → Turn → Progressed
turn_step w id run (message_delta d) t = goes_on (record t { output = concat (t.output ∷ d ∷ []) })
turn_step w id run (tool_started tool preview) t =
    goes_on (record t { hermes = update_progress w id tool preview "running" t.hermes })
turn_step w id run (tool_completed tool preview) t = goes_on (record t {
  hermes = update_progress w id tool (concat (tool ∷ " completed" ∷ [])) "completed" t.hermes;
})
turn_step w id run (approval_request ev) t =
    after_request id t (handle_approval_request w id run ev t.hermes)
turn_step w id run (run_completed out) t =
    goes_on
      (record t { terminal = true; output = if is_empty (trim_space out) then t.output else out })
turn_step w id run (run_failed e) t =
    ends (provider_failed (concat ("Hermes run failed: " ∷ e ∷ []))) t
turn_step w id run run_cancelled t = ends provider_cancelled t
turn_step w id run other_event t = goes_on t
turn_step w id run (closed (some e) none) t =
    stops run (concat ("Hermes event stream lost; run stopped fail-closed: " ∷ e ∷ [])) t
turn_step w id run (closed (some e) (some c)) t = stops run (context_over c) t
turn_step w id run (closed none c) t =
    if t.terminal
    then ends (replied t.output) t
    else stops run "Hermes event stream closed before a terminal event; run stopped fail-closed" t
turn_step w id run parking_due t =
    let due = park_due w id run t (find id t.hermes.db.jobs) in if t.armed then due else goes_on t
turn_step w id run (idle after) t =
    stops run
      (concat ("Hermes event stream silent for " ∷ after ∷ "; run stopped fail-closed" ∷ [])) t
turn_step w id run (context_ended e) t = stops run (context_over e) t
turn_step w id run (others f) t = goes_on (record t { hermes = f t.hermes })

abbrev pub or_rest : Progressed → Progressed → Option TurnEnd → Progressed
or_rest p rest none = rest
or_rest p rest (some e) = p

-- The loop, on what it meets; `none` while the stream goes on.
unfoldable pub turn_loop : String → String → List (World × Input) → Turn → Progressed
turn_loop id run [] t = goes_on t
turn_loop id run ((w, input) ∷ inputs) t =
    let p = turn_step w id run input t in
    let rest = turn_loop id run inputs p.turn in or_rest p rest p.ended

-- The answer to the start of a run; whether the request for its events could be built, and the answer to it.
pub record StartAnswer : Type 0 where
  pub run_id : String
  pub start_error : Option String
  pub request_error : Option String
  pub subscribe_error : Option String

unfoldable pub start_mut : String → Job → Job × Bool
start_mut run j =
    if run_owns_state j ""
    then (record j { hermes_run_id = run; status = running; pending_input = "" }, true)
    else (j, false)

abbrev pub superseded : String
superseded = "Hermes run no longer owns the durable job state"

abbrev pub start_failed : String → String
start_failed e =
    concat ("Hermes run start outcome is indeterminate and will not be retried: " ∷ e ∷ [])

abbrev pub new_turn : Hermes → Turn
new_turn h = record { hermes = h; output = ""; terminal = false; armed = false }

-- A request that cannot be built ends the turn without a stop of the run.
unfoldable pub subscribed :
    String → Option String → Option String → List (World × Input) → String → Hermes → Progressed
subscribed run (some e) answer inputs id h = ends (unsubscribed e) (new_turn h)
subscribed run none (some e) inputs id h = stops run e (new_turn h)
subscribed run none none inputs id h = turn_loop id run inputs (new_turn h)

unfoldable pub started_with :
    String → String → StartAnswer → List (World × Input) → Hermes → Result Updated → Progressed
started_with id run a inputs h (err e) =
    stops run "persist Hermes run identity; run stopped" (new_turn h)
started_with id run a inputs h (ok u) =
    let h' = record h { db = u.db } in
    if u.flag
    then subscribed run a.request_error a.subscribe_error inputs id
        (publish job_running id (some u.job) none none h')
    else stops run superseded (new_turn h')

unfoldable pub owned_turn :
    World → String → StartAnswer → List (World × Input) → Hermes × Bool → Progressed
owned_turn w id a inputs (h, false) = stops a.run_id superseded (new_turn h)
owned_turn w id a inputs (h, true) =
    let h' = record h { db = w.meanwhile h.db } in
    started_with id a.run_id a inputs h' (update_job w.now id (start_mut a.run_id) h'.db)

unfoldable pub started_turn :
    World
    → String
    → Option ℕ
    → StartAnswer
    → List (World × Input)
    → Hermes
    → Option String
    → Progressed
started_turn w id worker a inputs h (some e) = ends (not_started (start_failed e)) (new_turn h)
started_turn w id worker a inputs h none =
    let turn = owned_turn w id a inputs (set_run_id id worker a.run_id h) in
    if is_empty a.run_id
    then ends (not_started "Hermes did not return a run_id; start outcome will not be retried")
        (new_turn h)
    else turn

-- `runTurnOwned`.
unfoldable pub run_turn :
    World → String → Option ℕ → String → StartAnswer → List (World × Input) → Hermes → Progressed
run_turn w id worker input a inputs h =
    started_turn w id worker a inputs (sends (start id input) h) a.start_error
