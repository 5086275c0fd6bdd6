-- ===== src/Bridge/Runs.antt =====
-- internal/bridge/hermes.go: the work on one delivery of a job: the claim of its row, its turn, and the end.
use thornhill.Base.{
  ℕ, Bool, true, false, not, ◌&&◌, ◌||◌, Option, none, some, List, [], String, is_empty, trim_space,
  contains, if◌then◌else◌,
}
use thornhill.Store.Job.{queued, running, parked_approval, failed, Approval, Job, status_eq}
use thornhill.Store.Jobs.{Db, not_found, Result, ok, err, Updated, find, update_job}
use thornhill.Bridge.{Hermes, World, Refusal, job_running, owned_run_id, publish}
use thornhill.Bridge.Ownership.{take_over, let_go, remove_key}
use thornhill.Bridge.Turn.{Input, TurnEnd, StartAnswer, run_turn}
use thornhill.Bridge.Settle.{Returned, nothing, store_failed, run_failed, Settled, finish}
use thornhill.Bridge.Prompt.{resume_prompt}

-- The session's history: how many messages were recovered, none, or the context ended meanwhile.
pub data History : Type 0 where
  recovered : ℕ → History
  unavailable history_cut : History

-- What one delivery meets: the worker's number; the claim, with what others write before it and before the
-- row is read again; the history; the turn; whether the context has ended after it; and the end.
pub record Passage : Type 0 where
  pub worker : ℕ
  pub claim : World
  pub after_claim : Db → Db
  pub history : History
  pub turn : World
  pub answer : StartAnswer
  pub stream : List (World × Input)
  pub over : Option String
  pub close : World
  pub quoted : String → String
  pub evidence_json : Approval → String
  pub refusal_text : Refusal → String

unfoldable pub claim_run_mut : String → Bool → Job → Job × Bool
claim_run_mut id resuming j =
    if status_eq j.status queued
    then (
      record j {
        status = running;
        hermes_session_id = id;
        hermes_run_id = "";
        question = "";
        approvals = [];
        error = if resuming then j.error else "";
      },
      true,
    )
    else (j, false)

-- The broker, and what `Run` returned if it has.
pub record Passed : Type 0 where
  pub hermes : Hermes
  pub returned : Option Returned

abbrev pub passed : Hermes → Returned → Passed
passed h r = record { hermes = h; returned = some r }

unfoldable pub finished : Passage → String → String → Settled → Passed
finished p id run s = passed (let_go id p.worker s.hermes) s.returned

-- After the turn; a turn that is not over holds the delivery.
unfoldable pub after_turn : Passage → String → Hermes → Option TurnEnd → Passed
after_turn p id h none = record { hermes = h; returned = none }
after_turn p id h (some e) =
    let run = owned_run_id id h in
    let h' = record h { db = p.close.meanwhile h.db } in
    finished p id run (finish p.close p.refusal_text id run p.over e h')

abbrev pub pending_or_task : Job → String
pending_or_task j = if is_empty (trim_space j.pending_input) then j.task else j.pending_input

abbrev pub messages : History → ℕ
messages (recovered n) = n
messages _ = 0

-- What Hermes is given: the pending input, the task, or the prompt of a resumption.
unfoldable pub initial_input : Passage → Job → String
initial_input p before =
    if not (is_empty before.hermes_session_id) && is_empty (trim_space before.pending_input)
    then resume_prompt p.quoted p.evidence_json before (messages p.history)
    else pending_or_task before

abbrev pub cut : Job → History → Bool
cut before history_cut = not (is_empty before.hermes_session_id)
cut before _ = false

unfoldable pub take_turn : Passage → String → Job → Job → Hermes → Passed
take_turn p id before current h =
    let told = publish job_running id (some current) none none h in
    let clean = record told {
      session_allows = remove_key id told.session_allows;
      session_denials = remove_key id told.session_denials;
    } in
    let t = run_turn p.turn id (some p.worker) (initial_input p before) p.answer p.stream clean in
    if cut before p.history
    then passed (let_go id p.worker told) nothing
    else after_turn p id t.turn.hermes t.ended

-- The row is read again: another transition may have won after the claim.
unfoldable pub reread : Passage → String → Job → Hermes → Option Job → Passed
reread p id before h none = passed (let_go id p.worker h) (store_failed not_found)
reread p id before h (some current) =
    let goes = take_turn p id before current h in
    if not (status_eq current.status running) || not (is_empty current.hermes_run_id)
    then passed (let_go id p.worker h) nothing
    else goes

unfoldable pub claimed_run : Passage → String → Job → Hermes → Result Updated → Passed
claimed_run p id before h (err e) = passed h (store_failed e)
claimed_run p id before h (ok u) =
    let claimed = record h { db = u.db } in
    let owned = take_over id p.worker (record claimed { db = p.after_claim u.db }) in
    let goes = reread p id before owned (find id owned.db.jobs) in
    if u.flag then goes else passed claimed nothing

-- A parked delivery is reclaimed without work, and a failed orphan is not run again.
unfoldable pub run_row : Passage → String → Hermes → Option Job → Passed
run_row p id h none = passed h (store_failed not_found)
run_row p id h (some before) =
    let h' = record h { db = p.claim.before_claim h.db } in
    let goes = claimed_run p id before h' (
      update_job p.claim.now id (claim_run_mut id (not (is_empty before.hermes_session_id)))
        h'.db) in
    if status_eq before.status parked_approval
    then passed h nothing
    else if status_eq before.status failed && contains before.error "orphaned by process restart"
    then passed h (run_failed before.error)
    else if not (status_eq before.status queued)
    then passed h nothing
    else goes

-- `Run`.
unfoldable pub run : Passage → String → Hermes → Passed
run p id h = run_row p id h (find id h.db.jobs)
