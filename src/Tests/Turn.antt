-- ===== src/Tests/Turn.antt =====
-- The runs of internal/bridge/hermes.go on one working job.
use thornhill.Base.{◌≡◌, refl, none, some, List, [], ◌∷◌}
use thornhill.Bridge.{World, lookup}
use thornhill.Bridge.Ownership.{find_owner}
use thornhill.Bridge.Turn.{
  Input, message_delta, run_completed, closed, TurnEnd, StartAnswer, run_turn,
}
use thornhill.Bridge.Closing.Start.{TurnGrounds, turn_ends}
use thornhill.Bridge.Fence.{
  Op, takes, sets, lets, cancels, perform_all, cell_all, Shows, ownership_refines,
}
use thornhill.Tests.Bridge.{desk_broker, quiet}
use thornhill.Base.{
  Bool, true, false, Option, ◌⊎◌, trim_space, trim_right, trim_left, is_space, contains, has_prefix,
  is_empty,
}
use thornhill.Bridge.{owned_run_id, lookup}
use thornhill.Bridge.Ownership.{let_go, let_go_owned, find_owner}
use thornhill.Store.Job.{Job, failed, status_eq}
use thornhill.Store.Jobs.{
  find, update_job, update_found, stamped, guard_job_dispatch, put, attention_for_transition,
}
use thornhill.Bridge.{Hermes, run_owns_state}
use thornhill.Bridge.Turn.{stopped, replied, superseded}
use thornhill.Bridge.Settle.{finish, turn_failed, failure_told, fail_mut}
use thornhill.Bridge.Indeterminate.{append_failure_evidence}
use thornhill.Bridge.Ending.{LeftAlone, Recorded, Tells}
use thornhill.Bridge.Ending.Settling.{ParkedLate, finish_settles}
use thornhill.Bridge.Runs.{Passage, unavailable, after_turn, finished}
use thornhill.Tests.Bridge.{working_broker}

abbrev begun : StartAnswer
begun = record { run_id = "R2"; start_error = none; request_error = none; subscribe_error = none }

abbrev stream : List (World × Input)
stream =
    (quiet, message_delta "Tidied ")
    ∷ (quiet, message_delta "up.")
    ∷ (quiet, run_completed "")
    ∷ (quiet, closed none none)
    ∷ []

turn_ends_example :
    let p = run_turn quiet "J1" none "clean the tree" begun stream desk_broker in
    (e : TurnEnd) × (p.ended ≡ some e) × TurnGrounds begun stream p.turn e
turn_ends_example = turn_ends quiet "J1" none "clean the tree" begun stream desk_broker refl

abbrev handover : List Op
handover =
    takes "J1" 1
    ∷ sets "J1" 1 "R2"
    ∷ takes "J1" 2
    ∷ sets "J1" 1 "R3"
    ∷ lets "J1" 1
    ∷ sets "J1" 2 "R4"
    ∷ cancels "J1" "R4"
    ∷ []

ownership_refines_example :
    Shows "J1"
      (perform_all (record desk_broker { run_ids = [] }) handover)
      (cell_all "J1" none handover)
unfolding find_owner lookup
ownership_refines_example =
    ownership_refines "J1" (record desk_broker { run_ids = [] }) none handover (refl, refl)

finish_settles_example :
    let h' = (finish quiet (λ r. "") "J1" "R1" none (replied "Done.") working_broker).hermes in
    LeftAlone "J1" working_broker h'
    ⊎ Recorded "J1" "R1" working_broker h' (Tells (replied "Done."))
    ⊎ ParkedLate quiet "J1" none working_broker h'
finish_settles_example =
    finish_settles quiet (λ r. "") "J1" "R1" none (replied "Done.") working_broker

abbrev succeeded : Hermes
succeeded = record working_broker {
  cancels = ("J1", record { worker = 2; run_id = "R1"; cancelled = false }) ∷ [];
}

abbrev pub first_delivery : Passage
first_delivery = record {
  worker = 1;
  claim = quiet;
  after_claim = λ db. db;
  history = unavailable;
  turn = quiet;
  answer = begun;
  stream = [];
  over = none;
  close = quiet;
  quoted = λ t. t;
  evidence_json = λ a. "";
  refusal_text = λ r. "";
}

-- A worker that was superseded reads the run of the worker after it, and fails that run's row.
unfoldable status_after : Option Job → Bool
status_after none = false
status_after (some j) = status_eq j.status failed

fails_successor :
    status_after (
      find "J1"
        (after_turn first_delivery "J1" succeeded (some (stopped superseded))).hermes.db.jobs)
    ≡ true
unfolding status_after after_turn finished finish turn_failed failure_told fail_mut update_job find
    update_found stamped guard_job_dispatch put attention_for_transition run_owns_state
    append_failure_evidence let_go let_go_owned find_owner owned_run_id lookup is_empty trim_space
    trim_right trim_left is_space contains has_prefix
fails_successor = refl
