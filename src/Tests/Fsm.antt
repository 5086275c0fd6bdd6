-- ===== src/Tests/Fsm.antt =====
-- The lifecycle of internal/desk/fsm.go at concrete times, as internal/desk/fsm_test.go runs it.
use thornhill.Base.{◌*◌, ◌≡◌, refl, ◌⊎◌, inl, true, false, List, [], ◌∷◌, arith}
use thornhill.Desk.Fsm.{
  live, quiet, parking, parked, explicit, FsmConfig, Fsm, Input, starts_call, starts_audio,
  stops_speech, starts_speech, ticks, speech, requests_park, second, default_fsm_config, new_fsm,
  call_started, request_park, response_started, question_voiced, try_start_response,
  can_start_response, is_busy, tick, step, run,
}
use thornhill.Desk.Fsm.Invariant.{Inv, run-Inv, Edge, step-Edge}
use thornhill.Desk.Fsm.Ladder.{ParkDue, FallsQuiet, tick-parks_iff, tick-quiet_iff}
use thornhill.Desk.Fsm.Admission.{
  try_start_response-can, try_start_response_iff, admitted_once, draining_admits_none,
}
use thornhill.Desk.Fsm.Drain.{park_ends}
use mathlib.Core.Logic.{◌↔◌}

abbrev pub config : FsmConfig
unfolding default_fsm_config
config = default_fsm_config (30 * second) (600 * second) (3420 * second)

abbrev calling : Fsm
unfolding new_fsm call_started default_fsm_config
calling = call_started (100 * second) (new_fsm config)

abbrev speaking : Fsm
unfolding new_fsm call_started response_started default_fsm_config
speaking = response_started (101 * second) calling

-- A talk that falls quiet, is taken up again and parked.
abbrev talk : List Input
talk =
    starts_call (100 * second)
    ∷ ticks (131 * second)
    ∷ starts_speech (140 * second)
    ∷ stops_speech (141 * second)
    ∷ requests_park (150 * second) explicit
    ∷ []

talk_drains : (run (new_fsm config) talk).state ≡ parking
unfolding run step new_fsm default_fsm_config is_busy
talk_drains = refl

run-Inv_example : Inv (run (new_fsm config) talk)
run-Inv_example = run-Inv config talk

step-Edge_example : Edge (ticks (131 * second)) live quiet
unfolding step new_fsm call_started default_fsm_config is_busy
step-Edge_example = step-Edge calling (ticks (131 * second)) (λ now e. cc)

tick-parks_iff_example :
    ((tick (3600 * second) calling).park ≡ true) ↔ ParkDue (3600 * second) calling
tick-parks_iff_example = tick-parks_iff (3600 * second) calling

rollover_parks : (tick (3600 * second) calling).park ≡ true
unfolding tick is_busy new_fsm call_started default_fsm_config
rollover_parks = refl

abbrev asked : Fsm
unfolding new_fsm call_started question_voiced default_fsm_config
asked = question_voiced (3500 * second) calling

abbrev leaving : Fsm
unfolding new_fsm call_started response_started request_park default_fsm_config
leaving = request_park (102 * second) explicit speaking

tick-quiet_iff_example :
    ((tick (131 * second) calling).became_quiet ≡ true) ↔ FallsQuiet (131 * second) calling
tick-quiet_iff_example = tick-quiet_iff (131 * second) calling

try_start_response-can_example :
    (try_start_response (102 * second) calling).1 ≡ can_start_response calling
try_start_response-can_example = try_start_response-can (102 * second) calling

try_start_response_iff_example :
    ((try_start_response (102 * second) speaking).1 ≡ true)
    ↔ (((speaking.state ≡ live) ⊎ (speaking.state ≡ quiet)) × (is_busy speaking ≡ false))
try_start_response_iff_example = try_start_response_iff (102 * second) speaking

abbrev playback : List Input
playback = starts_audio (103 * second) ∷ speech (104 * second) ∷ ticks (105 * second) ∷ []

admitted_once_example :
    (try_start_response
      (106 * second)
      (run (try_start_response (102 * second) calling).0 playback)).1
    ≡ false
unfolding try_start_response new_fsm call_started default_fsm_config
admitted_once_example =
    admitted_once calling (102 * second) (106 * second) playback refl
      (refl, refl, (refl, refl, (refl, refl, tt)))

draining_admits_none_example :
    (((run leaving playback).state ≡ parking) ⊎ ((run leaving playback).state ≡ parked))
    × ((try_start_response (106 * second) (run leaving playback)).1 ≡ false)
unfolding new_fsm call_started response_started request_park default_fsm_config
draining_admits_none_example =
    draining_admits_none leaving (106 * second) playback (inl refl) (refl, (refl, (refl, tt)))

park_ends_example :
    (tick (140 * second) (run (request_park (102 * second) explicit speaking) playback)).next.state
    ≡ parked
unfolding new_fsm call_started response_started default_fsm_config
park_ends_example =
    park_ends speaking (102 * second) (140 * second) explicit playback (omega arith) (omega arith)
      (refl, (refl, (refl, tt)))
