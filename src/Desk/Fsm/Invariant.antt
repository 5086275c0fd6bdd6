-- ===== src/Desk/Fsm/Invariant.antt =====
-- internal/desk/fsm.go: what holds of the lifecycle between two calls of its methods.
use thornhill.Base.{ℕ, ◌≡◌, ◌≢◌, refl, ◌⊎◌, true, List, [], ◌∷◌, arith}
use thornhill.Desk.Fsm.{
  State, live, quiet, parking, parked, FsmConfig, Fsm, ParkReason, Input, starts_call, speech,
  starts_speech, stops_speech, ticks, disconnects, parks_now, requests_park, new_fsm, step, run,
}

-- A park request is pending exactly while the session drains. A forced park may leave it behind.
pub record Inv (f : Fsm) : Type 0 where
  pub parking_requested : f.state ≡ parking → f.park_requested ≡ true
  pub requested_parking : f.park_requested ≡ true → (f.state ≡ parking) ⊎ (f.state ≡ parked)

pub new_fsm-Inv : (c : FsmConfig) → Inv (new_fsm c)
unfolding new_fsm
new_fsm-Inv c = ground arith

pub step-Inv : (f : Fsm) (i : Input) → Inv f → Inv (step f i)
unfolding step
step-Inv f i h = ground arith

pub run_from-Inv : (f : Fsm) (is : List Input) → Inv f → Inv (run f is)
unfolding run
run_from-Inv f [] h = h
run_from-Inv f (i ∷ is) h = run_from-Inv (step f i) is (step-Inv f i h)

-- After any calls of its methods, in any order, a new lifecycle is in PARKING only with a pending
-- park request, and has a pending request only in PARKING or PARKED.
pub run-Inv : (c : FsmConfig) (is : List Input) → Inv (run (new_fsm c) is)
run-Inv c is = run_from-Inv (new_fsm c) is (new_fsm-Inv c)

-- The moves between two states, each with the call that makes it.
pub data Edge : Input → State → State → Type 0 where
  stay : {i : Input} {s : State} → Edge i s s
  falls_quiet : {now : ℕ} → Edge (ticks now) live quiet
  hears : {now : ℕ} → Edge (speech now) quiet live
  hears_start : {now : ℕ} → Edge (starts_speech now) quiet live
  hears_stop : {now : ℕ} → Edge (stops_speech now) quiet live
  drains_live : {now : ℕ} {why : ParkReason} → Edge (requests_park now why) live parking
  drains_quiet : {now : ℕ} {why : ParkReason} → Edge (requests_park now why) quiet parking
  drained : {now : ℕ} → Edge (ticks now) parking parked
  parks_live : {now : ℕ} → Edge (ticks now) live parked
  parks_quiet : {now : ℕ} → Edge (ticks now) quiet parked
  cut_off : {s : State} → Edge disconnects s parked
  parked_now : {s : State} → Edge parks_now s parked

ruleset edges = (
  stay, falls_quiet, hears, hears_start, hears_stop, drains_live, drains_quiet, drained, parks_live,
  parks_quiet, cut_off, parked_now,
)

-- A call of any method but `CallStarted` leaves the state or makes one of these moves: `Tick` from LIVE to
-- QUIET and from LIVE, QUIET or PARKING to PARKED; speech, with its start and its end, from QUIET to
-- LIVE; `RequestPark` from LIVE or QUIET to PARKING; `Disconnected` and `ExplicitPark` from any state
-- to PARKED. The moves of `Tick` and of the last two from LIVE and QUIET to PARKED and the one from
-- LIVE to PARKING are not in the diagram that heads the file.
pub step-Edge :
    (f : Fsm) (i : Input) → ((now : ℕ) → i ≢ starts_call now) → Edge i f.state (step f i).state
unfolding step
step-Edge f (starts_call now) h = absurd (h now refl)
step-Edge f i h = grind (arith, edges)
