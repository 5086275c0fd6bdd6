-- ===== src/Desk/Fsm/Drain.antt =====
-- internal/desk/fsm.go: a requested park ends, whatever keeps the session busy.
use thornhill.Base.{ℕ, ◌+◌, ◌≤◌, ◌<◌, ◌≡◌, ◌⊎◌, Bool, true, false, List, [], ◌∷◌, arith}
use thornhill.Desk.Fsm.{
  parking, parked, ParkReason, FsmConfig, Fsm, Input, starts_call, requests_park, tick,
  request_park, step, run,
}

abbrev is_restart : Input → Bool
is_restart (starts_call now) = true
is_restart (requests_park now why) = true
is_restart _ = false

-- No input starts a new call or asks for a park again.
abbrev pub SamePark : List Input → Type 0
SamePark [] = Unit {0}
SamePark (i ∷ is) = (is_restart i ≡ false) × SamePark is

-- Parked, or draining since `at`.
abbrev Waits : ℕ → FsmConfig → Fsm → Type 0
Waits at c f =
    (f.state ≡ parked)
    ⊎ ((f.state ≡ parking)
        × (f.park_requested ≡ true)
        × (f.park_requested_at ≡ at)
        × (f.park_drain_after ≡ c.park_drain_after))

step-Waits :
    (at : ℕ) (c : FsmConfig) (f : Fsm) (i : Input)
    → is_restart i ≡ false
    → Waits at c f
    → Waits at c (step f i)
unfolding step
step-Waits at c f i r h = ground arith

run-Waits :
    (at : ℕ) (c : FsmConfig) (f : Fsm) (is : List Input)
    → SamePark is
    → Waits at c f
    → Waits at c (run f is)
unfolding run
run-Waits at c f [] s h = h
run-Waits at c f (i ∷ is) s h = run-Waits at c (step f i) is s.1 (step-Waits at c f i s.0 h)

request_park-Waits : (at : ℕ) (why : ParkReason) (f : Fsm) → Waits at f.cfg (request_park at why f)
unfolding request_park
request_park-Waits at why f = ground arith

tick-Waits :
    (at now : ℕ) (c : FsmConfig) (f : Fsm)
    → Waits at c f
    → 0 < c.park_drain_after
    → at + c.park_drain_after ≤ now
    → (tick now f).next.state ≡ parked
unfolding tick
tick-Waits at now c f h p e = ground arith

-- A park requested at time `at` is over at the first tick after the drain time, however long
-- generation, playback, speech or a tool call goes on and whatever else happens in between, a new
-- call or request aside.
pub park_ends :
    (f : Fsm) (at now : ℕ) (why : ParkReason) (is : List Input)
    → 0 < f.park_drain_after
    → at + f.park_drain_after ≤ now
    → SamePark is
    → (tick now (run (request_park at why f) is)).next.state ≡ parked
park_ends f at now why is p e s =
    tick-Waits at now f.cfg _ (run-Waits at f.cfg _ is s (request_park-Waits at why f)) p e
