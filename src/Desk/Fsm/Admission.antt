-- ===== src/Desk/Fsm/Admission.antt =====
-- internal/desk/fsm.go: which responses `TryStartResponse` admits.
use thornhill.Base.{ℕ, ◌≡◌, ◌⊎◌, ◌↔◌, Bool, true, false, List, [], ◌∷◌, arith}
use thornhill.Desk.Fsm.{
  State, live, quiet, parking, parked, Fsm, Input, starts_call, ends_response, can_start_response,
  try_start_response, is_busy, step, run,
}

-- The probe `CanStartResponse` answers as `TryStartResponse` does.
pub try_start_response-can :
    (now : ℕ) (f : Fsm) → (try_start_response now f).1 ≡ can_start_response f
unfolding try_start_response can_start_response
try_start_response-can now f = ground arith

-- A response is admitted exactly in LIVE or QUIET with nothing busy.
pub try_start_response_iff :
    (now : ℕ) (f : Fsm)
    → ((try_start_response now f).1 ≡ true)
      ↔ (((f.state ≡ live) ⊎ (f.state ≡ quiet)) × (is_busy f ≡ false))
unfolding try_start_response is_busy
try_start_response_iff now f = (λ h. ground arith, λ h. ground arith)

admitted_in_flight :
    (now : ℕ) (f : Fsm)
    → (try_start_response now f).1 ≡ true
    → (try_start_response now f).0.in_flight ≡ true
unfolding try_start_response
admitted_in_flight now f h = ground arith

abbrev is_starts_call : Input → Bool
is_starts_call (starts_call now) = true
is_starts_call _ = false

abbrev is_ends_response : Input → Bool
is_ends_response (ends_response now) = true
is_ends_response _ = false

-- No input starts a new call.
abbrev pub SameCall : List Input → Type 0
SameCall [] = Unit {0}
SameCall (i ∷ is) = (is_starts_call i ≡ false) × SameCall is

-- No input starts a new call or ends the response in flight.
abbrev pub SameResponse : List Input → Type 0
SameResponse [] = Unit {0}
SameResponse (i ∷ is) = (is_starts_call i ≡ false) × (is_ends_response i ≡ false) × SameResponse is

in_flight-step :
    (f : Fsm) (i : Input)
    → is_starts_call i ≡ false
    → is_ends_response i ≡ false
    → f.in_flight ≡ true
    → (step f i).in_flight ≡ true
unfolding step
in_flight-step f i c e h = ground arith

in_flight-run :
    (f : Fsm) (is : List Input) → SameResponse is → f.in_flight ≡ true → (run f is).in_flight ≡ true
unfolding run
in_flight-run f [] s h = h
in_flight-run f (i ∷ is) s h = in_flight-run (step f i) is s.2 (in_flight-step f i s.0 s.1 h)

refused_in_flight : (now : ℕ) (f : Fsm) → f.in_flight ≡ true → (try_start_response now f).1 ≡ false
unfolding try_start_response
refused_in_flight now f h = ground arith

-- Once a response is admitted no second one is, whatever else happens, before that response ends or
-- a new call starts.
pub admitted_once :
    (f : Fsm) (now later : ℕ) (is : List Input)
    → (try_start_response now f).1 ≡ true
    → SameResponse is
    → (try_start_response later (run (try_start_response now f).0 is)).1 ≡ false
admitted_once f now later is h s =
    refused_in_flight later _ (in_flight-run _ is s (admitted_in_flight now f h))

abbrev is_draining : State → Bool
is_draining parking = true
is_draining parked = true
is_draining _ = false

draining-step :
    (f : Fsm) (i : Input)
    → is_starts_call i ≡ false
    → is_draining f.state ≡ true
    → is_draining (step f i).state ≡ true
unfolding step
draining-step f i c h = ground arith

draining-run :
    (f : Fsm) (is : List Input)
    → SameCall is
    → is_draining f.state ≡ true
    → is_draining (run f is).state ≡ true
unfolding run
draining-run f [] s h = h
draining-run f (i ∷ is) s h = draining-run (step f i) is s.1 (draining-step f i s.0 h)

refused_draining :
    (now : ℕ) (f : Fsm) → is_draining f.state ≡ true → (try_start_response now f).1 ≡ false
unfolding try_start_response
refused_draining now f h = ground arith

-- A session that drains or is parked never comes back to LIVE or QUIET within its call, whatever
-- happens, and it admits no response.
pub draining_admits_none :
    (f : Fsm) (now : ℕ) (is : List Input)
    → (f.state ≡ parking) ⊎ (f.state ≡ parked)
    → SameCall is
    → (((run f is).state ≡ parking) ⊎ ((run f is).state ≡ parked))
      × ((try_start_response now (run f is)).1 ≡ false)
draining_admits_none f now is d s =
    let still = draining-run f is s (ground arith) in
    (ground arith, refused_draining now (run f is) still)
