-- ===== src/Desk/Fsm/Ladder.antt =====
-- internal/desk/fsm.go: when `Tick` parks, for which reason, and when it falls quiet.
use thornhill.Base.{ℕ, ◌+◌, ◌≤◌, ◌<◌, ◌≡◌, ◌≢◌, ◌⊎◌, inl, inr, ◌↔◌, true, false, arith, Bool-cases}
use thornhill.Desk.Fsm.{State, live, parked, Fsm, tick, is_busy, is_parked}

-- A park that was asked for is due once nothing is busy, or once the drain time is over.
abbrev pub DrainDue : ℕ → Fsm → Type 0
DrainDue now f =
    (is_busy f ≡ false)
    ⊎ ((0 < f.park_drain_after) × (f.park_requested_at + f.park_drain_after ≤ now))

abbrev pub MuteDue : ℕ → Fsm → Type 0
MuteDue now f = (f.muted ≡ true) × ((f.hidden ≡ true) ⊎ (f.muted_since + f.mute_park_after ≤ now))

-- The timers count only while nothing is busy, and but for the rollover only outside the grace
-- window of a question.
abbrev pub TimerDue : ℕ → Fsm → Type 0
TimerDue now f =
    (is_busy f ≡ false)
    × ((f.call_start + f.rollover_at ≤ now)
        ⊎ ((f.grace_until ≤ now) × (MuteDue now f ⊎ (f.last_speech + f.park_after ≤ now))))

abbrev pub ParkDue : ℕ → Fsm → Type 0
ParkDue now f =
    (f.state ≢ parked)
    × (((f.park_requested ≡ true) × DrainDue now f) ⊎ ((f.park_requested ≡ false) × TimerDue now f))

abbrev pub FallsQuiet : ℕ → Fsm → Type 0
FallsQuiet now f =
    (f.state ≡ live)
    × ((tick now f).park ≡ false)
    × (f.park_requested ≡ false)
    × (is_busy f ≡ false)
    × (f.last_speech + f.quiet_after ≤ now)

requested_parks :
    (now : ℕ) (f : Fsm)
    → (is_parked f.state ≡ false)
    → f.park_requested ≡ true
    → ((tick now f).park ≡ true) ↔ DrainDue now f
unfolding tick
requested_parks now f p r = (λ h. ground arith, λ h. ground arith)

timers_park :
    (now : ℕ) (f : Fsm)
    → (is_parked f.state ≡ false)
    → f.park_requested ≡ false
    → ((tick now f).park ≡ true) ↔ TimerDue now f
unfolding tick
timers_park now f p r = (λ h. ground arith, λ h. ground arith)

parked_stays : (now : ℕ) (f : Fsm) → is_parked f.state ≡ true → (tick now f).park ≡ false
unfolding tick
parked_stays now f p = ground arith

is_parked-ne : (s : State) → is_parked s ≡ false → s ≢ parked
is_parked-ne s h = λ e. ground arith

ne-is_parked : (s : State) → s ≢ parked → is_parked s ≡ false
ne-is_parked s h = ground arith

-- `Tick` parks exactly when a park is due: the call is not parked yet, and either a requested park
-- has nothing busy left to wait for or has waited for the drain time, or no park is requested,
-- nothing is busy and the rollover time has come or, outside the grace window of a question, the
-- mute rule or the idle time has.
pub tick-parks_iff : (now : ℕ) (f : Fsm) → ((tick now f).park ≡ true) ↔ ParkDue now f
tick-parks_iff now f = elim (Bool-cases (is_parked f.state)) [
  | inl p ↦ (λ h. cc (parked_stays now f p), λ d. absurd (d.0 (parked_of p)))
  | inr p ↦ elim (Bool-cases f.park_requested) [
    | inl r ↦ (
      λ h. (is_parked-ne f.state p, inl (r, (requested_parks now f p r).0 h)),
      λ d. (requested_parks now f p r).1 (ground (arith, d.1)),
    )
    | inr r ↦ (
      λ h. (is_parked-ne f.state p, inr (r, (timers_park now f p r).0 h)),
      λ d. (timers_park now f p r).1 (ground (arith, d.1)),
    )
  ]
]
  where
    parked_of : is_parked f.state ≡ true → f.state ≡ parked
    parked_of p = ground arith

quiet_forward : (now : ℕ) (f : Fsm) → (tick now f).became_quiet ≡ true → FallsQuiet now f
unfolding tick
quiet_forward now f h = ground arith

quiet_back : (now : ℕ) (f : Fsm) → FallsQuiet now f → (tick now f).became_quiet ≡ true
unfolding tick
quiet_back now f h = ground arith

-- `Tick` reports QUIET exactly when it does not park a LIVE session in which nothing is busy, no park
-- is requested and the quiet time has passed since the last speech.
pub tick-quiet_iff : (now : ℕ) (f : Fsm) → ((tick now f).became_quiet ≡ true) ↔ FallsQuiet now f
tick-quiet_iff now f = (quiet_forward now f, quiet_back now f)
