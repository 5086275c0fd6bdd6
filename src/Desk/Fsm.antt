-- ===== src/Desk/Fsm.antt =====
-- internal/desk/fsm.go: the session lifecycle. A method that mutates `*FSM` returns the new record;
-- the mutex makes each method one atomic step. Times are nanoseconds since Go's zero time, which is
-- 0, and `now.Sub(t) >= d` is written `t + d ≤ now`, which agrees with the saturating difference for
-- every duration that is not negative (internal/config/config.go refuses the others).
pub mod Invariant
pub mod Ladder
pub mod Admission
pub mod Drain
use thornhill.Base.{
  ℕ, ◌+◌, ◌*◌, Bool, true, false, not, ◌&&◌, ◌||◌, List, [], ◌∷◌, leb, ltb, if◌then◌else◌,
}

pub data State : Type 0 where
  live quiet parking parked : State

-- `none_given` is the empty string, the zero value of the type.
pub data ParkReason : Type 0 where
  none_given idle mute_hidden explicit disconnect rollover drain_timeout : ParkReason

pub record FsmConfig : Type 0 where
  pub quiet_after : ℕ
  pub park_after : ℕ
  pub rollover_at : ℕ
  pub mute_park_after : ℕ
  pub question_grace : ℕ
  pub park_drain_after : ℕ

abbrev pub second : ℕ
second = 1_000_000_000

unfoldable pub default_fsm_config : ℕ → ℕ → ℕ → FsmConfig
default_fsm_config quiet_after park_after rollover_at = record {
  quiet_after = quiet_after;
  park_after = park_after;
  rollover_at = rollover_at;
  mute_park_after = 600 * second;
  question_grace = 120 * second;
  park_drain_after = 30 * second;
}

pub record Fsm : Type 0 where
  pub cfg : FsmConfig
  pub open cfg use *
  pub state : State
  pub call_start : ℕ
  pub last_speech : ℕ
  pub in_flight : Bool
  pub audio_playing : Bool
  pub user_speaking : Bool
  pub is_tool_pending : Bool
  pub muted : Bool
  pub hidden : Bool
  pub muted_since : ℕ
  pub grace_until : ℕ
  pub park_requested : Bool
  pub park_requested_at : ℕ
  pub park_reason : ParkReason

unfoldable pub new_fsm : FsmConfig → Fsm
new_fsm c = record {
  cfg = c;
  state = parked;
  call_start = 0;
  last_speech = 0;
  in_flight = false;
  audio_playing = false;
  user_speaking = false;
  is_tool_pending = false;
  muted = false;
  hidden = false;
  muted_since = 0;
  grace_until = 0;
  park_requested = false;
  park_requested_at = 0;
  park_reason = none_given;
}

abbrev pub is_live : State → Bool
is_live live = true
is_live _ = false

abbrev pub is_quiet : State → Bool
is_quiet quiet = true
is_quiet _ = false

abbrev pub is_parked : State → Bool
is_parked parked = true
is_parked _ = false

unfoldable pub call_started : ℕ → Fsm → Fsm
call_started now f = record f {
  state = live;
  call_start = now;
  last_speech = now;
  in_flight = false;
  audio_playing = false;
  user_speaking = false;
  is_tool_pending = false;
  grace_until = 0;
  park_requested = false;
  park_requested_at = 0;
  park_reason = none_given;
}

-- `speechActivityLocked`, and `SpeechActivity`, which takes the lock around it.
unfoldable pub speech_activity : ℕ → Fsm → Fsm
speech_activity now f = record f {
  last_speech = now;
  state = if is_quiet f.state then live else f.state;
}

unfoldable pub speech_started : ℕ → Fsm → Fsm
unfolding speech_activity
speech_started now f = speech_activity now (record f { user_speaking = true })

unfoldable pub speech_stopped : ℕ → Fsm → Fsm
unfolding speech_activity
speech_stopped now f = speech_activity now (record f { user_speaking = false })

unfoldable pub response_started : ℕ → Fsm → Fsm
response_started now f = record f { in_flight = true; last_speech = now }

unfoldable pub is_busy : Fsm → Bool
is_busy f = f.in_flight || f.audio_playing || f.user_speaking || f.is_tool_pending

unfoldable pub try_start_response : ℕ → Fsm → Fsm × Bool
try_start_response now f =
    if not (is_live f.state) && not (is_quiet f.state)
    then (f, false)
    else if f.in_flight || f.audio_playing || f.user_speaking || f.is_tool_pending
    then (f, false)
    else (record f { in_flight = true; last_speech = now }, true)

unfoldable pub response_done : ℕ → Fsm → Fsm
response_done now f = record f { in_flight = false; last_speech = now }

unfoldable pub audio_started : ℕ → Fsm → Fsm
audio_started now f = record f { audio_playing = true; last_speech = now }

unfoldable pub audio_stopped : ℕ → Fsm → Fsm
audio_stopped now f = record f { audio_playing = false; last_speech = now }

unfoldable pub tool_pending : Bool → Fsm → Fsm
tool_pending p f = record f { is_tool_pending = p }

unfoldable pub can_start_response : Fsm → Bool
can_start_response f =
    if not (is_live f.state) && not (is_quiet f.state)
    then false
    else not f.in_flight && not f.audio_playing && not f.user_speaking && not f.is_tool_pending

unfoldable pub question_voiced : ℕ → Fsm → Fsm
question_voiced now f = record f { grace_until = now + f.question_grace }

unfoldable pub set_client_state : ℕ → Bool → Bool → Fsm → Fsm
set_client_state now muted hidden f = record f {
  muted_since = if muted && not f.muted then now else f.muted_since;
  muted = muted;
  hidden = hidden;
}

unfoldable pub disconnected : Fsm → Fsm × ParkReason
disconnected f = (record f { state = parked }, disconnect)

unfoldable pub request_park : ℕ → ParkReason → Fsm → Fsm
request_park now reason f = if is_parked f.state then f else record f {
  park_requested = true;
  park_requested_at = now;
  park_reason = reason;
  state = parking;
}

unfoldable pub explicit_park : Fsm → Fsm × ParkReason
explicit_park f = (record f { state = parked }, explicit)

-- What `Tick` returns.
pub record Ticked : Type 0 where
  pub next : Fsm
  pub park : Bool
  pub reason : ParkReason
  pub became_quiet : Bool

stays : Fsm → Ticked
stays f = record { next = f; park = false; reason = none_given; became_quiet = false }

parks : ParkReason → Fsm → Ticked
parks why f = record {
  next = record f { state = parked };
  park = true;
  reason = why;
  became_quiet = false;
}

abbrev or_explicit : ParkReason → ParkReason
or_explicit none_given = explicit
or_explicit why = why

-- The branch of `Tick` under `f.parkRequested`.
tick_requested : ℕ → Fsm → Ticked
unfolding stays parks
tick_requested now f =
    let cleared = record f {
      park_requested = false;
      park_requested_at = 0;
      park_reason = none_given;
    } in
    if is_busy f
    then if ltb 0 f.park_drain_after && leb (f.park_requested_at + f.park_drain_after) now
      then parks drain_timeout cleared
      else stays f
    else parks (or_explicit f.park_reason) cleared

-- The last test of `Tick`.
tick_quiet : ℕ → Fsm → Ticked
unfolding stays
tick_quiet now f =
    if is_live f.state && not (is_busy f) && leb (f.last_speech + f.quiet_after) now
    then record {
      next = record f { state = quiet };
      park = false;
      reason = none_given;
      became_quiet = true;
    }
    else stays f

-- The timers of `Tick`, once no park is requested.
tick_timers : ℕ → Fsm → Ticked
unfolding tick_quiet parks
tick_timers now f =
    if leb (f.call_start + f.rollover_at) now && not (is_busy f)
    then parks rollover f
    else if not (is_busy f)
        && not (ltb now f.grace_until)
        && (f.muted && (f.hidden || leb (f.muted_since + f.mute_park_after) now))
    then parks mute_hidden f
    else if not (is_busy f) && not (ltb now f.grace_until) && leb (f.last_speech + f.park_after) now
    then parks idle f
    else tick_quiet now f

unfoldable pub tick : ℕ → Fsm → Ticked
unfolding tick_requested tick_timers
tick now f =
    if is_parked f.state
    then stays f
    else if f.park_requested
    then tick_requested now f
    else tick_timers now f

-- A call of a method with what it is given, and its effect on the state. The probes `State`, `Busy`
-- and `CanStartResponse` change nothing.
pub data Input : Type 0 where
  starts_call speech starts_speech stops_speech starts_response tries_response ends_response :
      ℕ → Input
  starts_audio stops_audio voices_question ticks : ℕ → Input
  sets_tool : Bool → Input
  sets_client : ℕ → Bool → Bool → Input
  disconnects parks_now : Input
  requests_park : ℕ → ParkReason → Input

unfoldable pub step : Fsm → Input → Fsm
unfolding call_started speech_activity speech_started speech_stopped response_started
    try_start_response response_done audio_started audio_stopped question_voiced tick tool_pending
    set_client_state disconnected explicit_park request_park
step f (starts_call now) = call_started now f
step f (speech now) = speech_activity now f
step f (starts_speech now) = speech_started now f
step f (stops_speech now) = speech_stopped now f
step f (starts_response now) = response_started now f
step f (tries_response now) = (try_start_response now f).0
step f (ends_response now) = response_done now f
step f (starts_audio now) = audio_started now f
step f (stops_audio now) = audio_stopped now f
step f (voices_question now) = question_voiced now f
step f (ticks now) = (tick now f).next
step f (sets_tool p) = tool_pending p f
step f (sets_client now muted hidden) = set_client_state now muted hidden f
step f disconnects = (disconnected f).0
step f parks_now = (explicit_park f).0
step f (requests_park now why) = request_park now why f

unfoldable pub run : Fsm → List Input → Fsm
run f [] = f
run f (i ∷ is) = run (step f i) is
