-- ===== src/Desk/Session.antt =====
-- internal/desk/desk.go: the single-writer turn loop of one voice session. A handler of the loop of
-- `Run` is a function to the new state; what it sends is added to `sent`, newest last. The answers of
-- the Realtime client and the store, and the clock, are the record `World`. An event arrives with
-- what internal/openairt extracts from its JSON. The tools themselves run elsewhere: their outputs
-- arrive as a batch. The two local variables of `Run` are fields of the state.
use thornhill.Base.{
  ℕ, ◌+◌, ◌-◌, ◌*◌, ◌%◌, ◌^◌, Bool, true, false, not, ◌&&◌, ◌||◌, Option, none, some, List, [], ◌∷◌,
  ◌++◌, String, concat, decimal, length, ltb, if◌then◌else◌,
}
use thornhill.Desk.Fsm
use thornhill.Desk.Fsm.{
  Fsm, FsmConfig, State, live, quiet, parked, is_live, is_parked, ParkReason, none_given, explicit,
  drain_timeout, second,
}

pub record Injection : Type 0 where
  pub role : String
  pub text : String
  pub respond : Bool
  pub is_question : Bool
  pub attention : List ℕ

-- The zero value of the struct.
abbrev pub no_injection : Injection
no_injection = record { role = ""; text = ""; respond = false; is_question = false; attention = [] }

pub record FuncCall : Type 0 where
  pub name : String
  pub call_id : String
  pub arguments : String

pub record ResponseDone : Type 0 where
  pub id : String
  pub status : String
  pub input_tokens : ℕ
  pub output_tokens : ℕ
  pub calls : List FuncCall

pub data ServerEvent : Type 0 where
  ev_speech_started ev_speech_stopped ev_input_audio_committed : ServerEvent
  ev_input_transcript_done ev_output_transcript_done : String → ServerEvent
  ev_response_created : String → String → ServerEvent  -- id, request id
  ev_output_audio_started ev_output_audio_stopped ev_output_audio_cleared : String → ServerEvent
  ev_response_done : ResponseDone → ServerEvent
  ev_error : String → String → String → ServerEvent  -- message, code, event id
  ev_other : ServerEvent

-- What the session sends: client events of the Realtime connection, publications on the bus, and
-- calls of the store.
pub data Effect : Type 0 where
  creates_response : String → Effect
  cancels_response : Effect
  injects_message : String → String → Effect
  outputs_function : String → String → Effect
  starts_tools : List FuncCall → Effect
  marks_spoken : String → List ℕ → Effect
  publishes_transcript_in publishes_transcript_out : String → Effect
  publishes_voice_error : String → String → Effect  -- message, status
  adds_usage publishes_usage : ℕ → ℕ → Effect
  publishes_state : State → String → Effect

-- `mark_spoken` answers `none` for an error, else the number of rows acknowledged.
pub record World : Type 0 where
  pub now : ℕ
  pub create_ok : String → Bool
  pub inject_ok : Injection → Bool
  pub output_ok : FuncCall → Bool
  pub has_attention_store : Bool
  pub mark_spoken : String → List ℕ → Option ℕ

pub record Desk : Type 0 where
  pub fsm : Fsm
  pub inject : List Injection
  pub urgent : List Injection
  pub pending_user_turn : Bool
  pub pending_continuation : Bool
  pub response_create_event_id : String
  pub response_seq : ℕ  -- uint64
  pub active_response_id : String
  pub active_response_done : Bool
  pub active_response_audio : Bool
  pub attention_claim_token : String
  pub response_attention : List ℕ
  pub attention_request_id : String
  pub attention_response_id : String
  pub attention_response_done : Bool
  pub attention_audio_started : Bool
  pub attention_audio_stopped : Bool
  pub response_attention_briefing : Injection
  pub attention_retry : Option Injection
  pub last_injection : ℕ
  pub pending_question_voiced : Bool
  pub sent : List Effect

unfoldable pub new_desk : FsmConfig → String → Desk
new_desk c token = record {
  fsm = Fsm.new_fsm c;
  inject = [];
  urgent = [];
  pending_user_turn = false;
  pending_continuation = false;
  response_create_event_id = "";
  response_seq = 0;
  active_response_id = "";
  active_response_done = false;
  active_response_audio = false;
  attention_claim_token = token;
  response_attention = [];
  attention_request_id = "";
  attention_response_id = "";
  attention_response_done = false;
  attention_audio_started = false;
  attention_audio_stopped = false;
  response_attention_briefing = no_injection;
  attention_retry = none;
  last_injection = 0;
  pending_question_voiced = false;
  sent = [];
}

abbrev pub null {ℓ} : {A : Type ℓ} → List A → Bool
null [] = true
null (x ∷ xs) = false

unfoldable pub emit : Effect → Desk → Desk
emit e d = record d { sent = d.sent ++ e ∷ [] }

abbrev pub inject_cap : ℕ
inject_cap = 32

abbrev pub urgent_cap : ℕ
urgent_cap = 64

-- A send to `d.inject` that does not block: a full queue drops the injection.
unfoldable pub queue_inject : Injection → Desk → Desk
queue_inject inj d =
    if ltb (length d.inject) inject_cap then record d { inject = d.inject ++ inj ∷ [] } else d

-- `InjectUserText`.
unfoldable pub inject_user_text : String → Desk → Desk
unfolding queue_inject
inject_user_text text d =
    queue_inject
      (record { role = "user"; text = text; respond = true; is_question = false; attention = [] }) d

unfoldable pub queue_urgent : Injection → Desk → Desk
queue_urgent inj d =
    if ltb (length d.urgent) urgent_cap then record d { urgent = d.urgent ++ inj ∷ [] } else d

-- `RequestPark`.
unfoldable pub request_park : World → Desk → Desk
unfolding emit
request_park w d =
    emit (publishes_state Fsm.parking "explicit")
      (record d { fsm = Fsm.request_park w.now explicit d.fsm })

unfoldable pub queue_attention_retry : Injection → Desk → Desk
queue_attention_retry inj d =
    if null inj.attention then d else record d { attention_retry = some inj }

unfoldable pub reset_response_attention : Desk → Desk
reset_response_attention d = record d {
  response_attention = [];
  response_attention_briefing = no_injection;
  attention_request_id = "";
  attention_response_id = "";
  attention_response_done = false;
  attention_audio_started = false;
  attention_audio_stopped = false;
}

unfoldable pub requeue_response_attention : Desk → Desk
requeue_response_attention d =
    if null d.response_attention
    then d
    else queue_attention_retry
        (record d.response_attention_briefing { attention = d.response_attention })
        (reset_response_attention d)

-- `UnixNano` of the clock: the Unix epoch is 62135596800 seconds after Go's zero time.
unix_nano : ℕ → ℕ
unix_nano now = now - 62_135_596_800 * second

unfoldable pub create_event_id : ℕ → ℕ → String
unfolding unix_nano decimal concat
create_event_id now seq =
    concat ("thornhill_response_create_" ∷ decimal (unix_nano now) ∷ "_" ∷ decimal seq ∷ [])

-- `requestResponseFor` once the lifecycle has admitted the response.
unfoldable pub admitted_response : World → List ℕ → Injection → Desk → Desk × Bool
admitted_response w attention briefing d =
    let seq = (d.response_seq + 1) % 2 ^ 64 in
    let id = create_event_id w.now seq in
    let d' = record d {
      response_seq = seq;
      response_create_event_id = id;
      response_attention = attention;
      response_attention_briefing = briefing;
      attention_request_id = if null attention then "" else id;
      attention_response_id = "";
      attention_response_done = false;
      attention_audio_started = false;
      attention_audio_stopped = false;
    } in
    if w.create_ok id then (emit (creates_response id) d', true) else (
      requeue_response_attention
          (record d' { response_create_event_id = ""; fsm = Fsm.response_done w.now d'.fsm }),
      false,
    )

-- The result says whether there was no error.
unfoldable pub request_response_for : World → List ℕ → Injection → Desk → Desk × Bool
request_response_for w attention briefing d =
    let (f, admitted) = Fsm.try_start_response w.now d.fsm in
    if admitted then admitted_response w attention briefing (record d { fsm = f }) else (d, false)

unfoldable pub request_response : World → Desk → Desk × Bool
request_response w d = request_response_for w [] no_injection d

unfoldable pub maybe_create_response : World → Desk → Desk
maybe_create_response w d =
    if not (Fsm.can_start_response d.fsm) || (not d.pending_user_turn && not d.pending_continuation)
    then d
    else let (d', ok) = request_response w d in
      if ok then record d' { pending_user_turn = false; pending_continuation = false } else d'
