-- ===== src/Desk/Server.antt =====
-- internal/desk/desk.go: the handlers of the realtime server's events, one for each kind (`handleServer`).
use thornhill.Base.{
  ℕ, ◌+◌, Bool, true, false, not, ◌&&◌, ◌||◌, Option, none, some, List, [], ◌∷◌, String, str_eq,
  is_empty, concat, length, ltb, ◌==◌, if◌then◌else◌,
}
use thornhill.Desk.Fsm
use thornhill.Desk.Fsm.{
  State, live, quiet, parked, is_live, is_parked, ParkReason, none_given, idle, mute_hidden,
  explicit, disconnect, rollover, drain_timeout, Ticked, second,
}
use thornhill.Desk.Session.{
  Injection, FuncCall, ResponseDone, ServerEvent, ev_speech_started, ev_speech_stopped,
  ev_input_audio_committed, ev_input_transcript_done, ev_output_transcript_done,
  ev_response_created, ev_output_audio_started, ev_output_audio_stopped, ev_output_audio_cleared,
  ev_response_done, ev_error, ev_other, Effect, starts_tools, marks_spoken, publishes_transcript_in,
  publishes_transcript_out, publishes_voice_error, publishes_usage, adds_usage, publishes_state,
  World, Desk, null, emit, queue_inject, reset_response_attention, requeue_response_attention,
  maybe_create_response,
}

unfoldable pub matches_active_response : String → Desk → Bool
matches_active_response id d = not (is_empty d.active_response_id) && str_eq id d.active_response_id

unfoldable pub finish_active_response_if_drained : Desk → Desk
finish_active_response_if_drained d =
    if d.active_response_done && not d.active_response_audio
    then record d { active_response_id = ""; active_response_done = false }
    else d

unfoldable pub matches_attention_response : String → Desk → Bool
matches_attention_response id d =
    not (is_empty d.attention_response_id) && str_eq id d.attention_response_id

-- What `MarkAttentionSpoken` answered: an error or a smaller count leaves the briefing in place.
abbrev pub acknowledged : Option ℕ → Desk → Desk
acknowledged none d = d
acknowledged (some count) d =
    if count == length d.response_attention then reset_response_attention d else d

unfoldable pub maybe_acknowledge_attention : World → Desk → Desk
maybe_acknowledge_attention w d =
    if null d.response_attention
      || not d.attention_response_done
      || not d.attention_audio_started
      || not d.attention_audio_stopped
    then d
    else if not w.has_attention_store
    then d
    else acknowledged (w.mark_spoken d.attention_claim_token d.response_attention)
        (emit (marks_spoken d.attention_claim_token d.response_attention) d)

unfoldable pub publish_live : Desk → Desk
publish_live d = if is_live d.fsm.state then emit (publishes_state live "") d else d

unfoldable pub on_speech_started : World → Desk → Desk
unfolding publish_live
on_speech_started w d = publish_live (record d { fsm = Fsm.speech_started w.now d.fsm })

unfoldable pub on_speech_stopped : World → Desk → Desk
unfolding publish_live
on_speech_stopped w d = publish_live (record d { fsm = Fsm.speech_stopped w.now d.fsm })

unfoldable pub on_committed : World → Desk → Desk
on_committed w d = maybe_create_response w (record d { pending_user_turn = true })

unfoldable pub on_transcript : (String → Effect) → String → Desk → Desk
on_transcript publishes text d = if is_empty text then d else emit (publishes text) d

unfoldable pub on_response_created : World → String → String → Desk → Desk
on_response_created w id request_id d =
    if is_empty id || is_empty request_id || not (str_eq request_id d.response_create_event_id)
    then d
    else record d {
      response_create_event_id = "";
      active_response_id = id;
      active_response_done = false;
      active_response_audio = false;
      fsm = Fsm.response_started w.now d.fsm;
      attention_response_id =
          if not (null d.response_attention) && str_eq request_id d.attention_request_id
          then id
          else d.attention_response_id;
    }

unfoldable pub on_audio_started : World → String → Desk → Desk
on_audio_started w id d = if not (matches_active_response id d) then d else record d {
  active_response_audio = true;
  fsm = Fsm.audio_started w.now d.fsm;
  attention_audio_started =
      d.attention_audio_started
      || (not (null d.response_attention) && matches_attention_response id d);
}

-- What both ends of the audio do first.
unfoldable pub audio_over : World → Desk → Desk
audio_over w d = record d { active_response_audio = false; fsm = Fsm.audio_stopped w.now d.fsm }

unfoldable pub settle_stopped : World → String → Desk → Desk
settle_stopped w id d =
    if not (null d.response_attention) && matches_attention_response id d
    then maybe_acknowledge_attention w (record d { attention_audio_stopped = true })
    else d

unfoldable pub on_audio_stopped : World → String → Desk → Desk
on_audio_stopped w id d =
    if not (matches_active_response id d)
    then d
    else maybe_create_response w
        (finish_active_response_if_drained (settle_stopped w id (audio_over w d)))

unfoldable pub settle_cleared : String → Desk → Desk
settle_cleared id d = if matches_attention_response id d then requeue_response_attention d else d

unfoldable pub on_audio_cleared : World → String → Desk → Desk
on_audio_cleared w id d =
    if not (matches_active_response id d)
    then d
    else maybe_create_response w
        (finish_active_response_if_drained (settle_cleared id (audio_over w d)))

-- The part of `response.done` that settles a spoken briefing, once the response is known to be its.
unfoldable pub settle_matched : World → Bool → Desk → Desk
settle_matched w completed d =
    let d₁ =
      if completed
      then maybe_acknowledge_attention w (record d { attention_response_done = true })
      else d in
    if not (null d₁.response_attention) && (not completed || not d₁.attention_audio_started)
    then requeue_response_attention d₁
    else d₁

unfoldable pub settle_attention : World → ResponseDone → Desk → Desk
settle_attention w r d =
    if not (null d.response_attention) && str_eq r.id d.attention_response_id
    then settle_matched w (str_eq r.status "completed") d
    else d

unfoldable pub report_status : ResponseDone → Desk → Desk
report_status r d =
    if not (is_empty r.status) && not (str_eq r.status "completed")
    then emit
        (publishes_voice_error (concat ("voice response ended with status " ∷ r.status ∷ []))
          r.status)
        d
    else d

unfoldable pub report_usage : ResponseDone → Desk → Desk
report_usage r d =
    if ltb 0 (r.input_tokens + r.output_tokens)
    then emit (publishes_usage r.input_tokens r.output_tokens)
        (emit (adds_usage r.input_tokens r.output_tokens) d)
    else d

unfoldable pub arm_grace : World → Desk → Desk
arm_grace w d =
    if d.pending_question_voiced
    then record d { fsm = Fsm.question_voiced w.now d.fsm; pending_question_voiced = false }
    else d

-- `startToolBatch`: the calls run off the loop.
unfoldable pub start_tool_batch : List FuncCall → Desk → Desk
start_tool_batch calls d =
    emit (starts_tools calls) (record d { fsm = Fsm.tool_pending true d.fsm })

unfoldable pub continue_done : World → List FuncCall → Desk → Desk
continue_done w [] d = maybe_create_response w (finish_active_response_if_drained d)
continue_done w (c ∷ calls) d = start_tool_batch (c ∷ calls) (finish_active_response_if_drained d)

unfoldable pub response_over : World → Desk → Desk
response_over w d = record d {
  response_create_event_id = "";
  active_response_done = true;
  fsm = Fsm.response_done w.now d.fsm;
}

unfoldable pub on_response_done : World → ResponseDone → Desk → Desk
on_response_done w r d =
    if not (matches_active_response r.id d)
    then d
    else continue_done w r.calls
        (report_usage r (arm_grace w (report_status r (settle_attention w r (response_over w d)))))

-- A response that the server refused: only the event that asked for it settles its state.
unfoldable pub reject_create : World → Bool → Desk → Desk
reject_create w rejected_attention d = record d {
  response_create_event_id = "";
  fsm = Fsm.response_done w.now d.fsm;
  pending_continuation = not rejected_attention || d.pending_continuation;
}

pub voice_error_injection : String → Injection
voice_error_injection msg = record {
  role = "system";
  text = concat ("[voice pipeline error] " ∷ msg ∷ " — mention it briefly, once." ∷ []);
  respond = true;
  is_question = false;
  attention = [];
}

unfoldable pub on_error : World → String → String → String → Desk → Desk
unfolding voice_error_injection
on_error w msg code event_id d =
    let matches_pending_create =
      not (is_empty d.response_create_event_id) && str_eq event_id d.response_create_event_id in
    let rejected_attention = matches_pending_create && str_eq event_id d.attention_request_id in
    let d₁ = if rejected_attention then requeue_response_attention d else d in
    if str_eq code "conversation_already_has_active_response"
    then if not matches_pending_create
      then d₁
      else emit (publishes_voice_error msg "suppressed") (reject_create w rejected_attention d₁)
    else queue_inject (voice_error_injection msg) (
        emit (publishes_voice_error msg "")
          (if matches_pending_create then reject_create w rejected_attention d₁ else d₁))

unfoldable pub handle_server : World → ServerEvent → Desk → Desk
handle_server w ev_speech_started d = on_speech_started w d
handle_server w ev_speech_stopped d = on_speech_stopped w d
handle_server w ev_input_audio_committed d = on_committed w d
handle_server w (ev_input_transcript_done t) d = on_transcript publishes_transcript_in t d
handle_server w (ev_output_transcript_done t) d = on_transcript publishes_transcript_out t d
handle_server w (ev_response_created id request_id) d = on_response_created w id request_id d
handle_server w (ev_output_audio_started id) d = on_audio_started w id d
handle_server w (ev_output_audio_stopped id) d = on_audio_stopped w id d
handle_server w (ev_output_audio_cleared id) d = on_audio_cleared w id d
handle_server w (ev_response_done r) d = on_response_done w r d
handle_server w (ev_error msg code event_id) d = on_error w msg code event_id d
handle_server w ev_other d = d
