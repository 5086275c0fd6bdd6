-- ===== src/Desk/Loop/ServerBudget.antt =====
-- internal/desk/desk.go: what each server event does to the requests for responses.
use thornhill.Base.{
  ◌+◌, ◌≤◌, ◌≡◌, refl, ◌∙◌, true, String, arith, if◌then◌else◌, str_eq, is_empty, not, ◌&&◌, eq_iff,
}
use thornhill.Desk.Fsm
use thornhill.Desk.Fsm.{FsmConfig, Ticked, ParkReason, explicit, live, quiet, parked}
use thornhill.Desk.Session.{
  ServerEvent, ev_speech_started, ev_speech_stopped, ev_input_audio_committed,
  ev_input_transcript_done, ev_output_transcript_done, ev_response_created, ev_output_audio_started,
  ev_output_audio_stopped, ev_output_audio_cleared, ev_response_done, ev_error, ev_other, Effect,
  publishes_voice_error, publishes_state, publishes_transcript_in, publishes_transcript_out, World,
  Desk, emit, requeue_response_attention,
}
use thornhill.Desk.Server.{
  handle_server, publish_live, finish_active_response_if_drained, on_speech_started,
  on_speech_stopped, on_committed, on_transcript, on_response_created, audio_over, settle_stopped,
  settle_cleared, on_audio_started, on_audio_stopped, on_audio_cleared, reject_create,
  voice_error_injection, on_error,
}
use thornhill.Desk.Loop.Budget.{
  is_create, is_end, budget, budget-emit, budget-requeue, budget-maybe, budget-acknowledge,
  budget-finish, budget-on_response_done, budget-reject, budget-queue,
}

budget-on_error :
    (w : World) (msg code id : String) (d : Desk)
    → budget (on_error w msg code id d) ≤ budget d + is_end d (ev_error msg code id)
unfolding on_error
budget-on_error w msg code id d =
    let m = not (is_empty d.response_create_event_id) && str_eq id d.response_create_event_id in
    let ra = m && str_eq id d.attention_request_id in
    let d₁ = if ra then requeue_response_attention d else d in
    let d₂ = reject_create w ra d₁ in
    ground (
      arith,
      eq_iff id d.response_create_event_id,
      budget-requeue d,
      budget-reject w ra d₁,
      budget-emit (publishes_voice_error msg "suppressed") d₂ refl,
      budget-emit (publishes_voice_error msg "") d₂ refl,
      budget-emit (publishes_voice_error msg "") d₁ refl,
      budget-queue (voice_error_injection msg) (emit (publishes_voice_error msg "") d₁),
      budget-queue (voice_error_injection msg) (emit (publishes_voice_error msg "") d₂),
    )

-- A state in which at most the times and the busy marks but `in_flight` differ.
pub budget-same :
    (d d' : Desk) → d'.sent ≡ d.sent → d'.fsm.in_flight ≡ d.fsm.in_flight → budget d' ≡ budget d
unfolding budget
budget-same d d' s f = rw (s, f)

budget-publish_live : (d : Desk) → budget (publish_live d) ≡ budget d
unfolding publish_live
budget-publish_live d = ground (arith, budget-emit (publishes_state live "") d refl)

budget-speech_started : (w : World) (d : Desk) → budget (on_speech_started w d) ≡ budget d
unfolding on_speech_started Fsm.speech_started
budget-speech_started w d =
    let d' = record d { fsm = Fsm.speech_started w.now d.fsm } in
    budget-publish_live d' ∙ budget-same d d' refl refl

budget-speech_stopped : (w : World) (d : Desk) → budget (on_speech_stopped w d) ≡ budget d
unfolding on_speech_stopped Fsm.speech_stopped
budget-speech_stopped w d =
    let d' = record d { fsm = Fsm.speech_stopped w.now d.fsm } in
    budget-publish_live d' ∙ budget-same d d' refl refl

budget-committed : (w : World) (d : Desk) → budget (on_committed w d) ≡ budget d
unfolding on_committed
budget-committed w d =
    let d' = record d { pending_user_turn = true } in budget-maybe w d' ∙ budget-same d d' refl refl

budget-transcript :
    (p : String → Effect) (t : String) (d : Desk)
    → is_create (p t) ≡ 0
    → budget (on_transcript p t d) ≡ budget d
unfolding on_transcript
budget-transcript p t d h = ground (arith, budget-emit (p t) d h)

budget-created :
    (w : World) (id q : String) (d : Desk) → budget (on_response_created w id q d) ≤ budget d
unfolding on_response_created budget Fsm.response_started
budget-created w id q d = ground arith

budget-audio_started :
    (w : World) (id : String) (d : Desk) → budget (on_audio_started w id d) ≡ budget d
unfolding on_audio_started budget Fsm.audio_started
budget-audio_started w id d = ground arith

budget-audio_over : (w : World) (d : Desk) → budget (audio_over w d) ≡ budget d
unfolding audio_over Fsm.audio_stopped budget
budget-audio_over w d = refl

budget-settle_stopped :
    (w : World) (id : String) (d : Desk) → budget (settle_stopped w id d) ≡ budget d
unfolding settle_stopped
budget-settle_stopped w id d =
    let d' = record d { attention_audio_stopped = true } in
    ground (arith, budget-acknowledge w d', budget-same d d' refl refl)

budget-audio_stopped :
    (w : World) (id : String) (d : Desk) → budget (on_audio_stopped w id d) ≡ budget d
unfolding on_audio_stopped
budget-audio_stopped w id d =
    let d₁ = audio_over w d in
    let d₂ = settle_stopped w id d₁ in
    ground (
      arith,
      budget-audio_over w d,
      budget-settle_stopped w id d₁,
      budget-finish d₂,
      budget-maybe w (finish_active_response_if_drained d₂),
    )

budget-audio_cleared :
    (w : World) (id : String) (d : Desk) → budget (on_audio_cleared w id d) ≡ budget d
unfolding on_audio_cleared settle_cleared
budget-audio_cleared w id d =
    let d₁ = audio_over w d in
    let d₂ = settle_cleared id d₁ in
    ground (
      arith,
      budget-audio_over w d,
      budget-requeue d₁,
      budget-finish d₂,
      budget-maybe w (finish_active_response_if_drained d₂),
    )

-- What a server event may add to the requests that may be sent.
pub budget-handle_server :
    (w : World) (ev : ServerEvent) (d : Desk)
    → budget (handle_server w ev d) ≤ budget d + is_end d ev
unfolding handle_server
budget-handle_server w ev_speech_started d = omega (arith, budget-speech_started w d)
budget-handle_server w ev_speech_stopped d = omega (arith, budget-speech_stopped w d)
budget-handle_server w ev_input_audio_committed d = omega (arith, budget-committed w d)
budget-handle_server w (ev_input_transcript_done t) d =
    omega (arith, budget-transcript publishes_transcript_in t d refl)
budget-handle_server w (ev_output_transcript_done t) d =
    omega (arith, budget-transcript publishes_transcript_out t d refl)
budget-handle_server w (ev_response_created id q) d = omega (arith, budget-created w id q d)
budget-handle_server w (ev_output_audio_started id) d = omega (arith, budget-audio_started w id d)
budget-handle_server w (ev_output_audio_stopped id) d = omega (arith, budget-audio_stopped w id d)
budget-handle_server w (ev_output_audio_cleared id) d = omega (arith, budget-audio_cleared w id d)
budget-handle_server w (ev_response_done r) d = budget-on_response_done w r d
budget-handle_server w (ev_error msg code id) d = budget-on_error w msg code id d
budget-handle_server w ev_other d = omega arith
