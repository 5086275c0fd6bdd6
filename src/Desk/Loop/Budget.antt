-- ===== src/Desk/Loop/Budget.antt =====
-- internal/desk/desk.go: the loop asks for one response at a time.
use thornhill.Base.{
  ℕ, ◌+◌, ◌%◌, ◌^◌, ◌≤◌, ◌≡◌, refl, ◌⊎◌, inl, inr, Bool, true, false, List, [], ◌∷◌, ◌++◌, ◌∙◌,
  String, str_eq, is_empty, eq_iff, not, ◌&&◌, concat, arith, if◌then◌else◌,
}
use thornhill.Desk.Fsm
use thornhill.Desk.Fsm.{FsmConfig, Ticked}
use thornhill.Desk.Session.{
  Injection, FuncCall, ResponseDone, ServerEvent, ev_response_done, ev_error, Effect,
  creates_response, marks_spoken, starts_tools, publishes_voice_error, publishes_usage, adds_usage,
  World, Desk, no_injection, create_event_id, emit, queue_inject, queue_attention_retry,
  reset_response_attention, requeue_response_attention, admitted_response, request_response_for,
  request_response, maybe_create_response,
}
use thornhill.Desk.Server.{
  maybe_acknowledge_attention, finish_active_response_if_drained, settle_attention, settle_matched,
  report_status, report_usage, arm_grace, start_tool_batch, continue_done, on_response_done,
  response_over, reject_create, matches_active_response,
}

abbrev pub is_create : Effect → ℕ
is_create (creates_response id) = 1
is_create _ = 0

-- The requests for a response among what was sent.
abbrev pub creates : List Effect → ℕ
creates [] = 0
creates (e ∷ es) = is_create e + creates es

pub creates-append :
    (xs : List Effect) (e : Effect) → creates (xs ++ e ∷ []) ≡ creates xs + is_create e
creates-append [] e = omega arith
creates-append (x ∷ xs) e = omega (arith, creates-append xs e)

-- The requests sent so far, and one more that may be sent while none is in flight.
unfoldable pub budget : Desk → ℕ
budget d = creates d.sent + (if d.fsm.in_flight then 0 else 1)

pub budget-emit : (e : Effect) (d : Desk) → is_create e ≡ 0 → budget (emit e d) ≡ budget d
unfolding budget emit
budget-emit e d h = omega (arith, creates-append d.sent e)

pub budget-retry : (i : Injection) (d : Desk) → budget (queue_attention_retry i d) ≡ budget d
unfolding budget queue_attention_retry
budget-retry i d = ground arith

pub budget-requeue : (d : Desk) → budget (requeue_response_attention d) ≡ budget d
unfolding budget requeue_response_attention reset_response_attention queue_attention_retry
budget-requeue d = ground arith

pub budget-admitted :
    (w : World) (a : List ℕ) (i : Injection) (d : Desk)
    → d.fsm.in_flight ≡ true
    → budget (admitted_response w a i d).0 ≡ creates d.sent + 1
unfolding budget admitted_response emit requeue_response_attention reset_response_attention
    queue_attention_retry Fsm.response_done create_event_id
budget-admitted w a i d h = ground (
  arith,
  creates-append d.sent (creates_response (create_event_id w.now ((d.response_seq + 1) % 2 ^ 64))),
)

try_start_cases :
    (now : ℕ) (f : Fsm.Fsm)
    → (Fsm.try_start_response now f ≡ (f, false))
      ⊎ ((Fsm.try_start_response now f ≡ (record f { in_flight = true; last_speech = now }, true))
          × (f.in_flight ≡ false))
unfolding Fsm.try_start_response
try_start_cases now f = ground arith

pub budget-request :
    (w : World) (a : List ℕ) (i : Injection) (d : Desk)
    → budget (request_response_for w a i d).0 ≡ budget d
unfolding request_response_for budget
budget-request w a i d = elim (try_start_cases w.now d.fsm) [
  | inl refused ↦ rw refused
  | inr (admitted, idle) ↦
      rw (admitted, idle)
        (budget-admitted w a i
          (record d { fsm = record (d.fsm) { in_flight = true; last_speech = w.now } }) refl)
]

pub budget-maybe : (w : World) (d : Desk) → budget (maybe_create_response w d) ≡ budget d
unfolding maybe_create_response request_response budget
budget-maybe w d = ground (arith, budget-request w [] no_injection d)

pub budget-acknowledge :
    (w : World) (d : Desk) → budget (maybe_acknowledge_attention w d) ≡ budget d
unfolding maybe_acknowledge_attention budget reset_response_attention emit
budget-acknowledge w d =
    ground
      (arith, creates-append d.sent (marks_spoken d.attention_claim_token d.response_attention))

pub budget-finish : (d : Desk) → budget (finish_active_response_if_drained d) ≡ budget d
unfolding finish_active_response_if_drained budget
budget-finish d = ground arith

pub budget-quiet : (d d' : Desk) → d'.sent ≡ d.sent → d'.fsm ≡ d.fsm → budget d' ≡ budget d
unfolding budget
budget-quiet d d' s f = rw (s, f)

-- Whether an event is about something that is awaited.
abbrev pub names : String → String → ℕ
names id awaited = if not (is_empty id) && str_eq id awaited then 1 else 0

-- An event that names the response in flight as done, or the request that was sent for one as refused.
abbrev pub is_end : Desk → ServerEvent → ℕ
is_end d (ev_response_done r) = names r.id d.active_response_id
is_end d (ev_error msg code id) = names id d.response_create_event_id
is_end d _ = 0

pub budget-settle_matched :
    (w : World) (c : Bool) (d : Desk) → budget (settle_matched w c d) ≡ budget d
unfolding settle_matched budget
budget-settle_matched w c d = ground (
  arith,
  budget-acknowledge w (record d { attention_response_done = true }),
  budget-requeue (maybe_acknowledge_attention w (record d { attention_response_done = true })),
  budget-requeue d,
)

pub budget-settle :
    (w : World) (r : ResponseDone) (d : Desk) → budget (settle_attention w r d) ≡ budget d
unfolding settle_attention
budget-settle w r d = ground (arith, budget-settle_matched w (str_eq r.status "completed") d)

pub budget-status : (r : ResponseDone) (d : Desk) → budget (report_status r d) ≡ budget d
unfolding report_status
budget-status r d = ground (
  arith,
  budget-emit
      (publishes_voice_error (concat ("voice response ended with status " ∷ r.status ∷ []))
        r.status)
      d refl,
)

pub budget-usage : (r : ResponseDone) (d : Desk) → budget (report_usage r d) ≡ budget d
unfolding report_usage
budget-usage r d =
    let d₁ = emit (adds_usage r.input_tokens r.output_tokens) d in
    ground (
      arith,
      budget-emit (publishes_usage r.input_tokens r.output_tokens) d₁ refl,
      budget-emit (adds_usage r.input_tokens r.output_tokens) d refl,
    )

pub budget-grace : (w : World) (d : Desk) → budget (arm_grace w d) ≡ budget d
unfolding arm_grace budget Fsm.question_voiced
budget-grace w d = ground arith

pub budget-tools : (calls : List FuncCall) (d : Desk) → budget (start_tool_batch calls d) ≡ budget d
unfolding start_tool_batch budget Fsm.tool_pending emit
budget-tools calls d = omega (arith, creates-append d.sent (starts_tools calls))

pub budget-continue :
    (w : World) (calls : List FuncCall) (d : Desk) → budget (continue_done w calls d) ≡ budget d
unfolding continue_done
budget-continue w [] d = budget-maybe w (finish_active_response_if_drained d) ∙ budget-finish d
budget-continue w (c ∷ calls) d =
    budget-tools (c ∷ calls) (finish_active_response_if_drained d) ∙ budget-finish d

pub budget-done_state :
    (now : ℕ) (d d' : Desk)
    → d'.sent ≡ d.sent
    → d'.fsm ≡ Fsm.response_done now d.fsm
    → budget d' ≤ budget d + 1
unfolding budget Fsm.response_done
budget-done_state now d d' s f = ground arith

pub budget-on_response_done :
    (w : World) (r : ResponseDone) (d : Desk)
    → budget (on_response_done w r d) ≤ budget d + is_end d (ev_response_done r)
unfolding on_response_done response_over matches_active_response
budget-on_response_done w r d =
    let d₁ = response_over w d in
    let d₂ = settle_attention w r d₁ in
    let d₃ = report_status r d₂ in
    let d₄ = arm_grace w d₃ in
    ground (
      arith,
      eq_iff r.id d.active_response_id,
      budget-done_state w.now d d₁ refl refl,
      budget-settle w r d₁,
      budget-status r d₂,
      budget-grace w d₃,
      budget-usage r d₄,
      budget-continue w r.calls (report_usage r d₄),
    )

pub budget-reject : (w : World) (b : Bool) (d : Desk) → budget (reject_create w b d) ≤ budget d + 1
unfolding reject_create
budget-reject w b d = budget-done_state w.now d _ refl refl

pub budget-queue : (i : Injection) (d : Desk) → budget (queue_inject i d) ≡ budget d
unfolding queue_inject budget
budget-queue i d = ground arith
