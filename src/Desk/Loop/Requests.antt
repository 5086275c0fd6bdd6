-- ===== src/Desk/Loop/Requests.antt =====
-- internal/desk/desk.go: over any turns of the loop, one response is asked for at a time.
use thornhill.Base.{
  ℕ, ◌+◌, ◌≤◌, ◌≡◌, refl, ◌∙◌, Bool, false, Option, none, some, List, [], ◌∷◌, String, arith, ◌||◌,
}
use thornhill.Desk.Fsm
use thornhill.Desk.Fsm.{FsmConfig, Ticked, ParkReason, explicit, live, quiet, parked}
use thornhill.Desk.Session.{
  Injection, FuncCall, outputs_function, injects_message, publishes_state, cancels_response, World,
  Desk, new_desk, emit, queue_urgent, request_response_for, inject_user_text, request_park,
}
use thornhill.Desk.Loop.{
  Turn, server, finished, clock, typed, park_asked, briefed, turn, turns, start, continues,
  send_outputs, finish_tool_batch, next_injection, from_retry, from_lanes, do_inject, injected,
  flush_injection, finish_park, after_tick, on_tick, reason_text,
}
use thornhill.Desk.Loop.Budget.{
  creates, is_end, budget, budget-emit, budget-retry, budget-request, budget-maybe, budget-queue,
}
use thornhill.Desk.Loop.ServerBudget.{budget-same, budget-handle_server}

-- What a turn may add to the requests that may be sent.
abbrev is_end_turn : Desk → Turn → ℕ
is_end_turn d (server ev) = is_end d ev
is_end_turn d _ = 0

budget-send_outputs :
    (w : World) (batch : List (FuncCall × String)) (d : Desk)
    → budget (send_outputs w batch d).0 ≡ budget d
unfolding send_outputs
budget-send_outputs w [] d = refl
budget-send_outputs w ((c, output) ∷ batch) d =
    let d₁ = emit (outputs_function c.call_id output) d in
    ground (
      arith,
      budget-send_outputs w batch d₁,
      budget-emit (outputs_function c.call_id output) d refl,
    )

budget-tool_pending :
    (b p : Bool) (d : Desk)
    → budget (record d { fsm = Fsm.tool_pending b d.fsm; pending_continuation = p }) ≡ budget d
unfolding budget Fsm.tool_pending
budget-tool_pending b p d = refl

budget-finished :
    (w : World) (batch : List (FuncCall × String)) (d : Desk)
    → budget (finish_tool_batch w batch d) ≡ budget d
unfolding finish_tool_batch
budget-finished w batch d =
    let d₁ = (send_outputs w batch d).0 in
    let p = continues batch || d₁.pending_continuation in
    ground (
      arith,
      budget-send_outputs w batch d,
      budget-tool_pending false d₁.pending_continuation d₁,
      budget-tool_pending false p d₁,
      budget-maybe w (record d₁ { fsm = Fsm.tool_pending false d₁.fsm; pending_continuation = p }),
    )

budget-do_inject : (w : World) (i : Injection) (d : Desk) → budget (do_inject w i d).0 ≡ budget d
unfolding do_inject
budget-do_inject w i d =
    let d₁ = emit (injects_message i.role i.text) d in
    ground (
      arith,
      budget-retry i d,
      budget-emit (injects_message i.role i.text) d refl,
      budget-request w i.attention i d₁,
      budget-retry i (request_response_for w i.attention i d₁).0,
    )

-- Taking an injection leaves what was sent and the lifecycle as they are.
abbrev Taken : Desk → Option (Injection × Desk) → Type 0
Taken d none = Unit {0}
Taken d (some (i, d')) = budget d' ≡ budget d

from_lanes-Taken :
    (urgent inject : List Injection) (d : Desk) → Taken d (from_lanes urgent inject d)
unfolding from_lanes
from_lanes-Taken (i ∷ urgent) inject d = budget-same d (record d { urgent = urgent }) refl refl
from_lanes-Taken [] (i ∷ inject) d = budget-same d (record d { inject = inject }) refl refl
from_lanes-Taken [] [] d = tt

next_injection-Taken : (o : Option Injection) (d : Desk) → Taken d (from_retry o d)
unfolding from_retry
next_injection-Taken (some i) d = budget-same d (record d { attention_retry = none }) refl refl
next_injection-Taken none d = from_lanes-Taken d.urgent d.inject d

budget-injected :
    (w : World) (o : Option (Injection × Desk)) (d : Desk)
    → Taken d o
    → budget (injected w o d) ≡ budget d
unfolding injected
budget-injected w none d t = refl
budget-injected w (some (i, d₁)) d t =
    let d₂ = (do_inject w i d₁).0 in
    let d₃ = record d₂ { last_injection = w.now; pending_question_voiced = i.is_question } in
    ground (arith, budget-do_inject w i d₁, budget-same d₂ d₃ refl refl)

budget-flush : (w : World) (d : Desk) → budget (flush_injection w d) ≡ budget d
unfolding flush_injection next_injection
budget-flush w d = ground (
  arith,
  budget-injected w (from_retry d.attention_retry d) d (next_injection-Taken d.attention_retry d),
)

tick_in_flight : (now : ℕ) (f : Fsm.Fsm) → (Fsm.tick now f).next.in_flight ≡ f.in_flight
unfolding Fsm.tick
tick_in_flight now f = ground arith

budget-finish_park : (why : ParkReason) (d : Desk) → budget (finish_park why d) ≡ budget d
unfolding finish_park
budget-finish_park why d = ground (
  arith,
  budget-emit (publishes_state parked (reason_text why)) d refl,
  budget-emit (publishes_state parked (reason_text why)) (emit cancels_response d) refl,
  budget-emit cancels_response d refl,
)

budget-after_tick :
    (t : Ticked) (d : Desk)
    → t.next.in_flight ≡ d.fsm.in_flight
    → budget (after_tick t d).0 ≡ budget d
unfolding after_tick
budget-after_tick t d h =
    let d₁ = record d { fsm = t.next } in
    let d₂ = emit (publishes_state quiet "") d₁ in
    ground (
      arith,
      budget-same d d₁ refl h,
      budget-emit (publishes_state quiet "") d₁ refl,
      budget-finish_park t.reason d₁,
      budget-finish_park t.reason d₂,
      budget-finish_park explicit d₁,
      budget-finish_park explicit d₂,
    )

budget-on_tick : (w : World) (d : Desk) → budget (on_tick w d).0 ≡ budget d
unfolding on_tick
budget-on_tick w d =
    let d₁ = flush_injection w d in
    budget-after_tick (Fsm.tick w.now d₁.fsm) d₁ (tick_in_flight w.now d₁.fsm) ∙ budget-flush w d

budget-urgent : (i : Injection) (d : Desk) → budget (queue_urgent i d) ≡ budget d
unfolding queue_urgent budget
budget-urgent i d = ground arith

budget-request_park : (w : World) (d : Desk) → budget (request_park w d) ≡ budget d
unfolding request_park Fsm.request_park
budget-request_park w d =
    let d₁ = record d { fsm = Fsm.request_park w.now explicit d.fsm } in
    budget-emit (publishes_state Fsm.parking "explicit") d₁ refl
    ∙ budget-same d d₁ refl (ground arith)

budget-turn :
    (w : World) (t : Turn) (d : Desk) → budget (turn d (w, t)) ≤ budget d + is_end_turn d t
unfolding turn
budget-turn w (server ev) d = budget-handle_server w ev d
budget-turn w (finished batch) d = omega (arith, budget-finished w batch d)
budget-turn w clock d = omega (arith, budget-on_tick w d)
budget-turn w (typed text) d = unfold inject_user_text in omega (arith, budget-queue _ d)
budget-turn w park_asked d = omega (arith, budget-request_park w d)
budget-turn w (briefed i) d = omega (arith, budget-urgent i d)

-- The events that end the response in flight or refuse the one asked for, each when it is met.
unfoldable pub ends : Desk → List (World × Turn) → ℕ
ends d [] = 0
ends d ((w, t) ∷ ts) = is_end_turn d t + ends (turn d (w, t)) ts

budget-turns : (d : Desk) (ts : List (World × Turn)) → budget (turns d ts) ≤ budget d + ends d ts
unfolding turns ends
budget-turns d [] = omega arith
budget-turns d ((w, t) ∷ ts) = omega (arith, budget-turn w t d, budget-turns (turn d (w, t)) ts)

-- In a session over any turns of its loop, whatever the server, the tools, the clock and the operator
-- do, the responses asked for are at most one more than the events that ended or refused one: each such
-- event names, when it is met, the response that is in flight or the request that was sent for one,
-- and a stale event does not count.
pub creates_bounded :
    (c : FsmConfig) (token : String) (w : World) (ts : List (World × Turn))
    → creates (turns (start w (new_desk c token)) ts).sent
      ≤ 1 + ends (start w (new_desk c token)) ts
unfolding start new_desk Fsm.new_fsm Fsm.call_started emit budget
creates_bounded c token w ts = omega (arith, budget-turns (start w (new_desk c token)) ts)
