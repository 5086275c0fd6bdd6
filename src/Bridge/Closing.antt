-- ===== src/Bridge/Closing.antt =====
-- internal/bridge/hermes.go: the event loop of a turn ends, and on what ground.
pub mod Start
pub mod Output
use thornhill.Base.{
  ℕ, ◌≡◌, ◌≢◌, refl, sym, ◌∙◌, ap, Bool, true, false, not, ◌&&◌, ◌||◌, ◌⊎◌, inl, inr, Option, none,
  some, List, [], ◌∷◌, ◌++◌, String, is_empty, trim_space, arith, if◌then◌else◌, if_elim,
  Bool-cases,
}
use thornhill.Store.Job.{Job, Approval}
use thornhill.Store.Jobs.{
  Result, ok, err, Updated, Error, not_found, ambiguous, approval_stale, dispatch_is_paused, find,
  update_job,
}
use thornhill.Bridge.{
  Call, start, stop, Hermes, World, Outcome, Refusal, store_error, job_running, publish, sends,
}
use thornhill.Bridge.Parking.{park_approval_locked}
use thornhill.Bridge.Ownership.{set_run_id}
use thornhill.Bridge.Request.{RunEvent, handle_approval_request}
use thornhill.Bridge.Turn.{
  Input, message_delta, tool_started, tool_completed, approval_request, run_completed, run_failed,
  run_cancelled, other_event, closed, parking_due, idle, context_ended, others, TurnEnd, replied,
  approval_parked, provider_cancelled, provider_failed, request_refused, not_started, unsubscribed,
  stopped, Turn, Progressed, after_request, answered, arms, parked_or, parks, or_rest, started_turn,
  park_due, waits_for, turn_step, turn_loop, StartAnswer, subscribed, started_with, owned_turn,
  run_turn, stops, superseded, start_failed, new_turn, start_mut,
}

abbrev pub is_final : Input → Bool
is_final (closed e c) = true
is_final (idle after) = true
is_final (context_ended e) = true
is_final (run_failed e) = true
is_final run_cancelled = true
is_final _ = false

abbrev pub is_completed : Input → Bool
is_completed (run_completed out) = true
is_completed _ = false

abbrev pub is_failure : Input → Bool
is_failure (run_failed e) = true
is_failure _ = false

abbrev pub is_cancellation : Input → Bool
is_cancellation run_cancelled = true
is_cancellation _ = false

abbrev pub is_request : Input → Bool
is_request (approval_request ev) = true
is_request _ = false

abbrev pub is_parking : Input → Bool
is_parking parking_due = true
is_parking _ = false

abbrev pub met : (Input → Bool) → List (World × Input) → Bool
met p [] = false
met p ((w, input) ∷ inputs) = p input || met p inputs

-- The last call is the stop of the run.
abbrev pub StopsLast : String → Hermes → Type 0
StopsLast run h = (before : List Call) × (h.calls ≡ before ++ stop run ∷ [])

-- What an end of the loop rests on.
abbrev pub Grounds : String → Bool → List (World × Input) → Turn → TurnEnd → Type 0
Grounds run terminal inputs t (replied out) = (terminal ≡ true) ⊎ (met is_completed inputs ≡ true)
Grounds run terminal inputs t approval_parked = met is_parking inputs ≡ true
Grounds run terminal inputs t provider_cancelled = met is_cancellation inputs ≡ true
Grounds run terminal inputs t (provider_failed e) = met is_failure inputs ≡ true
Grounds run terminal inputs t (request_refused r) = met is_request inputs ≡ true
Grounds run terminal inputs t (not_started e) = ⊥
Grounds run terminal inputs t (unsubscribed e) = ⊥
Grounds run terminal inputs t (stopped e) = StopsLast run t.hermes

-- The ground of one round, for a round that ends the loop, and what a round that does not leaves.
abbrev EndHolds : String → (World × Input) → Turn → Turn → Option TurnEnd → Type 0
EndHolds run wi t t' (some e) = Grounds run t.terminal (wi ∷ []) t' e
EndHolds run wi t t' none =
    (is_final wi.1 ≡ false)
    × ((t'.terminal ≡ true) → (t.terminal ≡ true) ⊎ (is_completed wi.1 ≡ true))

abbrev RoundHolds : String → (World × Input) → Turn → Progressed → Type 0
RoundHolds run wi t p = EndHolds run wi t p.turn p.ended

answered-Holds :
    (w : World) (run : String) (ev : RunEvent) (t t' : Turn) (row : Option Job) (e : Option Refusal)
    → (t'.terminal ≡ t.terminal)
    → RoundHolds run (w, approval_request ev) t (answered t' row e)
unfolding answered arms
answered-Holds w run ev t t' row (some e) q = refl
answered-Holds w run ev t t' none none q = refl
answered-Holds w run ev t t' (some j) none q =
    elim (waits_for (some j)) as (λ o. RoundHolds run (w, approval_request ev) t (arms t' o)) [
      | none ↦ (refl, λ x. inl (sym q ∙ x))
      | some a ↦ (refl, λ x. inl (sym q ∙ x))
    ]

parked_or-Holds :
    (w : World) (run : String) (t t' : Turn) (e : Option Refusal)
    → (t'.terminal ≡ t.terminal)
    → RoundHolds run (w, parking_due) t (parked_or t' e)
unfolding parked_or
parked_or-Holds w run t t' none q = refl
parked_or-Holds w run t t' (some (store_error approval_stale)) q = (refl, λ x. inl (sym q ∙ x))
parked_or-Holds w run t t' (some e) q = (refl, λ x. inl (sym q ∙ x))

parks-Holds :
    (w wi : World) (id run : String) (t : Turn) (o : Option Approval)
    → RoundHolds run (wi, parking_due) t (parks w id run t o)
unfolding parks
parks-Holds w wi id run t none = (refl, λ x. inl x)
parks-Holds w wi id run t (some a) =
    let o =
      park_approval_locked w id run a.id a.decision_nonce
        "operator was silent past the approval resource threshold" t.hermes in
    parked_or-Holds wi run t (record t { hermes = o.hermes }) o.error refl

due-Holds :
    (w wi : World) (id run : String) (t : Turn) (row : Option Job)
    → RoundHolds run (wi, parking_due) t (park_due w id run t row)
unfolding park_due
due-Holds w wi id run t none = (refl, λ x. inl x)
due-Holds w wi id run t (some j) = parks-Holds w wi id run t (waits_for (some j))

round-Holds :
    (w : World) (id run : String) (input : Input) (t : Turn)
    → RoundHolds run (w, input) t (turn_step w id run input t)
unfolding turn_step after_request
round-Holds w id run (message_delta d) t = (refl, λ x. inl x)
round-Holds w id run (tool_started tool preview) t = (refl, λ x. inl x)
round-Holds w id run (tool_completed tool preview) t = (refl, λ x. inl x)
round-Holds w id run (approval_request ev) t =
    let o = handle_approval_request w id run ev t.hermes in
    answered-Holds w run ev t (record t { hermes = o.hermes }) (find id o.hermes.db.jobs) o.error
      refl
round-Holds w id run (run_completed out) t = (refl, λ x. inr refl)
round-Holds w id run (run_failed e) t = refl
round-Holds w id run run_cancelled t = refl
round-Holds w id run other_event t = (refl, λ x. inl x)
round-Holds w id run (closed (some e) none) t = (t.hermes.calls, refl)
round-Holds w id run (closed (some e) (some c)) t = (t.hermes.calls, refl)
round-Holds w id run (closed none c) t = elim (Bool-cases t.terminal) [
  | inl q ↦ rw q (inl refl)
  | inr q ↦ rw q (t.hermes.calls, refl)
]
round-Holds w id run parking_due t =
    if_elim (λ p. RoundHolds run (w, parking_due) t p) t.armed
      (due-Holds w w id run t (find id t.hermes.db.jobs)) (refl, λ x. inl x)
round-Holds w id run (idle after) t = (t.hermes.calls, refl)
round-Holds w id run (context_ended e) t = (t.hermes.calls, refl)
round-Holds w id run (others f) t = (refl, λ x. inl x)

-- What a reason keeps when more was met before it.
later-Grounds :
    (run : String) (before : Bool) (first : World × Input) (inputs : List (World × Input))
    (t : Turn) (terminal : Bool) (e : TurnEnd)
    → ((terminal ≡ true) → (before ≡ true) ⊎ (is_completed first.1 ≡ true))
    → Grounds run terminal inputs t e
    → Grounds run before (first ∷ inputs) t e
later-Grounds run before first inputs t terminal (replied out) k g = ground (arith, k, g)
later-Grounds run before first inputs t terminal approval_parked k g = ground (arith, g)
later-Grounds run before first inputs t terminal provider_cancelled k g = ground (arith, g)
later-Grounds run before first inputs t terminal (provider_failed e) k g = ground (arith, g)
later-Grounds run before first inputs t terminal (request_refused e) k g = ground (arith, g)
later-Grounds run before first inputs t terminal (not_started e) k g = g
later-Grounds run before first inputs t terminal (unsubscribed e) k g = g
later-Grounds run before first inputs t terminal (stopped e) k g = g

first-Grounds :
    (run : String) (before : Bool) (first : World × Input) (inputs : List (World × Input))
    (t : Turn) (e : TurnEnd)
    → Grounds run before (first ∷ []) t e
    → Grounds run before (first ∷ inputs) t e
first-Grounds run before first inputs t (replied out) g = ground (arith, g)
first-Grounds run before first inputs t approval_parked g = ground (arith, g)
first-Grounds run before first inputs t provider_cancelled g = ground (arith, g)
first-Grounds run before first inputs t (provider_failed e) g = ground (arith, g)
first-Grounds run before first inputs t (request_refused e) g = ground (arith, g)
first-Grounds run before first inputs t (not_started e) g = g
first-Grounds run before first inputs t (unsubscribed e) g = g
first-Grounds run before first inputs t (stopped e) g = g

-- The turn has ended, on grounds.
abbrev Ends : String → Bool → List (World × Input) → Progressed → Type 0
Ends run terminal inputs p =
    (e : TurnEnd) × (p.ended ≡ some e) × Grounds run terminal inputs p.turn e

rest-Ends :
    (run : String) (first : World × Input) (inputs : List (World × Input)) (t t' : Turn)
    (end : Option TurnEnd) (rest : Progressed)
    → EndHolds run first t t' end
    → ((met is_final inputs ≡ true) → Ends run t'.terminal inputs rest)
    → (met is_final (first ∷ inputs) ≡ true)
    → Ends run t.terminal (first ∷ inputs) (or_rest (record { turn = t'; ended = end }) rest end)
rest-Ends run first inputs t t' (some e) rest holds later m =
    (e, refl, first-Grounds run t.terminal first inputs t' e holds)
rest-Ends run first inputs t t' none rest (goes, keeps) later m =
    let (e, q, g) = later (ground (arith, goes, m)) in
    (e, q, later-Grounds run t.terminal first inputs rest.turn t'.terminal e keeps g)

pub loop-Ends :
    (id run : String) (inputs : List (World × Input)) (t : Turn)
    → (met is_final inputs ≡ true)
    → Ends run t.terminal inputs (turn_loop id run inputs t)
unfolding turn_loop
loop-Ends id run [] t m = ground (arith, m)
loop-Ends id run ((w, input) ∷ inputs) t m =
    let p = turn_step w id run input t in
    rest-Ends run (w, input) inputs t p.turn p.ended (turn_loop id run inputs p.turn)
      (round-Holds w id run input t) (λ later. loop-Ends id run inputs p.turn later) m
