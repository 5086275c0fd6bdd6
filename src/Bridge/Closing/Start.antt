-- ===== src/Bridge/Closing/Start.antt =====
-- internal/bridge/hermes.go: a whole turn, from the start of its run, ends, and on what ground.
use thornhill.Base.{
  ℕ, ◌≡◌, ◌≢◌, refl, Bool, true, false, ◌⊎◌, inl, inr, Option, none, some, List, String, is_empty,
  arith, if_elim, Bool-cases,
}
use thornhill.Store.Jobs.{Result, ok, err, Updated, update_job}
use thornhill.Bridge.{start, Hermes, World, job_running, publish, sends}
use thornhill.Bridge.Ownership.{set_run_id}
use thornhill.Bridge.Turn.{
  Input, TurnEnd, replied, approval_parked, provider_cancelled, provider_failed, request_refused,
  not_started, unsubscribed, stopped, Turn, Progressed, started_turn, turn_loop, StartAnswer,
  subscribed, started_with, owned_turn, run_turn, stops, superseded, start_failed, new_turn,
  start_mut,
}
use thornhill.Bridge.Closing.Output.{carried, text_after, completes, loop-Reply}
use thornhill.Bridge.Closing.{is_final, met, Grounds, loop-Ends}

-- What the end of a whole turn rests on: it was not started only if no run is known to have begun.
abbrev pub TurnGrounds : StartAnswer → List (World × Input) → Turn → TurnEnd → Type 0
TurnGrounds a inputs t (replied out) =
    (completes inputs ≡ true) × (out ≡ text_after "" (carried inputs))
TurnGrounds a inputs t (not_started why) = (a.start_error ≢ none) ⊎ (is_empty a.run_id ≡ true)
TurnGrounds a inputs t (unsubscribed why) = a.request_error ≡ some why
TurnGrounds a inputs t e = Grounds a.run_id false inputs t e

abbrev TurnEnds : StartAnswer → List (World × Input) → Progressed → Type 0
TurnEnds a inputs p = (e : TurnEnd) × (p.ended ≡ some e) × TurnGrounds a inputs p.turn e

loop-TurnEnds :
    (a : StartAnswer) (inputs : List (World × Input)) (p : Progressed) (e : TurnEnd)
    → (p.ended ≡ some e)
    → Grounds a.run_id false inputs p.turn e
    → ((out : String)
        → p.ended ≡ some (replied out)
        → (completes inputs ≡ true) × (out ≡ text_after "" (carried inputs)))
    → TurnEnds a inputs p
loop-TurnEnds a inputs p (replied out) q g said = (replied out, q, said out q)
loop-TurnEnds a inputs p approval_parked q g said = (approval_parked, q, g)
loop-TurnEnds a inputs p provider_cancelled q g said = (provider_cancelled, q, g)
loop-TurnEnds a inputs p (provider_failed e) q g said = (provider_failed e, q, g)
loop-TurnEnds a inputs p (request_refused e) q g said = (request_refused e, q, g)
loop-TurnEnds a inputs p (not_started e) q g said = ground (arith, g)
loop-TurnEnds a inputs p (unsubscribed e) q g said = ground (arith, g)
loop-TurnEnds a inputs p (stopped e) q g said = (stopped e, q, g)

stops-TurnEnds :
    (a : StartAnswer) (inputs : List (World × Input)) (why : String) (t : Turn)
    → TurnEnds a inputs (stops a.run_id why t)
stops-TurnEnds a inputs why t = (stopped why, refl, (t.hermes.calls, refl))

subscribed-TurnEnds :
    (a : StartAnswer) (inputs : List (World × Input)) (id : String) (h : Hermes)
    (request answer : Option String)
    → (a.request_error ≡ request)
    → (met is_final inputs ≡ true)
    → TurnEnds a inputs (subscribed a.run_id request answer inputs id h)
unfolding subscribed
subscribed-TurnEnds a inputs id h (some e) answer r m = (unsubscribed e, refl, r)
subscribed-TurnEnds a inputs id h none (some e) r m = stops-TurnEnds a inputs e (new_turn h)
subscribed-TurnEnds a inputs id h none none r m =
    let (e, q, g) = loop-Ends id a.run_id inputs (new_turn h) m in
    loop-TurnEnds a inputs (turn_loop id a.run_id inputs (new_turn h)) e q g
      (λ out h'. from_start (loop-Reply id a.run_id inputs (new_turn h) h'))
  where
    from_start :
        {out : String}
        → ((false ≡ true) ⊎ (completes inputs ≡ true)) × (out ≡ text_after "" (carried inputs))
        → (completes inputs ≡ true) × (out ≡ text_after "" (carried inputs))
    from_start (inr c, s) = (c, s)
    from_start (inl c, s) = cc

started-TurnEnds :
    (a : StartAnswer) (inputs : List (World × Input)) (id : String) (h : Hermes)
    (r : Result Updated)
    → (met is_final inputs ≡ true)
    → TurnEnds a inputs (started_with id a.run_id a inputs h r)
unfolding started_with
started-TurnEnds a inputs id h (err e) m =
    stops-TurnEnds a inputs "persist Hermes run identity; run stopped" (new_turn h)
started-TurnEnds a inputs id h (ok u) m =
    let h' = record h { db = u.db } in
    if_elim (λ p. TurnEnds a inputs p) u.flag
      (subscribed-TurnEnds a inputs id (publish job_running id (some u.job) none none h')
        a.request_error a.subscribe_error refl m)
      (stops-TurnEnds a inputs superseded (new_turn h'))

owned-TurnEnds :
    (w : World) (id : String) (a : StartAnswer) (inputs : List (World × Input)) (r : Hermes × Bool)
    → (met is_final inputs ≡ true)
    → TurnEnds a inputs (owned_turn w id a inputs r)
unfolding owned_turn
owned-TurnEnds w id a inputs (h, false) m = stops-TurnEnds a inputs superseded (new_turn h)
owned-TurnEnds w id a inputs (h, true) m =
    let h' = record h { db = w.meanwhile h.db } in
    started-TurnEnds a inputs id h' (update_job w.now id (start_mut a.run_id) h'.db) m

begun-TurnEnds :
    (w : World) (id : String) (worker : Option ℕ) (a : StartAnswer) (inputs : List (World × Input))
    (h : Hermes) (e : Option String)
    → (a.start_error ≡ e)
    → (met is_final inputs ≡ true)
    → TurnEnds a inputs (started_turn w id worker a inputs h e)
unfolding started_turn
begun-TurnEnds w id worker a inputs h (some e) q m =
    (not_started (start_failed e), refl, inl (λ n. ground (arith, n, q)))
begun-TurnEnds w id worker a inputs h none q m = elim (Bool-cases (is_empty a.run_id)) [
  | inl t ↦
      rw t (
        not_started "Hermes did not return a run_id; start outcome will not be retried",
        refl,
        inr t,
      )
  | inr f ↦ rw f (owned-TurnEnds w id a inputs (set_run_id id worker a.run_id h) m)
]

-- A turn whose event stream ends, falls silent, reports a failure or loses its context ends, and every end
-- has its ground. A reply stands on a run that was reported completed before the stream was closed, and it
-- is the output of the last such report that is not blank, followed by the pieces of text that came after
-- it until the close, or all the pieces until the close if no report has a text. A parking, a failure, a cancellation and a
-- refused request stand on an input of that kind; a turn that was not started on an error or on a missing
-- run id; an unsubscribed turn on a request for its events that could not be built. In all other cases
-- the last call sent is the stop of this run.
pub turn_ends :
    (w : World) (id : String) (worker : Option ℕ) (input : String) (a : StartAnswer)
    (inputs : List (World × Input)) (h : Hermes)
    → (met is_final inputs ≡ true)
    → let p = run_turn w id worker input a inputs h in
      (e : TurnEnd) × (p.ended ≡ some e) × TurnGrounds a inputs p.turn e
unfolding run_turn
turn_ends w id worker input a inputs h m =
    begun-TurnEnds w id worker a inputs (sends (start id input) h) a.start_error refl m
