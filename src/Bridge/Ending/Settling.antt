-- ===== src/Bridge/Ending/Settling.antt =====
-- internal/bridge/hermes.go: what every end of a turn leaves in the table and on the bus.
use thornhill.Base.{◌≡◌, ◌≢◌, refl, ◌⊎◌, inl, inr, Option, none, some, String, arith, if_elim}
use thornhill.Store.Job.{Approval, Job}
use thornhill.Store.Jobs.{find, update_job}
use thornhill.Bridge.{Hermes, World, Refusal}
use thornhill.Bridge.Parking.{park_approval_locked}
use thornhill.Bridge.Turn.{
  TurnEnd, replied, approval_parked, provider_cancelled, provider_failed, request_refused,
  not_started, unsubscribed, stopped, waits_for,
}
use thornhill.Bridge.Settle.{
  Settled, fail_mut, failure_told, kept_pending, over_text, park_at_end, moved_on, context_over,
  turn_failed, finish,
}
use thornhill.Bridge.Ending.{
  LeftAlone, Tells, Recorded, FailureSays, failure-Recorded, reply-Recorded,
}

-- The context had ended while the job waited with one pending request, which was parked instead.
abbrev pub ParkedLate : World → String → Option String → Hermes → Hermes → Type 0
ParkedLate w id over h h' =
    (over ≢ none)
    × ((j : Job) × (a : Approval) × (find id h.db.jobs ≡ some j)
        × (waits_for (some j) ≡ some a)
        × (h'
            ≡ (park_approval_locked w id j.hermes_run_id a.id a.decision_nonce
                "worker context ended while approval was pending" h).hermes))

abbrev Settles : World → String → String → Option String → Hermes → Hermes → Type 0
Settles w id run over h h' =
    LeftAlone id h h' ⊎ Recorded id run h h' FailureSays ⊎ ParkedLate w id over h h'

failure-Settles :
    (w : World) (id run : String) (over said : Option String) (why : String) (h : Hermes)
    → Settles w id run over h
        (failure_told id said h (update_job w.now id (fail_mut run why) h.db)).hermes
failure-Settles w id run over said why h =
    elim (failure-Recorded w.now id run why said h (update_job w.now id (fail_mut run why) h.db)
      refl) [ inl left ↦ inl left | inr recorded ↦ inr (inl recorded) ]

kept-hermes :
    (text : Refusal → String) (h : Hermes) (e : Option Refusal) → (kept_pending text h e).hermes ≡ h
unfolding kept_pending
kept-hermes text h none = refl
kept-hermes text h (some r) = refl

park-Settles :
    (w : World) (text : Refusal → String) (id run c : String) (h : Hermes) (row : Option Job)
    (sole : Option Approval)
    → (find id h.db.jobs ≡ row)
    → (waits_for row ≡ sole)
    → Settles w id run (some c) h (park_at_end w text id run c h row sole).hermes
unfolding park_at_end
park-Settles w text id run c h none sole at waits =
    failure-Settles w id run (some c) none (over_text c) h
park-Settles w text id run c h (some j) none at waits =
    failure-Settles w id run (some c) none (over_text c) h
park-Settles w text id run c h (some j) (some a) at waits =
    let o =
      park_approval_locked w id j.hermes_run_id a.id a.decision_nonce
        "worker context ended while approval was pending" h in
    inr (inr (λ n. ground (arith, n), (j, a, at, waits, kept-hermes text o.hermes o.error)))

over-Settles :
    (w : World) (text : Refusal → String) (id run c : String) (h : Hermes)
    → Settles w id run (some c) h (context_over w text id run c h).hermes
unfolding context_over
over-Settles w text id run c h =
    let row = find id h.db.jobs in
    if_elim (λ (s : Settled). Settles w id run (some c) h s.hermes) (moved_on row)
      (inl (refl, refl, refl)) (park-Settles w text id run c h row (waits_for row) refl refl)

failed-Settles :
    (w : World) (text : Refusal → String) (id run : String) (over : Option String) (why : String)
    (h : Hermes)
    → Settles w id run over h (turn_failed w text id run over why h).hermes
unfolding turn_failed
failed-Settles w text id run none why h = failure-Settles w id run none (some why) why h
failed-Settles w text id run (some c) why h = over-Settles w text id run c h

-- However a turn ends, one of three things follows. Nothing is announced or sent, and the job's row keeps
-- its status. Or the row was still held under the run `run`, and exactly one thing is announced, which is
-- what the row now says: a reply makes it done with its digest, or waiting for input with its question, and
-- any other end makes it failed. Or the worker's context had ended while one request was pending, and the
-- parking of that request is all that is done.
pub finish_settles :
    (w : World) (text : Refusal → String) (id run : String) (over : Option String) (e : TurnEnd)
    (h : Hermes)
    → let h' = (finish w text id run over e h).hermes in
      LeftAlone id h h' ⊎ Recorded id run h h' (Tells e) ⊎ ParkedLate w id over h h'
unfolding finish
finish_settles w text id run over (replied out) h = elim (reply-Recorded w id run over out h) [
  | inl left ↦ inl left
  | inr recorded ↦ inr (inl recorded)
]
finish_settles w text id run over approval_parked h = inl (refl, refl, refl)
finish_settles w text id run over provider_cancelled h =
    failed-Settles w text id run over "Hermes run cancelled after a fail-closed stop" h
finish_settles w text id run over (provider_failed e) h = failed-Settles w text id run over e h
finish_settles w text id run over (request_refused r) h =
    failed-Settles w text id run over (text r) h
finish_settles w text id run over (not_started e) h = failed-Settles w text id run over e h
finish_settles w text id run over (unsubscribed e) h = failed-Settles w text id run over e h
finish_settles w text id run over (stopped e) h = failed-Settles w text id run over e h
