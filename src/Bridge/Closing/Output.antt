-- ===== src/Bridge/Closing/Output.antt =====
-- internal/bridge/hermes.go: the text that a turn replies with, against what the event stream carried.
use thornhill.Base.{
  ◌≡◌, refl, sym, ◌∙◌, Bool, true, false, ◌⊎◌, inl, inr, Option, none, some, List, [], ◌∷◌, String,
  is_empty, concat, concat-step, concat-one, trim_space, arith, if◌then◌else◌, if_elim, Bool-cases,
}
use thornhill.Store.Job.{Job, Approval}
use thornhill.Store.Jobs.{approval_stale, find}
use thornhill.Bridge.{World, Refusal, store_error}
use thornhill.Bridge.Parking.{park_approval_locked}
use thornhill.Bridge.Request.{handle_approval_request}
use thornhill.Bridge.Turn.{
  Input, message_delta, tool_started, tool_completed, approval_request, run_completed, run_failed,
  run_cancelled, other_event, closed, parking_due, idle, context_ended, others, TurnEnd, replied,
  approval_parked, provider_cancelled, provider_failed, request_refused, not_started, unsubscribed,
  stopped, Turn, Progressed, after_request, answered, arms, parked_or, parks, or_rest, park_due,
  waits_for, turn_step, turn_loop,
}

-- What a stream carries until it is closed: the output of the last completed run that is not blank, and the
-- pieces of text that follow it, or all pieces if there is none.
abbrev pub piece : String → Option String × List String → Option String × List String
piece d (none, ds) = (none, d ∷ ds)
piece d (some out, ds) = (some out, ds)

abbrev pub whole : String → Option String × List String → Option String × List String
whole out (none, ds) = (if is_empty (trim_space out) then none else some out, ds)
whole out (some last, ds) = (some last, ds)

abbrev pub carried : List (World × Input) → Option String × List String
carried [] = (none, [])
carried ((w, message_delta d) ∷ inputs) = piece d (carried inputs)
carried ((w, run_completed out) ∷ inputs) = whole out (carried inputs)
carried ((w, closed e c) ∷ inputs) = (none, [])
carried ((w, input) ∷ inputs) = carried inputs

-- The text of what was carried, after a text that was there before.
abbrev pub text_after : String → Option String × List String → String
text_after before (none, ds) = concat (before ∷ ds)
text_after before (some out, ds) = concat (out ∷ ds)

-- A run is reported completed before the stream is closed.
abbrev pub completes : List (World × Input) → Bool
completes [] = false
completes ((w, run_completed out) ∷ inputs) = true
completes ((w, closed e c) ∷ inputs) = false
completes ((w, input) ∷ inputs) = completes inputs

abbrev Completes : Bool → List (World × Input) → Type 0
Completes terminal inputs = (terminal ≡ true) ⊎ (completes inputs ≡ true)

-- A round that neither replies nor touches what was gathered.
abbrev Keeps : Turn → Turn → Option TurnEnd → Type 0
Keeps t t' (some (replied out)) = ⊥
Keeps t t' (some e) = Unit {0}
Keeps t t' none = (t'.terminal ≡ t.terminal) × (t'.output ≡ t.output)

arms-Keeps :
    (t t' : Turn) (o : Option Approval)
    → (t'.terminal ≡ t.terminal) × (t'.output ≡ t.output)
    → Keeps t (arms t' o).turn (arms t' o).ended
unfolding arms
arms-Keeps t t' none k = k
arms-Keeps t t' (some a) k = k

answered-Keeps :
    (t t' : Turn) (row : Option Job) (e : Option Refusal)
    → (t'.terminal ≡ t.terminal) × (t'.output ≡ t.output)
    → Keeps t (answered t' row e).turn (answered t' row e).ended
unfolding answered
answered-Keeps t t' row (some e) k = tt
answered-Keeps t t' none none k = tt
answered-Keeps t t' (some j) none k = arms-Keeps t t' (waits_for (some j)) k

parked_or-Keeps :
    (t t' : Turn) (e : Option Refusal)
    → (t'.terminal ≡ t.terminal) × (t'.output ≡ t.output)
    → Keeps t (parked_or t' e).turn (parked_or t' e).ended
unfolding parked_or
parked_or-Keeps t t' none k = tt
parked_or-Keeps t t' (some (store_error approval_stale)) k = k
parked_or-Keeps t t' (some e) k = k

parks-Keeps :
    (w : World) (id run : String) (t : Turn) (o : Option Approval)
    → Keeps t (parks w id run t o).turn (parks w id run t o).ended
unfolding parks
parks-Keeps w id run t none = (refl, refl)
parks-Keeps w id run t (some a) =
    let o =
      park_approval_locked w id run a.id a.decision_nonce
        "operator was silent past the approval resource threshold" t.hermes in
    parked_or-Keeps t (record t { hermes = o.hermes }) o.error (refl, refl)

due-Keeps :
    (w : World) (id run : String) (t : Turn) (row : Option Job)
    → Keeps t (park_due w id run t row).turn (park_due w id run t row).ended
unfolding park_due
due-Keeps w id run t none = (refl, refl)
due-Keeps w id run t (some j) = parks-Keeps w id run t (waits_for (some j))

-- What a round does to the text that the rest of the stream completes.
abbrev Adds : World × Input → List (World × Input) → Turn → Turn → Option TurnEnd → Type 0
Adds wi inputs t t' (some (replied out)) =
    Completes t.terminal (wi ∷ inputs) × (out ≡ text_after t.output (carried (wi ∷ inputs)))
Adds wi inputs t t' (some e) = Unit {0}
Adds wi inputs t t' none =
    (Completes t'.terminal inputs → Completes t.terminal (wi ∷ inputs))
    × (text_after t'.output (carried inputs) ≡ text_after t.output (carried (wi ∷ inputs)))

Keeps-Adds :
    (wi : World × Input) (inputs : List (World × Input)) (t t' : Turn) (e : Option TurnEnd)
    → completes (wi ∷ inputs) ≡ completes inputs
    → carried (wi ∷ inputs) ≡ carried inputs
    → Keeps t t' e
    → Adds wi inputs t t' e
Keeps-Adds wi inputs t t' (some (replied out)) c s k = absurd k
Keeps-Adds wi inputs t t' (some approval_parked) c s k = tt
Keeps-Adds wi inputs t t' (some provider_cancelled) c s k = tt
Keeps-Adds wi inputs t t' (some (provider_failed e)) c s k = tt
Keeps-Adds wi inputs t t' (some (request_refused e)) c s k = tt
Keeps-Adds wi inputs t t' (some (not_started e)) c s k = tt
Keeps-Adds wi inputs t t' (some (unsubscribed e)) c s k = tt
Keeps-Adds wi inputs t t' (some (stopped e)) c s k = tt
Keeps-Adds wi inputs t t' none c s (q, o) = rw (c, s, q, o) ((λ x. x), refl)

piece-text :
    (before d : String) (r : Option String × List String)
    → text_after (concat (before ∷ d ∷ [])) r ≡ text_after before (piece d r)
piece-text before d (none, ds) = concat-step before d ds
piece-text before d (some out, ds) = refl

whole-text :
    (before out : String) (r : Option String × List String)
    → text_after (if is_empty (trim_space out) then before else out) r
      ≡ text_after before (whole out r)
whole-text before out (some last, ds) = refl
whole-text before out (none, ds) = elim (Bool-cases (is_empty (trim_space out))) [
  | inl q ↦ rw q refl
  | inr q ↦ rw q refl
]

round-Adds :
    (w : World) (id run : String) (input : Input) (inputs : List (World × Input)) (t : Turn)
    → let p = turn_step w id run input t in Adds (w, input) inputs t p.turn p.ended
unfolding turn_step after_request
round-Adds w id run (message_delta d) inputs t = ((λ x. x), piece-text t.output d (carried inputs))
round-Adds w id run (tool_started tool preview) inputs t = ((λ x. x), refl)
round-Adds w id run (tool_completed tool preview) inputs t = ((λ x. x), refl)
round-Adds w id run (approval_request ev) inputs t =
    let o = handle_approval_request w id run ev t.hermes in
    let t' = record t { hermes = o.hermes } in
    let p = answered t' (find id o.hermes.db.jobs) o.error in
    Keeps-Adds (w, approval_request ev) inputs t p.turn p.ended refl refl
      (answered-Keeps t t' (find id o.hermes.db.jobs) o.error (refl, refl))
round-Adds w id run (run_completed out) inputs t =
    ((λ x. inr refl), whole-text t.output out (carried inputs))
round-Adds w id run (run_failed e) inputs t = tt
round-Adds w id run run_cancelled inputs t = tt
round-Adds w id run other_event inputs t = ((λ x. x), refl)
round-Adds w id run (closed (some e) none) inputs t = tt
round-Adds w id run (closed (some e) (some c)) inputs t = tt
round-Adds w id run (closed none c) inputs t = elim (Bool-cases t.terminal) [
  | inl q ↦ rw q (inl refl, sym (concat-one t.output))
  | inr q ↦ rw q tt
]
round-Adds w id run parking_due inputs t =
    let due = park_due w id run t (find id t.hermes.db.jobs) in
    if_elim (λ (p : Progressed). Adds (w, parking_due) inputs t p.turn p.ended) t.armed
      (Keeps-Adds (w, parking_due) inputs t due.turn due.ended refl refl
        (due-Keeps w id run t (find id t.hermes.db.jobs)))
      ((λ x. x), refl)
round-Adds w id run (idle after) inputs t = tt
round-Adds w id run (context_ended e) inputs t = tt
round-Adds w id run (others f) inputs t = ((λ x. x), refl)

rest-Reply :
    (wi : World × Input) (inputs : List (World × Input)) (t t' : Turn) (end : Option TurnEnd)
    (rest : Progressed) {out : String}
    → Adds wi inputs t t' end
    → (rest.ended ≡ some (replied out)
        → Completes t'.terminal inputs × (out ≡ text_after t'.output (carried inputs)))
    → (or_rest (record { turn = t'; ended = end }) rest end).ended ≡ some (replied out)
    → Completes t.terminal (wi ∷ inputs) × (out ≡ text_after t.output (carried (wi ∷ inputs)))
rest-Reply wi inputs t t' none rest (c, s) later h =
    let (done, text) = later h in (c done, text ∙ s)
rest-Reply wi inputs t t' (some (replied said)) rest {out} (c, s) later h =
    let q : said ≡ out = ground arith in (c, sym q ∙ s)
rest-Reply wi inputs t t' (some approval_parked) rest a later h = ground arith
rest-Reply wi inputs t t' (some provider_cancelled) rest a later h = ground arith
rest-Reply wi inputs t t' (some (provider_failed e)) rest a later h = ground arith
rest-Reply wi inputs t t' (some (request_refused e)) rest a later h = ground arith
rest-Reply wi inputs t t' (some (not_started e)) rest a later h = ground arith
rest-Reply wi inputs t t' (some (unsubscribed e)) rest a later h = ground arith
rest-Reply wi inputs t t' (some (stopped e)) rest a later h = ground arith

-- A loop that ends with a reply met a completed run, or had met one, and replies with what was carried.
pub loop-Reply :
    (id run : String) (inputs : List (World × Input)) (t : Turn) {out : String}
    → (turn_loop id run inputs t).ended ≡ some (replied out)
    → Completes t.terminal inputs × (out ≡ text_after t.output (carried inputs))
unfolding turn_loop
loop-Reply id run [] t h = ground arith
loop-Reply id run ((w, input) ∷ inputs) t h =
    let p = turn_step w id run input t in
    rest-Reply (w, input) inputs t p.turn p.ended (turn_loop id run inputs p.turn)
      (round-Adds w id run input inputs t) (loop-Reply id run inputs p.turn) h
