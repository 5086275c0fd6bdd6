-- ===== src/Events/Bus/Shutdown.antt =====
-- internal/events/bus.go: what `Close` promises.
use thornhill.Base.{◌≡◌, refl, ◌∙◌, true, false, Bool, List, [], ◌∷◌, ◌+◌, arith}
use thornhill.Events.Bus.{
  Event, Bus, Op, publishes, subscribes, unsubscribes, pumps, reads, persists, closes, stamp,
  publish, fan_out, subscribe, unsubscribe, pump, read, persist_next, close, enqueue_persistence,
  step, run,
}
use thornhill.Events.Bus.Queue.{persistence, persistence-persist_next}

closed_refuses :
    (e : Event) (sync freed : Bool) (b : Bus)
    → b.persist_closed ≡ true
    → enqueue_persistence e sync freed b ≡ (b, false)
unfolding enqueue_persistence
closed_refuses e sync freed b c = ground arith

-- The persistence queue is closed, and the store gets what `given` lists and no more.
abbrev Closed : List Event → Bus → Type 0
Closed given b = (persistence b ≡ given) × (b.persist_closed ≡ true)

step-Closed : (given : List Event) (b : Bus) (o : Op) → Closed given b → Closed given (step b o)
unfolding step
step-Closed given b (publishes p) v =
    unfold publish fan_out in
    rw
      (closed_refuses (stamp p (b.seq + 1)) p.synchronous p.freed (record b { seq = b.seq + 1 })
        v.1)
      v
step-Closed given b (subscribes r) v = unfold subscribe in v
step-Closed given b (unsubscribes id) v = unfold unsubscribe in v
step-Closed given b (pumps id) v = unfold pump in v
step-Closed given b (reads id) v = unfold read in v
step-Closed given b persists v = (persistence-persist_next b ∙ v.0, unfold persist_next in v.1)
step-Closed given b closes v = unfold close in (ground arith, ground arith)

-- Once persistence is closed, nothing that happens after adds an event to what the store was given
-- and is still to be given, and nothing takes one away.
pub closed_drains :
    (b : Bus) (os : List Op)
    → b.persist_closed ≡ true
    → (persistence (run b os) ≡ persistence b) × ((run b os).persist_closed ≡ true)
unfolding run
closed_drains b [] c = (refl, c)
closed_drains b (o ∷ os) c =
    let v = step-Closed (persistence b) b o (refl, c) in
    let w = closed_drains (step b o) os v.1 in (w.0 ∙ v.0, w.1)
