-- ===== src/Events/Bus/Invariant.antt =====
-- internal/events/bus.go: what holds of the bus between two steps, over any interleaving.
use mathlib.Core.List.{append-nil}
use thornhill.Base.{
  ℕ, ◌+◌, ◌-◌, ◌≤◌, ◌<◌, ◌≡◌, ◌⊎◌, true, false, Bool, none, List, [], ◌∷◌, ◌++◌, map, arith, length,
  length-drop, if◌then◌else◌, inl, inr,
}
use thornhill.Events.Bus.{
  Event, Subscription, Bus, Publication, Op, publishes, subscribes, unsubscribes, pumps, reads,
  persists, closes, persist_cap, stamp, new_bus, offer, push_ring, publish, subscribe,
  enqueue_persistence, persist_next, unsubscribe, unsubscribe_from, pump_one, pump, read, read_one,
  close, step, run, fan_out,
}
use thornhill.Events.Bus.Order.{
  Ascends, Ascends-append, Ascends-drop, stream, SubInv, Subs, offer-SubInv, pump_one-SubInv,
  read_one-SubInv,
}
use thornhill.Events.Bus.Queue.{
  persistence, persistence-persist_next, persist_next_bounded, Persists, enqueue-Persists,
  enqueue_keeps,
}

pub record Inv (b : Bus) : Type 0 where
  pub ring_ordered : Ascends 0 b.ring b.seq
  pub ring_bounded : length b.ring ≤ b.ring_cap
  pub subs_ordered : Subs b.seq b.subs
  pub persist_ordered : Ascends 0 (persistence b) b.seq
  pub persist_bounded : length b.persist_q ≤ persist_cap

pub new_bus-Inv : (p : Bool) → Inv (new_bus p)
unfolding new_bus
new_bus-Inv p = record {
  ring_ordered = omega arith;
  ring_bounded = omega arith;
  subs_ordered = tt;
  persist_ordered = omega arith;
  persist_bounded = omega arith;
}

Subs-offer :
    (n : ℕ) (e : Event) (ss : List Subscription)
    → n < e.seq
    → Subs n ss
    → Subs e.seq (map (offer e) ss)
Subs-offer n e [] h v = tt
Subs-offer n e (s ∷ ss) h v = (offer-SubInv n e s h v.0, Subs-offer n e ss h v.1)

Subs-map :
    (n : ℕ) (f : Subscription → Subscription) (ss : List Subscription)
    → ((s : Subscription) → SubInv n s → SubInv n (f s))
    → Subs n ss
    → Subs n (map f ss)
Subs-map n f [] h v = tt
Subs-map n f (s ∷ ss) h v = (h s v.0, Subs-map n f ss h v.1)

Subs-append :
    (n : ℕ) (ss : List Subscription) (s : Subscription)
    → Subs n ss
    → SubInv n s
    → Subs n (ss ++ s ∷ [])
Subs-append n [] s v w = (w, tt)
Subs-append n (x ∷ ss) s v w = (v.0, Subs-append n ss s v.1 w)

Subs-unsubscribe : (n id : ℕ) (ss : List Subscription) → Subs n ss → Subs n (unsubscribe_from id ss)
unfolding unsubscribe_from
Subs-unsubscribe n id [] v = tt
Subs-unsubscribe n id (s ∷ ss) v = ground (arith, Subs-unsubscribe n id ss v.1)

push_ring-ordered :
    (cap n : ℕ) (ring : List Event) (e : Event)
    → n < e.seq
    → Ascends 0 ring n
    → Ascends 0 (push_ring cap ring e) e.seq
unfolding push_ring
push_ring-ordered cap n ring e h a = ground (
  arith,
  Ascends-append 0 n ring e h a,
  Ascends-drop 0 e.seq (length (ring ++ e ∷ []) - cap) (ring ++ e ∷ []),
)

pub push_ring-bounded :
    (cap : ℕ) (ring : List Event) (e : Event) → length (push_ring cap ring e) ≤ cap
unfolding push_ring
push_ring-bounded cap ring e =
    ground (arith, length-drop (length (ring ++ e ∷ []) - cap) (ring ++ e ∷ []))

publish-Inv : (p : Publication) (b : Bus) → Inv b → Inv (publish p b).bus
unfolding publish fan_out
publish-Inv p b v = record {
  ring_ordered =
      rw (keeps.0, keeps.1, keeps.2)
        (push_ring-ordered b.ring_cap b.seq b.ring e (omega arith) v.ring_ordered);
  ring_bounded = push_ring-bounded _ _ e;
  subs_ordered = rw (keeps.2, keeps.3) (Subs-offer b.seq e b.subs (omega arith) v.subs_ordered);
  persist_ordered = rw keeps.2 (unfold fan_out in kept.persist_ordered);
  persist_bounded = kept.persist_bounded;
}
  where
    e : Event
    e = stamp p (b.seq + 1)

    b₁ : Bus
    b₁ = record b { seq = b.seq + 1 }

    keeps :
        let b' = (enqueue_persistence e p.synchronous p.freed b₁).0 in
        (b'.ring ≡ b.ring) × (b'.ring_cap ≡ b.ring_cap) × (b'.seq ≡ b.seq + 1) × (b'.subs ≡ b.subs)
    keeps = enqueue_keeps e p.synchronous p.freed b₁

    kept : Persists (b.seq + 1) (enqueue_persistence e p.synchronous p.freed b₁).0
    kept =
        enqueue-Persists b.seq e p.synchronous p.freed b₁ (omega arith)
          (record { persist_ordered = v.persist_ordered; persist_bounded = v.persist_bounded })

subscribed-SubInv :
    (replay : Bool) (b : Bus)
    → Inv b
    → SubInv b.seq (record {
      id = b.next_sub;
      ch = [];
      back = if replay then b.ring else [];
      held = none;
      out = [];
      unread = 0;
    })
unfolding stream
subscribed-SubInv true b v = record {
  ordered = rw append-nil v.ring_ordered;
  ch_bounded = omega arith;
  unread_bounded = omega arith;
}
subscribed-SubInv false b v = record {
  ordered = omega arith;
  ch_bounded = omega arith;
  unread_bounded = omega arith;
}

close_cases : (b : Bus) → (close b ≡ b) ⊎ (close b ≡ record b { persist_closed = true })
unfolding close
close_cases b = ground arith

step-Inv : (b : Bus) (o : Op) → Inv b → Inv (step b o)
unfolding step
step-Inv b (publishes p) v = publish-Inv p b v
step-Inv b (subscribes replay) v =
    unfold subscribe in
    record {
      ring_ordered = v.ring_ordered;
      ring_bounded = v.ring_bounded;
      subs_ordered = Subs-append b.seq b.subs _ v.subs_ordered (subscribed-SubInv replay b v);
      persist_ordered = v.persist_ordered;
      persist_bounded = v.persist_bounded;
    }
step-Inv b (unsubscribes id) v =
    unfold unsubscribe in
    record {
      ring_ordered = v.ring_ordered;
      ring_bounded = v.ring_bounded;
      subs_ordered = Subs-unsubscribe b.seq id b.subs v.subs_ordered;
      persist_ordered = v.persist_ordered;
      persist_bounded = v.persist_bounded;
    }
step-Inv b (pumps id) v =
    unfold pump in
    record {
      ring_ordered = v.ring_ordered;
      ring_bounded = v.ring_bounded;
      subs_ordered =
          Subs-map b.seq (pump_one id) b.subs (λ s. pump_one-SubInv b.seq id s) v.subs_ordered;
      persist_ordered = v.persist_ordered;
      persist_bounded = v.persist_bounded;
    }
step-Inv b (reads id) v =
    unfold read in
    record {
      ring_ordered = v.ring_ordered;
      ring_bounded = v.ring_bounded;
      subs_ordered =
          Subs-map b.seq (read_one id) b.subs (λ s. read_one-SubInv b.seq id s) v.subs_ordered;
      persist_ordered = v.persist_ordered;
      persist_bounded = v.persist_bounded;
    }
step-Inv b persists v = record {
  ring_ordered = unfold persist_next in v.ring_ordered;
  ring_bounded = unfold persist_next in v.ring_bounded;
  subs_ordered = unfold persist_next in v.subs_ordered;
  persist_ordered = rw (persistence-persist_next b) (unfold persist_next in v.persist_ordered);
  persist_bounded = omega (arith, persist_next_bounded b, v.persist_bounded);
}
step-Inv b closes v = elim (close_cases b) [
  | inl e ↦ rw e v
  | inr e ↦ rw e (record {
    ring_ordered = v.ring_ordered;
    ring_bounded = v.ring_bounded;
    subs_ordered = v.subs_ordered;
    persist_ordered = v.persist_ordered;
    persist_bounded = v.persist_bounded;
  })
]

run_from-Inv : (b : Bus) (os : List Op) → Inv b → Inv (run b os)
unfolding run
run_from-Inv b [] v = v
run_from-Inv b (o ∷ os) v = run_from-Inv (step b o) os (step-Inv b o v)

-- Over every interleaving of publications, subscriptions, pumps, reads, the persistence loop and a
-- shutdown, from a new bus: the ring holds rising sequence numbers and at most its capacity; what a
-- subscription sends, its replay and its live events together, rises strictly, so no event comes
-- twice or out of order, and its buffers keep their bounds; and the store is given events in rising
-- order from a queue of at most 256.
pub bus_run-Inv : (p : Bool) (os : List Op) → Inv (run (new_bus p) os)
bus_run-Inv p os = run_from-Inv (new_bus p) os (new_bus-Inv p)
