-- ===== src/Events/Bus/Queue.antt =====
-- internal/events/bus.go: the queue of events that wait to be written to the store.
use mathlib.Core.List.{append_assoc}
use thornhill.Base.{
  ℕ, ◌≤◌, ◌<◌, ◌≡◌, refl, ◌⊎◌, true, false, Bool, List, [], ◌∷◌, ◌++◌, arith, length, length-append,
  inl, inr,
}
use thornhill.Events.Bus.{
  Event, PersistItem, Bus, persist_cap, enqueue_persistence, persist_next, first_appended, rest_of,
  push_item,
}
use thornhill.Events.Bus.Order.{Ascends, Ascends-mono, Ascends-append}

abbrev pub events_of : List PersistItem → List Event
events_of [] = []
events_of (i ∷ q) = i.event ∷ events_of q

-- What the store was given and what waits for it, in order.
abbrev pub persistence : Bus → List Event
persistence b = b.appended ++ events_of b.persist_q

events_of-append :
    (q : List PersistItem) (i : PersistItem) → events_of (q ++ i ∷ []) ≡ events_of q ++ i.event ∷ []
events_of-append [] i = refl
events_of-append (j ∷ q) i = rw (events_of-append q i)

persistence-push_item :
    (e : Event) (w : Bool) (b : Bus) → persistence (push_item e w b) ≡ persistence b ++ e ∷ []
unfolding push_item
persistence-push_item e w b =
    rw (events_of-append b.persist_q (record { event = e; done = w })) (rw append_assoc refl)

queue_step :
    (xs : List Event) (q : List PersistItem)
    → (xs ++ first_appended q) ++ events_of (rest_of q) ≡ xs ++ events_of q
queue_step xs [] = rw append_assoc
queue_step xs (i ∷ q) = append_assoc xs (i.event ∷ []) (events_of q)

-- The persistence loop moves events along, and never reorders, repeats or loses one.
pub persistence-persist_next : (b : Bus) → persistence (persist_next b) ≡ persistence b
unfolding persist_next
persistence-persist_next b = queue_step b.appended b.persist_q

length-rest_of : (q : List PersistItem) → length (rest_of q) ≤ length q
length-rest_of [] = omega arith
length-rest_of (i ∷ q) = omega arith

pub persist_next_bounded : (b : Bus) → length (persist_next b).persist_q ≤ length b.persist_q
unfolding persist_next
persist_next_bounded b = length-rest_of b.persist_q

-- The persistence part of the invariant.
pub record Persists (n : ℕ) (b : Bus) : Type 0 where
  pub persist_ordered : Ascends 0 (persistence b) n
  pub persist_bounded : length b.persist_q ≤ persist_cap

push_item-Persists :
    (n : ℕ) (e : Event) (w : Bool) (b : Bus)
    → n < e.seq
    → length b.persist_q < persist_cap
    → Ascends 0 (persistence b) n
    → Persists e.seq (push_item e w b)
push_item-Persists n e w b h room v = record {
  persist_ordered = rw (persistence-push_item e w b) (Ascends-append 0 n (persistence b) e h v);
  persist_bounded =
      unfold push_item in
      omega (arith, length-append b.persist_q (record { event = e; done = w } ∷ []));
}

rest_of-lt : (q : List PersistItem) → 0 < length q → length (rest_of q) < length q
rest_of-lt [] h = h
rest_of-lt (i ∷ q) h = omega arith

persist_next-lt :
    (b : Bus) → 0 < length b.persist_q → length (persist_next b).persist_q < length b.persist_q
unfolding persist_next
persist_next-lt b = rest_of-lt b.persist_q

Persists-mono : (n n' : ℕ) (b : Bus) → n ≤ n' → Persists n b → Persists n' b
Persists-mono n n' b h v = record {
  persist_ordered = Ascends-mono 0 n n' (persistence b) h v.persist_ordered;
  persist_bounded = v.persist_bounded;
}

persist_next-Persists : (n : ℕ) (b : Bus) → Persists n b → Persists n (persist_next b)
persist_next-Persists n b v = record {
  persist_ordered = rw (persistence-persist_next b) v.persist_ordered;
  persist_bounded = omega (arith, persist_next_bounded b, v.persist_bounded);
}

-- The three ways in which admission ends.
pub enqueue_cases :
    (e : Event) (sync freed : Bool) (b : Bus)
    → (enqueue_persistence e sync freed b ≡ (b, false))
      ⊎ ((length b.persist_q < persist_cap)
          × (enqueue_persistence e sync freed b ≡ (push_item e sync b, sync)))
      ⊎ ((persist_cap ≤ length b.persist_q)
          × (enqueue_persistence e sync freed b ≡ (push_item e true (persist_next b), true)))
unfolding enqueue_persistence
enqueue_cases e sync freed b = ground arith

pub enqueue-Persists :
    (n : ℕ) (e : Event) (sync freed : Bool) (b : Bus)
    → n < e.seq
    → Persists n b
    → Persists e.seq (enqueue_persistence e sync freed b).0
enqueue-Persists n e sync freed b h v = elim (enqueue_cases e sync freed b) [
  | inl q ↦ rw q (Persists-mono n e.seq b (omega arith) v)
  | inr (inl (room, q)) ↦ rw q (push_item-Persists n e sync b h room v.persist_ordered)
  | inr (inr (full, q)) ↦
      let w = persist_next-Persists n b v in
      rw q (
        push_item-Persists n e true (persist_next b) h
          (omega (arith, persist_next-lt b (omega arith), v.persist_bounded)) w.persist_ordered)
]

-- Admission to persistence touches nothing else.
pub enqueue_keeps :
    (e : Event) (sync freed : Bool) (b : Bus)
    → let b' = (enqueue_persistence e sync freed b).0 in
      (b'.ring ≡ b.ring) × (b'.ring_cap ≡ b.ring_cap) × (b'.seq ≡ b.seq) × (b'.subs ≡ b.subs)
unfolding enqueue_persistence push_item persist_next
enqueue_keeps e sync freed b = ground arith
