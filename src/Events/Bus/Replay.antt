-- ===== src/Events/Bus/Replay.antt =====
-- internal/events/bus.go: the ring is the recent past, and what a new subscription is replayed.
use mathlib.Core.List.{append_assoc, append-nil}
use thornhill.Base.{
  ℕ, zero, suc, ◌+◌, ◌-◌, ◌≤◌, ◌≡◌, refl, sym, ap, ◌∙◌, true, Bool, none, List, [], ◌∷◌, ◌++◌,
  arith, length, drop, length-append, length-drop, ltb, if◌then◌else◌,
}
use thornhill.Events.Bus.{
  Event, Bus, Publication, Op, publishes, subscribes, unsubscribes, pumps, reads, persists, closes,
  stamp, new_bus, push_ring, publish, fan_out, subscribe, unsubscribe, pump, read, persist_next,
  close, step, run,
}
use thornhill.Events.Bus.Queue.{enqueue_keeps}

-- The events that `publish` returned over a run, oldest first.
abbrev pub history : Bus → List Op → List Event
history b [] = []
history b (publishes p ∷ os) = (publish p b).event ∷ history (step b (publishes p)) os
history b (subscribes r ∷ os) = history (step b (subscribes r)) os
history b (unsubscribes id ∷ os) = history (step b (unsubscribes id)) os
history b (pumps id ∷ os) = history (step b (pumps id)) os
history b (reads id ∷ os) = history (step b (reads id)) os
history b (persists ∷ os) = history (step b persists) os
history b (closes ∷ os) = history (step b closes) os

-- The last `n` of a list.
abbrev pub last_of : ℕ → List Event → List Event
last_of n es = drop (length es - n) es

drop-append : (n : ℕ) (xs ys : List Event) → n ≤ length xs → drop n xs ++ ys ≡ drop n (xs ++ ys)
drop-append zero xs ys h = refl
drop-append (suc n) [] ys h = elim h [ ]
drop-append (suc n) (x ∷ xs) ys h = drop-append n xs ys (omega arith)

drop-nil : (n : ℕ) → drop {A = Event} n [] ≡ []
drop-nil zero = refl
drop-nil (suc n) = refl

drop-drop : (m n : ℕ) (xs : List Event) → drop m (drop n xs) ≡ drop (n + m) xs
drop-drop m zero xs = ap (λ k. drop k xs) (omega arith)
drop-drop m (suc n) [] = drop-nil m ∙ sym (drop-nil (suc n + m))
drop-drop m (suc n) (x ∷ xs) = drop-drop m n xs ∙ ap (λ k. drop k (x ∷ xs)) suc_sum
  where
    suc_sum : suc (n + m) ≡ suc n + m
    suc_sum = omega arith

last_of-append :
    (cap : ℕ) (h : List Event) (e : Event)
    → last_of cap h ++ e ∷ [] ≡ drop (length h - cap) (h ++ e ∷ [])
last_of-append cap h e = drop-append (length h - cap) h (e ∷ []) (omega arith)

trim :
    (cap k : ℕ) (xs : List Event)
    → k ≤ length xs - cap
    → (if ltb cap (length (drop k xs))
        then drop (length (drop k xs) - cap) (drop k xs)
        else drop k xs)
      ≡ last_of cap xs
trim cap k xs h = ground (arith, length-drop k xs, drop-drop (length (drop k xs) - cap) k xs)

-- Trimming a ring that holds the last `cap` events of a history keeps the last `cap`.
push_ring-last_of :
    (cap : ℕ) (h : List Event) (e : Event)
    → push_ring cap (last_of cap h) e ≡ last_of cap (h ++ e ∷ [])
unfolding push_ring
push_ring-last_of cap h e =
    rw (last_of-append cap h e)
      (trim cap (length h - cap) (h ++ e ∷ []) (omega (arith, length-append h (e ∷ []))))

abbrev Holds : ℕ → List Event → Bus → Type 0
Holds cap h b = (b.ring ≡ last_of cap h) × (b.ring_cap ≡ cap)

publish-Holds :
    (cap : ℕ) (h : List Event) (p : Publication) (b : Bus)
    → Holds cap h b
    → Holds cap (h ++ (publish p b).event ∷ []) (publish p b).bus
unfolding publish fan_out
publish-Holds cap h p b v =
    let e = stamp p (b.seq + 1) in
    let k = enqueue_keeps e p.synchronous p.freed (record b { seq = b.seq + 1 }) in
    (rw (k.0, k.1, v.0, v.1) (push_ring-last_of cap h e), k.1 ∙ v.1)

close-ring : (b : Bus) → ((close b).ring ≡ b.ring) × ((close b).ring_cap ≡ b.ring_cap)
unfolding close
close-ring b = ground arith

run-Holds :
    (cap : ℕ) (h : List Event) (b : Bus) (os : List Op)
    → Holds cap h b
    → Holds cap (h ++ history b os) (run b os)
unfolding run step
run-Holds cap h b [] v = rw append-nil v
run-Holds cap h b (publishes p ∷ os) v =
    rw (← append_assoc h ((publish p b).event ∷ []) (history (publish p b).bus os)) (
      run-Holds cap (h ++ (publish p b).event ∷ []) (publish p b).bus os
        (publish-Holds cap h p b v))
run-Holds cap h b (subscribes r ∷ os) v = run-Holds cap h (subscribe r b) os (unfold subscribe in v)
run-Holds cap h b (unsubscribes id ∷ os) v =
    run-Holds cap h (unsubscribe id b) os (unfold unsubscribe in v)
run-Holds cap h b (pumps id ∷ os) v = run-Holds cap h (pump id b) os (unfold pump in v)
run-Holds cap h b (reads id ∷ os) v = run-Holds cap h (read id b) os (unfold read in v)
run-Holds cap h b (persists ∷ os) v = run-Holds cap h (persist_next b) os (unfold persist_next in v)
run-Holds cap h b (closes ∷ os) v =
    run-Holds cap h (close b) os ((close-ring b).0 ∙ v.0, (close-ring b).1 ∙ v.1)

new_bus-Holds : (p : Bool) → Holds 256 [] (new_bus p)
unfolding new_bus
new_bus-Holds p = (refl, refl)

-- After any run from a new bus the ring is exactly the last 256 events published, and a subscription
-- with replay starts with exactly those to send, beside the subscriptions there were.
pub subscribe_replays :
    (p : Bool) (os : List Op)
    → let b = run (new_bus p) os in
      let recent = last_of 256 (history (new_bus p) os) in
      (b.ring ≡ recent)
      × ((subscribe true b).subs
          ≡ b.subs
            ++ record { id = b.next_sub; ch = []; back = recent; held = none; out = []; unread = 0 }
              ∷ [])
unfolding subscribe
subscribe_replays p os = let r = (run-Holds 256 [] (new_bus p) os (new_bus-Holds p)).0 in (r, rw r)
