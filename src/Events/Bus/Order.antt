-- ===== src/Events/Bus/Order.antt =====
-- internal/events/bus.go: events keep their order of publication, and every buffer its bound.
use mathlib.Core.List.{append_assoc}
use thornhill.Base.{
  ℕ, zero, suc, ◌≤◌, ◌<◌, ◌≡◌, refl, Option, none, some, List, [], ◌∷◌, ◌++◌, arith, length, drop,
  length-append, ltb, if◌then◌else◌, Bool-cases, inl, inr,
}
use thornhill.Events.Bus.{Event, Subscription, sub_cap, offer, pump_one, pump_next, read_one}

-- The sequence numbers rise strictly from above `lo`, and the last is at most `hi`.
abbrev pub Ascends : ℕ → List Event → ℕ → Type 0
Ascends lo [] hi = lo ≤ hi
Ascends lo (e ∷ es) hi = (lo < e.seq) × Ascends e.seq es hi

pub Ascends-mono :
    (lo hi hi' : ℕ) (es : List Event) → hi ≤ hi' → Ascends lo es hi → Ascends lo es hi'
Ascends-mono lo hi hi' [] h a = omega arith
Ascends-mono lo hi hi' (e ∷ es) h a = (a.0, Ascends-mono e.seq hi hi' es h a.1)

pub Ascends-append :
    (lo hi : ℕ) (es : List Event) (e : Event)
    → hi < e.seq
    → Ascends lo es hi
    → Ascends lo (es ++ e ∷ []) e.seq
Ascends-append lo hi [] e h a = (omega arith, omega arith)
Ascends-append lo hi (x ∷ es) e h a = (a.0, Ascends-append x.seq hi es e h a.1)

Ascends-lower : (lo lo' hi : ℕ) (es : List Event) → lo' ≤ lo → Ascends lo es hi → Ascends lo' es hi
Ascends-lower lo lo' hi [] h a = omega arith
Ascends-lower lo lo' hi (e ∷ es) h a = (omega arith, a.1)

pub Ascends-drop : (lo hi n : ℕ) (es : List Event) → Ascends lo es hi → Ascends lo (drop n es) hi
Ascends-drop lo hi zero es a = a
Ascends-drop lo hi (suc n) [] a = a
Ascends-drop lo hi (suc n) (e ∷ es) a =
    Ascends-lower e.seq lo hi (drop n es) (omega arith) (Ascends-drop e.seq hi n es a.1)

abbrev held_list : Option Event → List Event
held_list none = []
held_list (some e) = e ∷ []

-- All that a subscription has sent or will send of what it holds now, in order.
unfoldable pub stream : Subscription → List Event
stream s = s.out ++ (held_list s.held ++ (s.back ++ s.ch))

stream-pump_next :
    (h : Option Event) (back ch : List Event) (s : Subscription)
    → s.held ≡ h
    → s.back ≡ back
    → s.ch ≡ ch
    → stream (pump_next h back ch s) ≡ stream s
unfolding pump_next stream
stream-pump_next (some e) back ch s h b c = ground (arith, append_assoc s.out (e ∷ []) (back ++ ch))
stream-pump_next none (e ∷ back) ch s h b c =
    ground (arith, append_assoc s.out (e ∷ []) (back ++ ch))
stream-pump_next none [] (e ∷ ch) s h b c = ground arith
stream-pump_next none [] [] s h b c = ground arith

-- A pump moves an event along its stream, and never reorders, repeats or loses one.
pub stream-pump_one : (id : ℕ) (s : Subscription) → stream (pump_one id s) ≡ stream s
unfolding pump_one
stream-pump_one id s = ground (arith, stream-pump_next s.held s.back s.ch s refl refl refl)

stream-read_one : (id : ℕ) (s : Subscription) → stream (read_one id s) ≡ stream s
unfolding read_one stream
stream-read_one id s = ground arith

stream_tail :
    (s : Subscription) (e : Event) → stream (record s { ch = s.ch ++ e ∷ [] }) ≡ stream s ++ e ∷ []
unfolding stream
stream_tail s e = simp append_assoc

-- An offered event goes to the end of the stream, unless the channel is full.
pub stream-offer :
    (e : Event) (s : Subscription)
    → stream (offer e s) ≡ (if ltb (length s.ch) sub_cap then stream s ++ e ∷ [] else stream s)
unfolding offer
stream-offer e s = ground (arith, stream_tail s e)

pub record SubInv (n : ℕ) (s : Subscription) : Type 0 where
  pub ordered : Ascends 0 (stream s) n
  pub ch_bounded : length s.ch ≤ sub_cap
  pub unread_bounded : s.unread ≤ sub_cap

abbrev pub Subs : ℕ → List Subscription → Type 0
Subs n [] = Unit {0}
Subs n (s ∷ ss) = SubInv n s × Subs n ss

pub offer-SubInv :
    (n : ℕ) (e : Event) (s : Subscription) → n < e.seq → SubInv n s → SubInv e.seq (offer e s)
offer-SubInv n e s h v = record {
  ordered = offered;
  ch_bounded = unfold offer in ground (arith, length-append s.ch (e ∷ []));
  unread_bounded = unfold offer in ground (arith, v.unread_bounded);
}
  where
    offered : Ascends 0 (stream (offer e s)) e.seq
    offered = rw (stream-offer e s) (elim (Bool-cases (ltb (length s.ch) sub_cap)) [
      | inl room ↦ rw room (Ascends-append 0 n (stream s) e h v.ordered)
      | inr full ↦ rw full (Ascends-mono 0 n e.seq (stream s) (omega arith) v.ordered)
    ])

pump_next-bounds :
    (h : Option Event) (back ch : List Event) (s : Subscription)
    → length ch ≤ sub_cap
    → s.ch ≡ ch
    → s.unread ≤ sub_cap
    → (length (pump_next h back ch s).ch ≤ sub_cap) × ((pump_next h back ch s).unread ≤ sub_cap)
unfolding pump_next
pump_next-bounds (some e) back ch s b c u = ground arith
pump_next-bounds none (e ∷ back) ch s b c u = ground arith
pump_next-bounds none [] (e ∷ ch) s b c u = ground arith
pump_next-bounds none [] [] s b c u = ground arith

pub pump_one-SubInv : (n id : ℕ) (s : Subscription) → SubInv n s → SubInv n (pump_one id s)
pump_one-SubInv n id s v = record {
  ordered = rw (stream-pump_one id s) v.ordered;
  ch_bounded = unfold pump_one in ground (arith, bounds);
  unread_bounded = unfold pump_one in ground (arith, bounds);
}
  where
    bounds :
        (length (pump_next s.held s.back s.ch s).ch ≤ sub_cap)
        × ((pump_next s.held s.back s.ch s).unread ≤ sub_cap)
    bounds = pump_next-bounds s.held s.back s.ch s v.ch_bounded refl v.unread_bounded

pub read_one-SubInv : (n id : ℕ) (s : Subscription) → SubInv n s → SubInv n (read_one id s)
read_one-SubInv n id s v = record {
  ordered = rw (stream-read_one id s) v.ordered;
  ch_bounded = unfold read_one in ground arith;
  unread_bounded = unfold read_one in ground arith;
}
