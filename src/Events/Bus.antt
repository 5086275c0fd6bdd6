-- ===== src/Events/Bus.antt =====
-- internal/events/bus.go: the in-process event bus with bounded replay. A locked region is one step;
-- goroutines (the persistence loop, a subscription's pump) are the steps `persist_next` and `pump`.
-- The store that persists is not under this package: `appended` lists what it was given. Payloads are
-- JSON texts, `none` where there is none or it cannot be marshalled. The int64 `seq` counts from 0 and
-- is not modelled up to its overflow.
pub mod Order
pub mod Queue
pub mod Invariant
pub mod Replay
pub mod Shutdown
use thornhill.Base.{
  ℕ, ◌+◌, ◌-◌, Bool, true, false, not, ◌&&◌, Option, none, some, List, [], ◌∷◌, ◌++◌, map, String,
  length, drop, ltb, ◌==◌, if◌then◌else◌,
}

pub record Event : Type 0 where
  pub seq : ℕ
  pub ts : ℕ
  pub kind : String
  pub job_id : String
  pub payload : Option String

-- `done` says that a publisher waits for the item.
pub record PersistItem : Type 0 where
  pub event : Event
  pub done : Bool

-- A subscription: the channel `ch` that `publish` offers to, the replay `back` that the pump has not
-- sent yet, the event of `ch` that it holds, and `out`, all that it sent so far. Its sends block while
-- the 64 places of its own channel are taken: `unread` counts them.
pub record Subscription : Type 0 where
  pub id : ℕ
  pub ch : List Event
  pub back : List Event
  pub held : Option Event
  pub out : List Event
  pub unread : ℕ

pub record Bus : Type 0 where
  pub subs : List Subscription
  pub next_sub : ℕ
  pub seq : ℕ
  pub ring : List Event
  pub ring_cap : ℕ
  pub has_persist : Bool
  pub persist_q : List PersistItem
  pub persist_closed : Bool
  pub appended : List Event

abbrev pub sub_cap : ℕ
sub_cap = 64

abbrev pub persist_cap : ℕ
persist_cap = 256

unfoldable pub new_bus : Bool → Bus
new_bus has_persist = record {
  subs = [];
  next_sub = 0;
  seq = 0;
  ring = [];
  ring_cap = 256;
  has_persist = has_persist;
  persist_q = [];
  persist_closed = false;
  appended = [];
}

abbrev first_appended : List PersistItem → List Event
first_appended [] = []
first_appended (i ∷ q) = i.event ∷ []

abbrev rest_of {ℓ} : {A : Type ℓ} → List A → List A
rest_of [] = []
rest_of (x ∷ xs) = xs

-- One round of `persistLoop`; it blocks while the queue is empty.
unfoldable pub persist_next : Bus → Bus
persist_next b = record b {
  persist_q = rest_of b.persist_q;
  appended = b.appended ++ first_appended b.persist_q;
}

unfoldable pub push_item : Event → Bool → Bus → Bus
push_item e waits b = record b {
  persist_q = b.persist_q ++ record { event = e; done = waits } ∷ [];
}

-- `freed` says whether the persistence loop takes an item before the two seconds of a synchronous
-- publication are over; it matters only while the queue is full. The result says whether the
-- publisher waits for the item.
unfoldable pub enqueue_persistence : Event → Bool → Bool → Bus → Bus × Bool
enqueue_persistence e synchronous freed b =
    if not b.has_persist
    then (b, false)
    else if b.persist_closed
    then (b, false)
    else if ltb (length b.persist_q) persist_cap
    then (push_item e synchronous b, synchronous)
    else if synchronous && freed
    then (push_item e true (persist_next b), true)
    else (b, false)

-- The send of `publish` to a subscriber's channel, which never blocks: a full one drops the event.
unfoldable pub offer : Event → Subscription → Subscription
offer e s = if ltb (length s.ch) sub_cap then record s { ch = s.ch ++ e ∷ [] } else s

-- The ring keeps the last `cap` events.
unfoldable pub push_ring : ℕ → List Event → Event → List Event
push_ring cap ring e =
    let ring' = ring ++ e ∷ [] in
    if ltb cap (length ring') then drop (length ring' - cap) ring' else ring'

pub record Published : Type 0 where
  pub bus : Bus
  pub event : Event
  pub waits : Bool

pub record Publication : Type 0 where
  pub now : ℕ
  pub kind : String
  pub job_id : String
  pub payload : Option String
  pub synchronous : Bool
  pub freed : Bool

abbrev pub stamp : Publication → ℕ → Event
stamp p n = record { seq = n; ts = p.now; kind = p.kind; job_id = p.job_id; payload = p.payload }

pub fan_out : Event → Bus → Bus
fan_out e b = record b { ring = push_ring b.ring_cap b.ring e; subs = map (offer e) b.subs }

-- `publish`, for `Publish` and `PublishSync`.
unfoldable pub publish : Publication → Bus → Published
unfolding fan_out
publish p b =
    let e = stamp p (b.seq + 1) in
    let (b', waits) = enqueue_persistence e p.synchronous p.freed (record b { seq = b.seq + 1 }) in
    record { bus = fan_out e b'; event = e; waits = waits }

unfoldable pub subscribe : Bool → Bus → Bus
subscribe replay b = record b {
  next_sub = b.next_sub + 1;
  subs =
      b.subs
      ++ record {
        id = b.next_sub;
        ch = [];
        back = if replay then b.ring else [];
        held = none;
        out = [];
        unread = 0;
      }
        ∷ [];
}

unfoldable pub unsubscribe_from : ℕ → List Subscription → List Subscription
unsubscribe_from id [] = []
unsubscribe_from id (s ∷ ss) =
    let rest = unsubscribe_from id ss in if s.id == id then rest else s ∷ rest

unfoldable pub unsubscribe : ℕ → Bus → Bus
unsubscribe id b = record b { subs = unsubscribe_from id b.subs }

send_out : Event → Subscription → Subscription
send_out e s = record s { out = s.out ++ e ∷ []; unread = s.unread + 1 }

-- What the pump does next: send the event that it holds, else send one of the replay, else take one
-- from the channel.
pump_next : Option Event → List Event → List Event → Subscription → Subscription
unfolding send_out
pump_next (some e) back ch s =
    if ltb s.unread sub_cap then send_out e (record s { held = none }) else s
pump_next none (e ∷ back) ch s =
    if ltb s.unread sub_cap then send_out e (record s { back = back }) else s
pump_next none [] (e ∷ ch) s = record s { held = some e; ch = ch }
pump_next none [] [] s = s

-- One round of the pump of subscription `id`.
unfoldable pub pump_one : ℕ → Subscription → Subscription
unfolding pump_next
pump_one id s = if s.id == id then pump_next s.held s.back s.ch s else s

unfoldable pub pump : ℕ → Bus → Bus
pump id b = record b { subs = map (pump_one id) b.subs }

-- The subscriber takes one event from its output channel.
pub read_one : ℕ → Subscription → Subscription
read_one id s = if s.id == id then record s { unread = s.unread - 1 } else s

unfoldable pub read : ℕ → Bus → Bus
unfolding read_one
read id b = record b { subs = map (read_one id) b.subs }

-- `Close`; the persistence loop then drains what is queued.
unfoldable pub close : Bus → Bus
close b = if b.has_persist then record b { persist_closed = true } else b

pub data Op : Type 0 where
  publishes : Publication → Op
  subscribes : Bool → Op
  unsubscribes pumps reads : ℕ → Op
  persists closes : Op

unfoldable pub step : Bus → Op → Bus
step b (publishes p) = (publish p b).bus
step b (subscribes replay) = subscribe replay b
step b (unsubscribes id) = unsubscribe id b
step b (pumps id) = pump id b
step b (reads id) = read id b
step b persists = persist_next b
step b closes = close b

unfoldable pub run : Bus → List Op → Bus
run b [] = b
run b (o ∷ os) = run (step b o) os
