-- ===== src/Notify/Retries/Owing.antt =====
-- internal/store/store.go: the deliveries that the table already holds, and the ones that a claim or an opt-in
-- adds or removes.
use thornhill.Base.{
  ℕ, ◌+◌, ◌≤◌, ◌<◌, ◌≡◌, refl, not, ◌&&◌, Option, none, some, List, [], ◌∷◌, ◌++◌, String, ◌==◌,
  arith, if_elim,
}
use thornhill.Store.Outbox.{AttentionRow, has_number, is_none}
use thornhill.Store.Outbox.Push.{
  Subscription, DeliveryRow, Outbox, find_endpoint, find_subscription, delete_unsent, upsert_found,
  upsert_push_subscription, delete_endpoint, cascade, delete_push_subscription, owed, has_delivery,
  owe, owe_row, owe_all,
}
use thornhill.Notify.Retries.{count, InOrder, Backed}

-- The table and the log of retries fit together, and keys that are still to come were never put back.
pub record Sound (c : List ℕ) (box : Outbox) : Type 0 where
  pub positive : 0 < box.next_delivery
  pub order : InOrder 0 box.deliveries
  pub backed : Backed c box.next_delivery [] box.deliveries
  pub fresh : (k : ℕ) → box.next_delivery ≤ k → count k c ≡ 0

InOrder-append :
    (c : List ℕ) (next b : ℕ) (rows : List DeliveryRow) (d : DeliveryRow)
    → d.id ≡ next
    → b < next
    → Backed c next [] rows
    → InOrder b rows
    → InOrder b (rows ++ d ∷ [])
InOrder-append c next b [] d e lt h o = (omega arith, tt)
InOrder-append c next b (x ∷ rows) d e lt (n, lt', h) (lo, o) =
    (lo, InOrder-append c next x.id rows d e lt' h o)

Backed-append :
    (c : List ℕ) (next : ℕ) (rows : List DeliveryRow) (d : DeliveryRow)
    → d.id ≡ next
    → count next c ≡ 0
    → Backed c next [] rows
    → Backed c (next + 1) [] (rows ++ d ∷ [])
unfolding has_number
Backed-append c next [] d e z h = (rw e (rw z (omega arith)), omega arith, tt)
Backed-append c next (x ∷ rows) d e z (n, lt, h) =
    (n, omega arith, Backed-append c next rows d e z h)

owe-Sound :
    (c : List ℕ) (now : ℕ) (a : AttentionRow) (s : Subscription) (box : Outbox)
    → Sound c box
    → Sound c (owe now a s box)
unfolding owe
owe-Sound c now a s box h =
    let d : DeliveryRow = record {
      id = box.next_delivery;
      attention_id = a.id;
      subscription_id = s.id;
      attempts = 0;
      next_attempt_at = now;
      claim_token = "";
      claim_until = none;
      sent_at = none;
      failed_at = none;
      last_error = "";
    } in
    if_elim (Sound c) (owed a s && not (has_delivery a.id s.id box.deliveries))
      (record {
        positive = omega arith;
        order =
            InOrder-append c box.next_delivery 0 box.deliveries d refl h.positive h.backed h.order;
        backed =
            Backed-append c box.next_delivery box.deliveries d refl
              (h.fresh box.next_delivery (omega arith)) h.backed;
        fresh = λ k le. h.fresh k (omega arith);
      })
      h

owe_row-Sound :
    (c : List ℕ) (now : ℕ) (a : AttentionRow) (subs : List Subscription) (box : Outbox)
    → Sound c box
    → Sound c (owe_row now a subs box)
unfolding owe_row
owe_row-Sound c now a [] box h = h
owe_row-Sound c now a (s ∷ subs) box h =
    owe_row-Sound c now a subs (owe now a s box) (owe-Sound c now a s box h)

pub owe_all-Sound :
    (c : List ℕ) (now : ℕ) (rows : List AttentionRow) (subs : List Subscription) (box : Outbox)
    → Sound c box
    → Sound c (owe_all now rows subs box)
unfolding owe_all
owe_all-Sound c now [] subs box h = h
owe_all-Sound c now (a ∷ rows) subs box h =
    owe_all-Sound c now rows subs (owe_row now a subs box) (owe_row-Sound c now a subs box h)

-- Rows may be removed.
InOrder-lower : (b b' : ℕ) (rows : List DeliveryRow) → b' ≤ b → InOrder b rows → InOrder b' rows
InOrder-lower b b' [] le o = tt
InOrder-lower b b' (d ∷ rows) le (lo, o) = (omega arith, o)

delete_unsent-keeps :
    (sid : ℕ) (c : List ℕ) (next b : ℕ) (rows : List DeliveryRow)
    → InOrder b rows
    → Backed c next [] rows
    → InOrder b (delete_unsent sid rows) × Backed c next [] (delete_unsent sid rows)
unfolding delete_unsent
delete_unsent-keeps sid c next b [] o h = (tt, tt)
delete_unsent-keeps sid c next b (d ∷ rows) (lo, o) (n, lt, h) =
    let (o', h') = delete_unsent-keeps sid c next d.id rows o h in
    if_elim (λ (xs : List DeliveryRow). InOrder b xs × Backed c next [] xs)
      (d.subscription_id == sid && is_none d.sent_at)
      (InOrder-lower d.id b (delete_unsent sid rows) (omega arith) o', h') ((lo, o'), (n, lt, h'))

cascade-keeps :
    (subs : List Subscription) (c : List ℕ) (next b : ℕ) (rows : List DeliveryRow)
    → InOrder b rows
    → Backed c next [] rows
    → InOrder b (cascade subs rows) × Backed c next [] (cascade subs rows)
unfolding cascade
cascade-keeps subs c next b [] o h = (tt, tt)
cascade-keeps subs c next b (d ∷ rows) (lo, o) (n, lt, h) =
    let (o', h') = cascade-keeps subs c next d.id rows o h in
    if_elim (λ (xs : List DeliveryRow). InOrder b xs × Backed c next [] xs)
      (is_none (find_subscription d.subscription_id subs))
      (InOrder-lower d.id b (cascade subs rows) (omega arith) o', h') ((lo, o'), (n, lt, h'))

abbrev with_rows :
    (c : List ℕ) (box box' : Outbox)
    → Sound c box
    → box'.next_delivery ≡ box.next_delivery
    → InOrder 0 box'.deliveries × Backed c box.next_delivery [] box'.deliveries
    → Sound c box'
with_rows c box box' h e (o, b) = record {
  positive = rw e h.positive;
  order = o;
  backed = rw e b;
  fresh = λ k le. h.fresh k (rw (← e) le);
}

upsert_found-Sound :
    (c : List ℕ) (now : ℕ) (e p a : String) (box : Outbox) (o : Option Subscription)
    → Sound c box
    → Sound c (upsert_found now e p a box o)
unfolding upsert_found
upsert_found-Sound c now e p a box none h = with_rows c box _ h refl (h.order, h.backed)
upsert_found-Sound c now e p a box (some s) h =
    if_elim (Sound c) (is_none s.disabled_at) (with_rows c box _ h refl (h.order, h.backed)) (
      with_rows c box _ h refl
        (delete_unsent-keeps s.id c box.next_delivery 0 box.deliveries h.order h.backed))

pub upsert-Sound :
    (c : List ℕ) (now : ℕ) (e p a : String) (box : Outbox)
    → Sound c box
    → Sound c (upsert_push_subscription now e p a box)
unfolding upsert_push_subscription
upsert-Sound c now e p a box h =
    upsert_found-Sound c now e p a box (find_endpoint e box.subscriptions) h

pub delete-Sound :
    (c : List ℕ) (e : String) (box : Outbox)
    → Sound c box
    → Sound c (delete_push_subscription e box)
unfolding delete_push_subscription
delete-Sound c e box h = with_rows c box _ h refl (
    cascade-keeps (delete_endpoint e box.subscriptions) c box.next_delivery 0 box.deliveries h.order
      h.backed)
