-- ===== src/Store/Outbox/Push.antt =====
-- internal/store/store.go: subscriptions to Web Push and the deliveries that they are owed. A delivery of an
-- attention row to a subscription is made once; deleting a subscription deletes its deliveries. The
-- process's clock, which ends leases and sets retry times, and the database's `now()` are taken to agree here.
use thornhill.Base.{
  ℕ, zero, suc, ◌+◌, Bool, false, not, ◌&&◌, ◌||◌, Option, none, some, List, [], ◌∷◌, ◌++◌, String,
  str_eq, is_empty, ltb, leb, ◌==◌, if◌then◌else◌, concat, collapse, rune_count, take_runes,
}
use thornhill.Store.Outbox.{AttentionRow, is_none, lapsed, claim_limit}

pub record Subscription : Type 0 where
  pub id : ℕ
  pub endpoint : String
  pub p256dh : String
  pub auth : String
  pub created_at : ℕ
  pub disabled_at : Option ℕ

pub record DeliveryRow : Type 0 where
  pub id : ℕ
  pub attention_id : ℕ
  pub subscription_id : ℕ
  pub attempts : ℕ
  pub next_attempt_at : ℕ
  pub claim_token : String
  pub claim_until : Option ℕ
  pub sent_at : Option ℕ
  pub failed_at : Option ℕ
  pub last_error : String

-- What a claim returns of a delivery.
pub record PushDelivery : Type 0 where
  pub id : ℕ
  pub subscription_id : ℕ
  pub endpoint : String
  pub p256dh : String
  pub auth : String
  pub title : String
  pub body : String
  pub attention_id : ℕ
  pub attempts : ℕ

pub record Outbox : Type 0 where
  pub attention : List AttentionRow
  pub subscriptions : List Subscription
  pub deliveries : List DeliveryRow
  pub next_subscription : ℕ
  pub next_delivery : ℕ

-- `compactAttentionText`.
unfoldable pub compact_attention_text : String → ℕ → String
compact_attention_text value limit =
    let text = collapse value in
    if is_empty text
    then "(no details provided)"
    else if ltb limit (rune_count text)
    then concat (take_runes limit text ∷ "…" ∷ [])
    else text

unfoldable pub find_attention : ℕ → List AttentionRow → Option AttentionRow
find_attention id [] = none
find_attention id (r ∷ rows) =
    let rest = find_attention id rows in if r.id == id then some r else rest

unfoldable pub find_subscription : ℕ → List Subscription → Option Subscription
find_subscription id [] = none
find_subscription id (s ∷ rows) =
    let rest = find_subscription id rows in if s.id == id then some s else rest

unfoldable pub find_endpoint : String → List Subscription → Option Subscription
find_endpoint e [] = none
find_endpoint e (s ∷ rows) =
    let rest = find_endpoint e rows in if str_eq s.endpoint e then some s else rest

unfoldable pub set_subscription : Subscription → List Subscription → List Subscription
set_subscription x [] = []
set_subscription x (s ∷ rows) =
    let rest = set_subscription x rows in if s.id == x.id then x ∷ rest else s ∷ rest

-- `DELETE FROM push_deliveries WHERE subscription_id=$1 AND sent_at IS NULL`.
unfoldable pub delete_unsent : ℕ → List DeliveryRow → List DeliveryRow
delete_unsent sid [] = []
delete_unsent sid (d ∷ rows) =
    let rest = delete_unsent sid rows in
    if d.subscription_id == sid && is_none d.sent_at then rest else d ∷ rest

unfoldable pub upsert_found : ℕ → String → String → String → Outbox → Option Subscription → Outbox
upsert_found now endpoint p256dh auth box none = record box {
  subscriptions =
      box.subscriptions
      ++ record {
        id = box.next_subscription;
        endpoint = endpoint;
        p256dh = p256dh;
        auth = auth;
        created_at = now;
        disabled_at = none;
      }
        ∷ [];
  next_subscription = box.next_subscription + 1;
}
upsert_found now endpoint p256dh auth box (some s) =
    if is_none s.disabled_at
    then record box {
      subscriptions =
          set_subscription (record s { p256dh = p256dh; auth = auth }) box.subscriptions;
    }
    else record box {
      subscriptions =
          set_subscription
            (record s { p256dh = p256dh; auth = auth; created_at = now; disabled_at = none })
            box.subscriptions;
      deliveries = delete_unsent s.id box.deliveries;
    }

-- `UpsertPushSubscription`: an endpoint that was disabled starts anew.
unfoldable pub upsert_push_subscription : ℕ → String → String → String → Outbox → Outbox
upsert_push_subscription now endpoint p256dh auth box =
    upsert_found now endpoint p256dh auth box (find_endpoint endpoint box.subscriptions)

unfoldable pub delete_endpoint : String → List Subscription → List Subscription
delete_endpoint e [] = []
delete_endpoint e (s ∷ rows) =
    let rest = delete_endpoint e rows in if str_eq s.endpoint e then rest else s ∷ rest

-- `ON DELETE CASCADE`: only the deliveries of the subscriptions that are left.
unfoldable pub cascade : List Subscription → List DeliveryRow → List DeliveryRow
cascade subs [] = []
cascade subs (d ∷ rows) =
    let rest = cascade subs rows in
    if is_none (find_subscription d.subscription_id subs) then rest else d ∷ rest

-- `DeletePushSubscription`.
unfoldable pub delete_push_subscription : String → Outbox → Outbox
delete_push_subscription e box =
    let subs = delete_endpoint e box.subscriptions in
    record box { subscriptions = subs; deliveries = cascade subs box.deliveries }

unfoldable pub has_delivery : ℕ → ℕ → List DeliveryRow → Bool
has_delivery aid sid [] = false
has_delivery aid sid (d ∷ rows) =
    let rest = has_delivery aid sid rows in
    (d.attention_id == aid && d.subscription_id == sid) || rest

unfoldable pub owed : AttentionRow → Subscription → Bool
owed a s = is_none a.spoken_at && (is_none s.disabled_at && leb s.created_at a.created_at)

-- One pair of the cross join; an existing delivery is left alone.
unfoldable pub owe : ℕ → AttentionRow → Subscription → Outbox → Outbox
owe now a s box =
    if owed a s && not (has_delivery a.id s.id box.deliveries)
    then record box {
      deliveries =
          box.deliveries
          ++ record {
            id = box.next_delivery;
            attention_id = a.id;
            subscription_id = s.id;
            attempts = 0;
            next_attempt_at = now;
            claim_token = "";
            claim_until = none;
            sent_at = none;
            failed_at = none;
            last_error = "";
          }
            ∷ [];
      next_delivery = box.next_delivery + 1;
    }
    else box

unfoldable pub owe_row : ℕ → AttentionRow → List Subscription → Outbox → Outbox
owe_row now a [] box = box
owe_row now a (s ∷ subs) box = owe_row now a subs (owe now a s box)

unfoldable pub owe_all : ℕ → List AttentionRow → List Subscription → Outbox → Outbox
owe_all now [] subs box = box
owe_all now (a ∷ rows) subs box = owe_all now rows subs (owe_row now a subs box)

abbrev pub wanted : Option AttentionRow → Option Subscription → Bool
wanted (some a) (some s) = is_none a.spoken_at && is_none s.disabled_at
wanted _ _ = false

-- The condition of the candidates.
unfoldable pub delivery_claimable : ℕ → Outbox → DeliveryRow → Bool
delivery_claimable now box d =
    is_none d.sent_at
    && (is_none d.failed_at
        && (wanted (find_attention d.attention_id box.attention)
              (find_subscription d.subscription_id box.subscriptions)
            && (leb d.next_attempt_at now && lapsed now d.claim_until)))

abbrev pub returned : DeliveryRow → Option AttentionRow → Option Subscription → List PushDelivery
returned d (some a) (some s) =
    record {
      id = d.id;
      subscription_id = d.subscription_id;
      endpoint = s.endpoint;
      p256dh = s.p256dh;
      auth = s.auth;
      title = a.push_title;
      body = a.push_body;
      attention_id = a.id;
      attempts = d.attempts;
    }
    ∷ []
returned d _ _ = []

unfoldable pub returned_delivery : Outbox → DeliveryRow → List PushDelivery
returned_delivery box d =
    returned d (find_attention d.attention_id box.attention)
      (find_subscription d.subscription_id box.subscriptions)

abbrev pub claimed_delivery : String → ℕ → DeliveryRow → DeliveryRow
claimed_delivery token until d = record d {
  claim_token = token;
  claim_until = some until;
  attempts = d.attempts + 1;
}

-- The first rows that can be claimed, as in the table of attention.
unfoldable pub claim_deliveries :
    ℕ → String → ℕ → ℕ → Outbox → List DeliveryRow → List DeliveryRow × List PushDelivery
claim_deliveries now token until zero box rows = (rows, [])
claim_deliveries now token until (suc n) box [] = ([], [])
claim_deliveries now token until (suc n) box (d ∷ rows) =
    let (taken, out) = claim_deliveries now token until n box rows in
    let (passed, out') = claim_deliveries now token until (suc n) box rows in
    if delivery_claimable now box d
    then (
      claimed_delivery token until d ∷ taken,
      returned_delivery box (claimed_delivery token until d) ++ out,
    )
    else (d ∷ passed, out')

-- `ClaimPushDeliveries`; `none` is the error for an empty token.
unfoldable pub claim_push_deliveries :
    ℕ → String → ℕ → ℕ → Outbox → Outbox × Option (List PushDelivery)
claim_push_deliveries now token limit lease box =
    let box' = owe_all now box.attention box.subscriptions box in
    let (rows, out) =
      claim_deliveries now token (now + lease) (claim_limit limit) box' box'.deliveries in
    if is_empty token then (box, none) else (record box' { deliveries = rows }, some out)
