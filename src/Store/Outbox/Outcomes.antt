-- ===== src/Store/Outbox/Outcomes.antt =====
-- internal/store/store.go: how a claimed delivery ends.
use thornhill.Base.{
  ℕ, ◌&&◌, none, some, List, [], ◌∷◌, String, str_eq, is_empty, ◌==◌, if◌then◌else◌,
}
use thornhill.Store.Outbox.{is_none}
use thornhill.Store.Outbox.Push.{Subscription, DeliveryRow, Outbox, compact_attention_text}

-- An `UPDATE push_deliveries` by key and token of a row that was not sent.
unfoldable pub update_claimed :
    ℕ → String → (DeliveryRow → DeliveryRow) → List DeliveryRow → List DeliveryRow
update_claimed id token f [] = []
update_claimed id token f (d ∷ rows) =
    let rest = update_claimed id token f rows in
    if d.id == id && (str_eq d.claim_token token && is_none d.sent_at) then f d ∷ rest else d ∷ rest

unfoldable pub release_delivery : String → DeliveryRow → DeliveryRow
release_delivery token d =
    if str_eq d.claim_token token && is_none d.sent_at
    then record d { claim_token = ""; claim_until = none }
    else d

unfoldable pub release_deliveries : String → List DeliveryRow → List DeliveryRow
release_deliveries token [] = []
release_deliveries token (d ∷ rows) = release_delivery token d ∷ release_deliveries token rows

-- `ReleasePushClaim`.
unfoldable pub release_push_claim : String → Outbox → Outbox
release_push_claim token box =
    if is_empty token
    then box
    else record box { deliveries = release_deliveries token box.deliveries }

abbrev pub as_delivered : ℕ → DeliveryRow → DeliveryRow
as_delivered now d = record d {
  sent_at = some now;
  claim_token = "";
  claim_until = none;
  last_error = "";
}

-- `MarkPushDelivered`.
unfoldable pub mark_push_delivered : ℕ → String → ℕ → Outbox → Outbox
mark_push_delivered now token id box = record box {
  deliveries = update_claimed id token (as_delivered now) box.deliveries;
}

abbrev pub as_failed : ℕ → String → DeliveryRow → DeliveryRow
as_failed retry_at message d = record d {
  next_attempt_at = retry_at;
  claim_token = "";
  claim_until = none;
  last_error = message;
}

-- `MarkPushFailed`.
unfoldable pub mark_push_failed : String → ℕ → ℕ → String → Outbox → Outbox
mark_push_failed token id retry_at message box = record box {
  deliveries =
      update_claimed id token (as_failed retry_at (compact_attention_text message 300))
        box.deliveries;
}

-- A row that has already failed for good is left alone.
abbrev pub as_abandoned : ℕ → String → DeliveryRow → DeliveryRow
as_abandoned now message d =
    if is_none d.failed_at
    then record d {
      failed_at = some now;
      claim_token = "";
      claim_until = none;
      last_error = message;
    }
    else d

-- `MarkPushAbandoned`.
unfoldable pub mark_push_abandoned : ℕ → String → ℕ → String → Outbox → Outbox
mark_push_abandoned now token id message box = record box {
  deliveries =
      update_claimed id token (as_abandoned now (compact_attention_text message 300))
        box.deliveries;
}

unfoldable pub disable_id : ℕ → ℕ → List Subscription → List Subscription
disable_id now id [] = []
disable_id now id (s ∷ rows) =
    let rest = disable_id now id rows in
    if s.id == id then record s { disabled_at = some now } ∷ rest else s ∷ rest

-- `DisablePushSubscription`.
unfoldable pub disable_push_subscription : ℕ → ℕ → Outbox → Outbox
disable_push_subscription now id box = record box {
  subscriptions = disable_id now id box.subscriptions;
}
