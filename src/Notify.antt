-- ===== src/Notify.antt =====
-- internal/notify/notify.go: the worker that delivers the outbox by Web Push while no voice session is live.
-- What a delivery meets on its way is an `Answer`; logging is left out, and so is the failure of the
-- payload's JSON, whose fields are texts.
pub mod Worker
pub mod Delay
pub mod Live
pub mod Retries
use thornhill.Base.{
  ℕ, zero, suc, ◌+◌, ◌-◌, ◌*◌, ◌^◌, Bool, true, false, not, ◌&&◌, ◌||◌, Option, none, some, List,
  [], ◌∷◌, ◌++◌, String, str_eq, is_empty, ltb, leb, ◌==◌, if◌then◌else◌, concat, decimal,
}
use thornhill.Store.Outbox.Push.{PushDelivery, Outbox}

pub data SendError : Type 0 where
  deadline_exceeded canceled transport became_live : SendError

-- What one delivery meets: whether the voice is live before it, at the lock of the send and after it; the
-- provider's status and error; whether the send was cancelled; whether the worker is shut down at the
-- end of the send and after it; and whether the store fails to record the outcome.
pub record Answer : Type 0 where
  pub live_before : Bool
  pub live_at_lock : Bool
  pub live_after : Bool
  pub status : ℕ
  pub error : Option SendError
  pub cancelled : Bool
  pub done_in_send : Bool
  pub done : Bool
  pub store_fails : Bool

abbrev max_delivery_attempts : ℕ
max_delivery_attempts = 6

abbrev pub batch_size : ℕ
batch_size = 20

-- In seconds.
abbrev pub claim_lease : ℕ
claim_lease = 60

unfoldable pub retryable : ℕ → Bool
retryable status = status == 0 || (status == 429 || (leb 500 status && leb status 599))

-- In seconds; attempts that are not positive are 0 here.
unfoldable pub retry_delay : ℕ → ℕ
retry_delay attempt =
    let low = if ltb attempt 1 then 1 else attempt in
    let clamped = if ltb 6 low then 6 else low in 2 ^ (clamped - 1) * 30

unfoldable pub safe_delivery_error : ℕ → Option SendError → String
safe_delivery_error status e =
    if ltb 0 status
    then concat ("push provider returned HTTP " ∷ decimal status ∷ [])
    else (elim e [
      | some deadline_exceeded ↦ "push provider request timed out"
      | some canceled ↦ "push provider request was cancelled"
      | _ ↦ "push provider transport failed"
    ])

abbrev is_error : Option SendError → Bool
is_error none = false
is_error (some e) = true

-- `Worker.send`: whether the provider was called, and the status and the error.
unfoldable pub send : Answer → Bool × (ℕ × Option SendError)
send a =
    if a.live_at_lock
    then (false, (0, some became_live))
    else if is_error a.error && (a.cancelled && (not a.done_in_send && a.live_after))
    then (true, (0, some became_live))
    else (true, (a.status, a.error))

-- What the loop of `deliver` does after a send.
pub data Outcome : Type 0 where
  delivered interrupted gone backoff abandoned : Outcome

unfoldable pub outcome_of_error : Bool → ℕ → ℕ → SendError → Outcome
outcome_of_error done attempts status became_live = interrupted
outcome_of_error done attempts status e =
    if done
    then interrupted
    else if status == 404 || status == 410
    then gone
    else if retryable status && ltb attempts max_delivery_attempts
    then backoff
    else abandoned

unfoldable pub outcome : Bool → ℕ → ℕ × Option SendError → Outcome
outcome done attempts (status, none) = delivered
outcome done attempts (status, some e) = outcome_of_error done attempts status e

unfoldable pub noteworthy : String → Bool
noteworthy kind =
    str_eq kind "job.done"
    || (str_eq kind "job.failed"
        || (str_eq kind "job.needs_input"
            || (str_eq kind "job.needs_approval" || str_eq kind "job.approval_parked")))

-- The states of the session in which the desk is spoken to.
unfoldable pub is_live_state : String → Bool
is_live_state s = str_eq s "LIVE" || (str_eq s "QUIET" || str_eq s "PARKING")
