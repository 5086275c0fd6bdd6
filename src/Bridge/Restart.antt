-- ===== src/Bridge/Restart.antt =====
-- internal/bridge/hermes.go: what one round of the reconciliation does to the table of jobs.
pub mod Steps
pub mod Parks
pub mod Rounds
pub mod Whole
use mathlib.Core.Path.{subst}
use thornhill.Base.{
  ℕ, ◌≡◌, ◌≢◌, refl, sym, ◌∙◌, ap, Bool, true, false, not, ◌&&◌, ◌||◌, ◌⊎◌, inl, inr, Option, none,
  some, List, [], ◌∷◌, ◌++◌, String, is_empty, str_eq, ◌==◌, eq_iff, arith, if◌then◌else◌, if_elim,
  Bool-cases, concat,
}
use thornhill.Store.Job.{
  Status, running, needs_approval, needs_input, failed, parked_approval, Approval, Job, status_eq,
  is_pending,
}
use thornhill.Store.Jobs.{
  Db, Error, Result, ok, err, Updated, find, stamped, update_job, park_approval, park_mut, awaits,
  or_stale, approval_stale,
}
use thornhill.Store.Jobs.Update.{
  KeepsId, found-update, update_job-found, update_job_row, update_job_writes,
}
use thornhill.Bridge.{Hermes, World, Outcome, Refusal, Owner, store_error}
use thornhill.Bridge.Cleanup.{stop_and_confirm_terminal_outcome, stop_and_verify, cleanup_err}
use thornhill.Bridge.Indeterminate.{append_failure_evidence}
use thornhill.Bridge.Parking.{
  release_mut, Released, unconfirmed, unwritten, released_row, written, release_parked_run,
  after_release, released_parked, parked_with, park_approval_locked,
}
use thornhill.Bridge.Ownership.{
  release_run, released_by, cancel_owned_run, cancel_owner, find_owner,
}
use thornhill.Bridge.Turn.{sole_pending}
use thornhill.Bridge.Orphans.{
  Broken, Reconciled, reconciled, breaks, holds_run, clear_mut, cleared, clear_run_of,
  reconcile_failed, released_input, reconcile_input, released_again, reconcile_parked, parked_again,
  orphan_evidence, orphan_mut, orphaned, orphan_cleanup, orphan_row, reconcile_orphan,
  reconcile_working, reconcile_row,
}

-- The statuses in which a run is at work or waits for a decision.
abbrev pub is_open : Status → Bool
is_open running = true
is_open needs_approval = true
is_open _ = false

abbrev pub open_row : Option Job → Bool
open_row none = false
open_row (some j) = is_open j.status

-- No other writer comes in between.
abbrev pub Undisturbed : World → Type 0
Undisturbed w = ((db : Db) → w.meanwhile db ≡ db) × ((db : Db) → w.before_claim db ≡ db)

-- The other rows are as they were, and this one is not opened.
abbrev pub Keeps : String → Db → Db → Type 0
Keeps id db db' =
    ((k : String) → k ≢ id → find k db'.jobs ≡ find k db.jobs)
    × ((open_row (find id db.jobs) ≡ false) → open_row (find id db'.jobs) ≡ false)

abbrev pub Shuts : String → Db → Db → Type 0
Shuts id db db' = Keeps id db db' × (open_row (find id db'.jobs) ≡ false)

pub Keeps-refl : (id : String) (db : Db) → Keeps id db db
Keeps-refl id db = (λ k n. refl, λ q. q)

pub Keeps-trans : (id : String) (a b c : Db) → Keeps id a b → Keeps id b c → Keeps id a c
Keeps-trans id a b c (frame, kept) (frame', kept') =
    (λ k n. frame' k n ∙ frame k n, λ q. kept' (kept q))

stamped-open : (now : ℕ) (j : Job) → (stamped now j).status ≡ j.status
unfolding stamped
stamped-open now j = refl

-- The row that an update leaves has the status of its closure.
row-status :
    (now : ℕ) (id : String) (mut : Job → Job × Bool) (db : Db) {u : Updated}
    → KeepsId mut
    → update_job now id mut db ≡ ok u
    → (j : Job) × (find id db.jobs ≡ some j)
      × (open_row (find id u.db.jobs) ≡ is_open (mut j).0.status)
row-status now id mut db {u} keeps h =
    let (j, at, e) = update_job-found now id mut db h in
    let w = found-update now mut db j e in
    (
      j,
      at,
      ap open_row (update_job_row now id mut db keeps h)
          ∙ ap (λ (x : Job). is_open x.status) w.0
          ∙ ap is_open (stamped-open now (mut j).0),
    )

pub update-Keeps :
    (now : ℕ) (id : String) (mut : Job → Job × Bool) (db : Db) {u : Updated}
    → KeepsId mut
    → ((j : Job) → is_open j.status ≡ false → is_open (mut j).0.status ≡ false)
    → update_job now id mut db ≡ ok u
    → Keeps id db u.db
update-Keeps now id mut db {u} keeps shut h =
    let (j, at, e) = row-status now id mut db keeps h in
    (
      λ k n. (update_job_writes now id mut db k keeps n h).1,
      λ q. e ∙ shut j (ap open_row (sym at) ∙ q),
    )

pub update-Shuts :
    (now : ℕ) (id : String) (mut : Job → Job × Bool) (db : Db) {u : Updated} (j : Job)
    → KeepsId mut
    → (find id db.jobs ≡ some j)
    → is_open (mut j).0.status ≡ false
    → update_job now id mut db ≡ ok u
    → Shuts id db u.db
update-Shuts now id mut db {u} j keeps at shut h =
    let (x, at', e) = row-status now id mut db keeps h in
    let same = ap (λ (o : Option Job). elim o [ none ↦ j | some y ↦ y ]) (sym at' ∙ at) in
    (
      (
        λ k n. (update_job_writes now id mut db k keeps n h).1,
        λ q. e ∙ ap (λ (y : Job). is_open (mut y).0.status) same ∙ shut,
      ),
      e ∙ ap (λ (y : Job). is_open (mut y).0.status) same ∙ shut,
    )

pub stop-db :
    (w : World) (run : String) (h : Hermes)
    → (stop_and_confirm_terminal_outcome w run h).1.db ≡ h.db
unfolding stop_and_confirm_terminal_outcome stop_and_verify
stop-db w run h = ground arith

pub clear-keeps :
    (s : Status) (run : String) (j : Job)
    → ((clear_mut s run j).0.id ≡ j.id) × ((clear_mut s run j).0.status ≡ j.status)
unfolding clear_mut
clear-keeps s run j = ground arith

pub release-keeps :
    (run : String) (j : Job)
    → ((release_mut run j).0.id ≡ j.id) × ((release_mut run j).0.status ≡ j.status)
unfolding release_mut
release-keeps run j = ground arith

pub orphan-keeps : (seen : Job) (e : Option String) (j : Job) → (orphan_mut seen e j).0.id ≡ j.id
unfolding orphan_mut orphan_evidence append_failure_evidence
orphan-keeps seen none j = ground arith
orphan-keeps seen (some e) j = ground arith

pub orphan-fails : (e : Option String) (j : Job) → (orphan_mut j e j).0.status ≡ failed
unfolding orphan_mut orphan_evidence append_failure_evidence
orphan-fails none j = ground (arith, eq_iff j.hermes_run_id j.hermes_run_id)
orphan-fails (some e) j = ground (arith, eq_iff j.hermes_run_id j.hermes_run_id)

pub park-keeps :
    (id nonce reason : String) (at : ℕ) (j : Job) → (park_mut id nonce reason at j).0.id ≡ j.id
unfolding park_mut
park-keeps id nonce reason at j = ground arith

pub park-parks :
    (id nonce reason : String) (at : ℕ) (j : Job)
    → ((park_mut id nonce reason at j).1 ≡ true)
    → (park_mut id nonce reason at j).0.status ≡ parked_approval
unfolding park_mut
park-parks id nonce reason at j h = ground arith

cancel_owner-db :
    (id run : String) (h : Hermes) (o : Option Owner) → (cancel_owner id run h o).db ≡ h.db
unfolding cancel_owner
cancel_owner-db id run h none = refl
cancel_owner-db id run h (some o) = ground arith

pub cancel-db : (id run : String) (h : Hermes) → (cancel_owned_run id run h).db ≡ h.db
unfolding cancel_owned_run
cancel-db id run h = cancel_owner-db id run h (find_owner id h.cancels)
