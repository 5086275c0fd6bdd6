-- ===== src/Bridge/Kept.antt =====
-- internal/bridge/hermes.go: the operations that keep no grant for later requests.
use thornhill.Base.{◌≡◌, refl, ◌∙◌, true, ◌⊎◌, Option, none, some, String, is_empty, arith, if_elim}
use thornhill.Store.Job.{allow_session, allow_always, Decision, Approval, Job}
use thornhill.Store.Jobs.{Db, Result, ok, err, Updated, update_job, park_approval}
use thornhill.Bridge.{Hermes, World, Outcome, Refusal, PostError}
use thornhill.Bridge.Cleanup.{
  TerminalCleanup, nothing_done, get_run_status, proven, stop_and_verify,
  stop_and_confirm_terminal_outcome,
}
use thornhill.Bridge.Indeterminate.{
  post_error_text, recorded, record_indeterminate_approval, fail_indeterminate_approval,
  reconcile_approval_lifecycle_conflict,
}
use thornhill.Bridge.Parking.{
  Released, unconfirmed, unwritten, released_row, written, release_mut, after_release,
  release_parked_run, released_parked, parked_with, park_approval_locked,
}
use thornhill.Bridge.Decide.{
  post_failure, is_lifecycle_conflict, keep_denial, keep_grant, resolved_with, post_failed,
  parked_because,
}

-- The grants kept for later requests are the same.
abbrev pub SameGrants : Hermes → Hermes → Type 0
SameGrants h h' =
    (h'.session_allows ≡ h.session_allows) × (h'.permanent_allows ≡ h.permanent_allows)

stop-SameGrants :
    (w : World) (run : String) (h : Hermes)
    → SameGrants h (stop_and_confirm_terminal_outcome w run h).1
unfolding stop_and_confirm_terminal_outcome stop_and_verify
stop-SameGrants w run h = ground arith

recorded-SameGrants :
    (id : String) (a : Approval) (d : Decision) (reason : String) (h : Hermes) (r : Result Updated)
    → SameGrants h (recorded id a d reason h r).hermes
unfolding recorded
recorded-SameGrants id a d reason h r = ground arith

record-SameGrants :
    (w : World) (id run : String) (a : Approval) (d : Decision) (cause : String)
    (c : TerminalCleanup) (h : Hermes)
    → SameGrants h (record_indeterminate_approval w id run a d cause c h).hermes
unfolding record_indeterminate_approval
record-SameGrants w id run a d cause c h = recorded-SameGrants id a d _ h _

fail-SameGrants :
    (w : World) (id run : String) (a : Approval) (d : Decision) (cause : String) (h : Hermes)
    → SameGrants h (fail_indeterminate_approval w id run a d cause h).hermes
unfolding fail_indeterminate_approval
fail-SameGrants w id run a d cause h =
    let s = stop_and_confirm_terminal_outcome w run h in
    let r = record-SameGrants w id run a d cause s.0 s.1 in
    let q = stop-SameGrants w run h in (r.0 ∙ q.0, r.1 ∙ q.1)

reconcile-SameGrants :
    (w : World) (id run : String) (a : Approval) (d : Decision) (cause : String) (h : Hermes)
    → SameGrants h (reconcile_approval_lifecycle_conflict w id run a d cause h).hermes
unfolding reconcile_approval_lifecycle_conflict
reconcile-SameGrants w id run a d cause h =
    let seen = get_run_status w.reconciled run in
    if_elim (λ (o : Outcome). SameGrants h o.hermes) (proven seen)
      (record-SameGrants w id run a d cause
        (record nothing_done { initial = seen.0; terminal = true }) h)
      (fail-SameGrants w id run a d cause h)

pub post_failed-SameGrants :
    (w : World) (id run : String) (d : Decision) (a : Approval) (e : PostError) (h : Hermes)
    → SameGrants h (post_failed w id run d a e h).hermes
unfolding post_failed
post_failed-SameGrants w id run d a e h =
    if_elim (λ (o : Outcome). SameGrants h o.hermes) (is_lifecycle_conflict e)
      (reconcile-SameGrants w id run a d (post_error_text e) h)
      (fail-SameGrants w id run a d (post_failure w.posted e) h)

pub resolved-SameGrants :
    (id : String) (d : Decision) (a : Approval) (e : Option String) (h : Hermes)
    (r : Result Updated)
    → SameGrants h (resolved_with id d a e h r).hermes
unfolding resolved_with
resolved-SameGrants id d a e h r = ground arith

pub denial-SameGrants :
    (w : World) (id : String) (d : Decision) (a : Approval) (h : Hermes)
    → SameGrants h (keep_denial w id d a h).0
unfolding keep_denial
denial-SameGrants w id d a h = ground arith

pub grant-cases :
    (w : World) (id : String) (d : Decision) (a : Approval) (e : Option String) (h : Hermes)
    → SameGrants h (keep_grant w id d a e h).0 ⊎ (d ≡ allow_session) ⊎ (d ≡ allow_always)
unfolding keep_grant
grant-cases w id d a e h = ground arith

written-SameGrants : (h : Hermes) (r : Result Updated) → SameGrants h (written h r).1
written-SameGrants h (err e) = (refl, refl)
written-SameGrants h (ok u) = (refl, refl)

release-SameGrants :
    (w : World) (id run : String) (h : Hermes) → SameGrants h (release_parked_run w id run h).1
unfolding release_parked_run
release-SameGrants w id run h =
    let s = stop_and_confirm_terminal_outcome w run h in
    let q = stop-SameGrants w run h in
    let r = written-SameGrants s.1 (update_job w.now id (release_mut run) s.1.db) in
    if_elim (λ (x : Released × Hermes). SameGrants h x.1) s.0.terminal (r.0 ∙ q.0, r.1 ∙ q.1) q

after-SameGrants :
    (id run : String) (j : Job) (h : Hermes) (r : Released × Hermes)
    → SameGrants h r.1
    → SameGrants h (after_release id run j r).1
after-SameGrants id run j h (released_row j', h') p = p
after-SameGrants id run j h (unconfirmed, h') p = p
after-SameGrants id run j h (unwritten e, h') p = p

released-SameGrants :
    (w : World) (id run : String) (j : Job) (h : Hermes)
    → SameGrants h (released_parked w id run j h).1
unfolding released_parked
released-SameGrants w id run j h =
    if_elim (λ (x : Job × Hermes). SameGrants h x.1) (is_empty run) (refl, refl)
      (after-SameGrants id run j h (release_parked_run w id run h) (release-SameGrants w id run h))

parked-SameGrants :
    (w : World) (id run : String) (h : Hermes) (r : Result Updated) (o : Option Db)
    → SameGrants h (parked_with w id run h (r, o)).hermes
unfolding parked_with
parked-SameGrants w id run h (err e) none = (refl, refl)
parked-SameGrants w id run h (err e) (some db) = (refl, refl)
parked-SameGrants w id run h (ok u) o = released-SameGrants w id run u.job (record h { db = u.db })

because-SameGrants :
    (why : Refusal) (h : Hermes) (o : Outcome)
    → SameGrants h o.hermes
    → SameGrants h (parked_because why o).hermes
because-SameGrants why h o p = ground arith

pub park-SameGrants :
    (w : World) (id run n a reason : String) (why : Refusal) (h : Hermes)
    → SameGrants h (parked_because why (park_approval_locked w id run a n reason h)).hermes
unfolding park_approval_locked
park-SameGrants w id run n a reason why h =
    because-SameGrants why h
      (parked_with w id run h (park_approval w.now id a n reason w.now (w.before_claim h.db)))
      (parked-SameGrants w id run h _ _)
