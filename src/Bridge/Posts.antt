-- ===== src/Bridge/Posts.antt =====
-- internal/bridge/hermes.go: the number of authority calls that a decision makes, and what stands behind each.
use thornhill.Base.{
  ◌≡◌, refl, ◌∙◌, ap, true, false, ◌⊎◌, inl, inr, Option, none, some, List, [], ◌∷◌, ◌++◌, String,
  arith, if_elim,
}
use thornhill.Store.Job.{Decision, Approval, Job}
use thornhill.Store.Jobs.{Db, Result, ok, err, Updated, update_job}
use thornhill.Bridge.{Call, post, Hermes, World, Outcome, Refusal, PostError, sends}
use thornhill.Bridge.Cleanup.{
  TerminalCleanup, nothing_done, get_run_status, proven, stop_and_confirm_terminal_outcome,
}
use thornhill.Bridge.Indeterminate.{
  post_error_text, recorded, record_indeterminate_approval, fail_indeterminate_approval,
  reconcile_approval_lifecycle_conflict,
}
use thornhill.Bridge.Parking.{
  Released, unconfirmed, unwritten, released_row, written, release_mut, after_release,
  release_parked_run, released_parked, parked_with, park_approval_locked,
}
use thornhill.Bridge.Decide.{
  post_approval, post_failure, keep_denial, keep_grant, resolved_with, confirmed, post_failed,
  after_post, decide_claimed, claimed_with, is_lifecycle_conflict, parked_because,
}
use thornhill.Bridge.Authority.{posts, posts-append, NoPost, stop-NoPost}

recorded-NoPost :
    (id : String) (a : Approval) (d : Decision) (reason : String) (h : Hermes) (r : Result Updated)
    → NoPost h (recorded id a d reason h r).hermes
unfolding recorded
recorded-NoPost id a d reason h r = ground arith

record-NoPost :
    (w : World) (id run : String) (a : Approval) (d : Decision) (cause : String)
    (c : TerminalCleanup) (h : Hermes)
    → NoPost h (record_indeterminate_approval w id run a d cause c h).hermes
unfolding record_indeterminate_approval
record-NoPost w id run a d cause c h = recorded-NoPost id a d _ h _

pub fail-NoPost :
    (w : World) (id run : String) (a : Approval) (d : Decision) (cause : String) (h : Hermes)
    → NoPost h (fail_indeterminate_approval w id run a d cause h).hermes
unfolding fail_indeterminate_approval
fail-NoPost w id run a d cause h =
    record-NoPost w id run a d cause (stop_and_confirm_terminal_outcome w run h).0
      (stop_and_confirm_terminal_outcome w run h).1
    ∙ stop-NoPost w run h

reconcile-NoPost :
    (w : World) (id run : String) (a : Approval) (d : Decision) (cause : String) (h : Hermes)
    → NoPost h (reconcile_approval_lifecycle_conflict w id run a d cause h).hermes
unfolding reconcile_approval_lifecycle_conflict
reconcile-NoPost w id run a d cause h =
    let seen = get_run_status w.reconciled run in
    let ended = record nothing_done { initial = seen.0; terminal = true } in
    if_elim (λ (o : Outcome). NoPost h o.hermes) (proven seen)
      (record-NoPost w id run a d cause ended h) (fail-NoPost w id run a d cause h)

post_failed-NoPost :
    (w : World) (id run : String) (d : Decision) (a : Approval) (e : PostError) (h : Hermes)
    → NoPost h (post_failed w id run d a e h).hermes
unfolding post_failed
post_failed-NoPost w id run d a e h =
    if_elim (λ (o : Outcome). NoPost h o.hermes) (is_lifecycle_conflict e)
      (reconcile-NoPost w id run a d (post_error_text e) h)
      (fail-NoPost w id run a d (post_failure w.posted e) h)

resolved-NoPost :
    (id : String) (d : Decision) (a : Approval) (e : Option String) (h : Hermes)
    (r : Result Updated)
    → NoPost h (resolved_with id d a e h r).hermes
unfolding resolved_with
resolved-NoPost id d a e h r = ground arith

grant-NoPost :
    (w : World) (id : String) (d : Decision) (a : Approval) (e : Option String) (h : Hermes)
    → NoPost h (keep_grant w id d a e h).0
unfolding keep_grant
grant-NoPost w id d a e h = ground arith

denial-NoPost :
    (w : World) (id : String) (d : Decision) (a : Approval) (h : Hermes)
    → NoPost h (keep_denial w id d a h).0
unfolding keep_denial
denial-NoPost w id d a h = ground arith

confirmed-NoPost :
    (w : World) (id run : String) (d : Decision) (a : Approval) (e : Option String) (h : Hermes)
    → NoPost h (confirmed w id run d a e h).hermes
unfolding confirmed
confirmed-NoPost w id run d a e h =
    resolved-NoPost id d a (keep_grant w id d a e h).1 (keep_grant w id d a e h).0 _
    ∙ grant-NoPost w id d a e h

written-NoPost : (h : Hermes) (r : Result Updated) → NoPost h (written h r).1
written-NoPost h (err e) = refl
written-NoPost h (ok u) = refl

release-NoPost :
    (w : World) (id run : String) (h : Hermes) → NoPost h (release_parked_run w id run h).1
unfolding release_parked_run
release-NoPost w id run h = ground (
  arith,
  stop-NoPost w run h,
  written-NoPost (stop_and_confirm_terminal_outcome w run h).1
      (update_job w.now id (release_mut run) (stop_and_confirm_terminal_outcome w run h).1.db),
)

after-NoPost :
    (id run : String) (j : Job) (h : Hermes) (r : Released × Hermes)
    → NoPost h r.1
    → NoPost h (after_release id run j r).1
after-NoPost id run j h (released_row j', h') p = p
after-NoPost id run j h (unconfirmed, h') p = p
after-NoPost id run j h (unwritten e, h') p = p

released-NoPost :
    (w : World) (id run : String) (j : Job) (h : Hermes) → NoPost h (released_parked w id run j h).1
unfolding released_parked
released-NoPost w id run j h =
    ground
      (arith, after-NoPost id run j h (release_parked_run w id run h) (release-NoPost w id run h))

parked_with-NoPost :
    (w : World) (id run : String) (h : Hermes) (r : Result Updated) (o : Option Db)
    → NoPost h (parked_with w id run h (r, o)).hermes
unfolding parked_with
parked_with-NoPost w id run h (err e) none = refl
parked_with-NoPost w id run h (err e) (some db) = refl
parked_with-NoPost w id run h (ok u) o = released-NoPost w id run u.job (record h { db = u.db })

pub park-NoPost :
    (w : World) (id run a n reason : String) (h : Hermes)
    → NoPost h (park_approval_locked w id run a n reason h).hermes
unfolding park_approval_locked
park-NoPost w id run a n reason h = parked_with-NoPost w id run h _ _

after_post-NoPost :
    (w : World) (id run : String) (d : Decision) (a : Approval) (e : Option String) (h : Hermes)
    (o : Option PostError)
    → NoPost h (after_post w id run d a e h o).hermes
unfolding after_post
after_post-NoPost w id run d a e h (some x) = post_failed-NoPost w id run d a x h
after_post-NoPost w id run d a e h none = confirmed-NoPost w id run d a e h

pub decide_claimed-posts :
    (w : World) (id : String) (d : Decision) (choice : String) (a : Approval) (j : Job) (h : Hermes)
    → posts (decide_claimed w id d choice a j h).hermes.calls
      ≡ posts h.calls ++ post j.hermes_run_id choice false a.provider_request_id a.id ∷ []
unfolding decide_claimed
decide_claimed-posts w id d choice a j h =
    let h1 = (keep_denial w id d a h).0 in
    let c = post j.hermes_run_id choice false a.provider_request_id a.id in
    let h3 = record (sends c h1) { db = w.meanwhile h1.db } in
    let sent : posts h3.calls ≡ posts h.calls ++ c ∷ [] =
      posts-append h1.calls (c ∷ [])
      ∙ ap (λ (cs : List Call). cs ++ c ∷ []) (denial-NoPost w id d a h) in
    after_post-NoPost w id j.hermes_run_id d a (keep_denial w id d a h).1 h3
      (post_approval w.posted false)
    ∙ sent

pub claimed_with-posts :
    (w : World) (id : String) (d : Decision) (choice : String) (a : Approval) (h : Hermes)
    (r : Result Updated) (o : Option Db)
    → NoPost h (claimed_with w id d choice a h (r, o)).hermes
      ⊎ ((u : Updated) × (r ≡ ok u)
          × (posts (claimed_with w id d choice a h (r, o)).hermes.calls
              ≡ posts h.calls
                ++ post u.job.hermes_run_id choice false a.provider_request_id a.id ∷ []))
unfolding claimed_with
claimed_with-posts w id d choice a h (err e) none = inl refl
claimed_with-posts w id d choice a h (err e) (some db) = inl refl
claimed_with-posts w id d choice a h (ok u) o =
    inr (u, refl, decide_claimed-posts w id d choice a u.job (record h { db = u.db }))

pub parked_because-NoPost :
    (h : Hermes) (r : Refusal) (o : Outcome)
    → NoPost h o.hermes
    → NoPost h (parked_because r o).hermes
parked_because-NoPost h r o p = ground arith
