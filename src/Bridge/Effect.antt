-- ===== src/Bridge/Effect.antt =====
-- internal/bridge/hermes.go: a decision that is warranted reaches the run.
use thornhill.Base.{
  ◌≡◌, refl, ◌∙◌, ap, true, false, ◌⊎◌, Option, some, List, [], ◌∷◌, String, is_empty, eq_iff,
  arith,
}
use thornhill.Store.Job.{Decision, Approval, Job}
use thornhill.Store.Jobs.{Db, Result, ok, err, Updated, find, awaits, claim_approval}
use thornhill.Bridge.{Hermes, World, owned_run_id}
use thornhill.Bridge.Policy.{approval_pattern_hash}
use thornhill.Bridge.Decide.{
  api_choice, is_reusable, is_allow_always, decide_claimed, claimed_with, decide_head,
  decide_pending, decide_row, decide_locked, decide_choice, decide_approval,
}
use thornhill.Bridge.Posts.{decide_claimed-posts}
use thornhill.Bridge.Warrant.{Warranted, OnePost}

head-claims :
    (w : World) (id approval_id nonce : String) (d : Decision) (choice : String) (j : Job)
    (a : Approval) (h : Hermes)
    → is_empty j.hermes_run_id ≡ false
    → owned_run_id id h ≡ j.hermes_run_id
    → (is_reusable d ≡ false) ⊎ (is_empty (approval_pattern_hash w.digest a.pattern_keys) ≡ false)
    → (is_allow_always d ≡ false) ⊎ (a.allow_permanent ≡ true)
    → decide_head w id approval_id nonce d choice j a h
      ≡ claimed_with w id d choice a h
          (claim_approval w.now id approval_id nonce (w.before_claim h.db))
unfolding decide_head
head-claims w id approval_id nonce d choice j a h run own scope permanent =
    ground (arith, eq_iff (owned_run_id id h) j.hermes_run_id)

pending-head :
    (w : World) (id approval_id nonce : String) (d : Decision) (choice : String) (j : Job)
    (a : Approval) (h : Hermes)
    → awaits approval_id nonce j (a ∷ []) ≡ true
    → decide_pending w id approval_id nonce d choice j (a ∷ []) h
      ≡ decide_head w id approval_id nonce d choice j a h
unfolding decide_pending awaits
pending-head w id approval_id nonce d choice j a h wait = ground arith

claimed_ok :
    (w : World) (id : String) (d : Decision) (choice : String) (a : Approval) (h : Hermes)
    (r : Result Updated) (o : Option Db) {u : Updated}
    → r ≡ ok u
    → claimed_with w id d choice a h (r, o)
      ≡ decide_claimed w id d choice a u.job (record h { db = u.db })
unfolding claimed_with
claimed_ok w id d choice a h (err e) o {u} p = cc
claimed_ok w id d choice a h (ok v) o {u} p = cc

row-pending :
    (w : World) (key id approval_id nonce : String) (d : Decision) (choice : String) (h : Hermes)
    (j : Job)
    → j.hermes_run_id ≡ key
    → decide_row w key id approval_id nonce d choice h (some j)
      ≡ decide_pending w id approval_id nonce d choice j j.approvals h
unfolding decide_row
row-pending w key id approval_id nonce d choice h j same =
    ground (arith, eq_iff j.hermes_run_id key)

approval-row :
    (w : World) (before : Db) (id approval_id nonce : String) (d : Decision) (h : Hermes)
    {choice : String} {first j : Job}
    → api_choice d ≡ some choice
    → find id before.jobs ≡ some first
    → find id h.db.jobs ≡ some j
    → decide_approval w before id approval_id nonce d h
      ≡ decide_row w first.hermes_run_id id approval_id nonce d choice h (some j)
unfolding decide_approval decide_choice decide_locked
approval-row w before id approval_id nonce d h {choice} {first} {j} c f at =
    rw c (rw f (rw at refl))

-- A decision that is warranted is carried out: if the job's run is the same before and after the wait for
-- the lock and is not empty, and the request is warranted, then exactly one authority call is sent,
-- for the claimed run and request and with the choice that stands for the decision.
pub decide_approval-OnePost :
    (w : World) (before : Db) (id approval_id nonce : String) (d : Decision) (h : Hermes)
    {choice : String} {first j : Job} {a : Approval} {u : Updated}
    → api_choice d ≡ some choice
    → find id before.jobs ≡ some first
    → j.hermes_run_id ≡ first.hermes_run_id
    → is_empty j.hermes_run_id ≡ false
    → Warranted w id approval_id nonce d h j a u
    → OnePost h choice a u (decide_approval w before id approval_id nonce d h)
decide_approval-OnePost w before id approval_id nonce d h {choice} {first} {j} {a} {u} c f same run
      (at, one, own, wait, scope, permanent, claim) =
    let r = claim_approval w.now id approval_id nonce (w.before_claim h.db) in
    let path : decide_approval w before id approval_id nonce d h
        ≡ decide_claimed w id d choice a u.job (record h { db = u.db }) =
      approval-row w before id approval_id nonce d h c f at
      ∙ row-pending w first.hermes_run_id id approval_id nonce d choice h j same
      ∙ ap (λ (xs : List Approval). decide_pending w id approval_id nonce d choice j xs h) one
      ∙ pending-head w id approval_id nonce d choice j a h (rw (← one) wait)
      ∙ head-claims w id approval_id nonce d choice j a h run own scope permanent
      ∙ claimed_ok w id d choice a h r.0 r.1 claim in
    rw path (decide_claimed-posts w id d choice a u.job (record h { db = u.db }))
