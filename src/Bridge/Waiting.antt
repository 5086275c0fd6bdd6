-- ===== src/Bridge/Waiting.antt =====
-- internal/bridge/hermes.go: a request that no standing decision answers waits for the operator.
use thornhill.Base.{
  ℕ, ◌≡◌, refl, ◌∙◌, ap, Bool, true, false, ◌⊎◌, none, some, List, [], ◌∷◌, ◌++◌, String, is_empty,
  eq_iff, arith,
}
use thornhill.Store.Job.{needs_approval, is_pending, Approval, Job}
use thornhill.Store.Jobs.{
  Db, Result, ok, err, Updated, find, is_ok, awaits, stamped, guard_job_dispatch, update_found,
  update_job, claim_approval,
}
use thornhill.Store.Jobs.Update.{KeepsId, found-update, update_job_row}
use thornhill.Store.Jobs.Authority.{update_job_at, claim_approval-awaits}
use thornhill.Bridge.{Hermes, World, run_owns_state}
use thornhill.Bridge.Policy.{
  matches_session_allow, matches_session_denial, matches_permanent_allow, matches_permanent_denial,
}
use thornhill.Bridge.Request.{
  RunEvent, requested, admit_mut, admitted_with, admit, decide_by_policy, requests, request_row,
  handle_approval_request,
}

admit-KeepsId : (run : String) (a : Approval) → KeepsId (admit_mut run a)
unfolding admit_mut
admit-KeepsId run a j = ground arith

admit_taken :
    (run : String) (a : Approval) (k : Job)
    → run_owns_state k run ≡ true
    → admit_mut run a k ≡ (
      record k { approvals = k.approvals ++ a ∷ []; status = needs_approval; progress = none },
      true,
    )
unfolding admit_mut
admit_taken run a k own = rw own refl

result_ok : (r : Result Updated) → is_ok r ≡ true → (u : Updated) × (r ≡ ok u)
result_ok (ok u) h = (u, refl)
result_ok (err e) h = cc

admitted-ok :
    (now : ℕ) (run : String) (a : Approval) (db : Db) (k : Job)
    → run_owns_state k run ≡ true
    → is_ok (update_found now (admit_mut run a) db k) ≡ true
unfolding update_found stamped guard_job_dispatch
admitted-ok now run a db k own = ground (arith, admit_taken run a k own)

awaits_one :
    (a : Approval) (j : Job)
    → j.status ≡ needs_approval
    → is_pending a.state ≡ true
    → awaits a.id a.decision_nonce j (a ∷ []) ≡ true
unfolding awaits
awaits_one a j status pend =
    ground (arith, eq_iff a.id a.id, eq_iff a.decision_nonce a.decision_nonce)

awaits_fresh :
    (now : ℕ) (run : String) (a : Approval) (k : Job)
    → run_owns_state k run ≡ true
    → k.approvals ≡ []
    → is_pending a.state ≡ true
    → let j = stamped now (admit_mut run a k).0 in awaits a.id a.decision_nonce j j.approvals ≡ true
unfolding stamped
awaits_fresh now run a k own alone pend =
    let j = stamped now (admit_mut run a k).0 in
    let taken = ap (λ (m : Job × Bool). m.0) (admit_taken run a k own) in
    let one : j.approvals ≡ a ∷ [] =
      ap (λ (x : Job). x.approvals) taken ∙ ap (λ (xs : List Approval). xs ++ a ∷ []) alone in
    let status : j.status ≡ needs_approval = ap (λ (x : Job). x.status) taken in
    ap (awaits a.id a.decision_nonce j) one ∙ awaits_one a j status pend

-- No standing decision answers the request.
abbrev pub Unanswered : World → Hermes → String → RunEvent → List String → Type 0
Unanswered w h id ev ks =
    (is_empty (matches_session_denial w h id ks) ≡ true)
    × (is_empty (matches_permanent_denial w h ks) ≡ true)
    × (is_empty (matches_session_allow w h id ks) ≡ true)
    × ((is_empty (matches_permanent_allow w h ks) ≡ true) ⊎ (ev.allow_permanent ≡ false))

policy_admits :
    (w : World) (id run : String) (ev : RunEvent) (a : Approval) (h : Hermes)
    → Unanswered w h id ev a.pattern_keys
    → decide_by_policy w id run ev a h ≡ admit w id run a h
unfolding decide_by_policy
policy_admits w id run ev a h (d, p, s, q) = ground arith

handle_admits :
    (w : World) (id run : String) (ev : RunEvent) (h : Hermes) {j : Job}
    → find id h.db.jobs ≡ some j
    → j.approvals ≡ []
    → Unanswered w h id ev (requested w ev).pattern_keys
    → handle_approval_request w id run ev h ≡ admit w id run (requested w ev) h
unfolding handle_approval_request request_row requests
handle_admits w id run ev h {j} at alone free =
    rw at (rw alone (policy_admits w id run ev (requested w ev) h free))

admitted_outcome :
    (id : String) (h : Hermes) (r : Result Updated) {u : Updated}
    → r ≡ ok u
    → u.flag ≡ true
    → ((admitted_with id h r).error ≡ none)
      × ((admitted_with id h r).hermes.db ≡ u.db)
      × ((admitted_with id h r).hermes.calls ≡ h.calls)
unfolding admitted_with
admitted_outcome id h (err e) {u} p f = cc
admitted_outcome id h (ok v) {u} p f = ground arith

admit-claimable :
    (w : World) (id run : String) (a : Approval) (h : Hermes) {k : Job} (later : ℕ)
    → find id (w.before_claim h.db).jobs ≡ some k
    → k.approvals ≡ []
    → run_owns_state k run ≡ true
    → is_pending a.state ≡ true
    → ((admit w id run a h).error ≡ none)
      × ((admit w id run a h).hermes.calls ≡ h.calls)
      × (is_ok (claim_approval later id a.id a.decision_nonce (admit w id run a h).hermes.db).0
          ≡ true)
unfolding admit
admit-claimable w id run a h {k} later at alone own pend =
    let db = w.before_claim h.db in
    let mut = admit_mut run a in
    let (u, e) = result_ok (update_found w.now mut db k) (admitted-ok w.now run a db k own) in
    let r = update_job_at w.now id mut db k at ∙ e in
    let f = found-update w.now mut db k e in
    let flag = f.1 ∙ ap (λ (m : Job × Bool). m.1) (admit_taken run a k own) in
    let (fine, base, calls) = admitted_outcome id h (update_job w.now id mut db) r flag in
    (
      fine,
      calls,
      rw base (
          claim_approval-awaits later id a.id a.decision_nonce u.db u.job
            (update_job_row w.now id mut db (admit-KeepsId run a) r)
          ∙ rw f.0 (awaits_fresh w.now run a k own alone pend)),
    )

-- A request that no standing decision answers, of a job that waits for nothing else and whose run still
-- owns its state when it is written, sends nothing to the run: it waits, and the operator's claim with
-- its identity and its nonce, made next, succeeds.
pub request_waits :
    (w : World) (id run : String) (ev : RunEvent) (h : Hermes) {j k : Job} (later : ℕ)
    → find id h.db.jobs ≡ some j
    → j.approvals ≡ []
    → Unanswered w h id ev (requested w ev).pattern_keys
    → find id (w.before_claim h.db).jobs ≡ some k
    → k.approvals ≡ []
    → run_owns_state k run ≡ true
    → let o = handle_approval_request w id run ev h in
      (o.error ≡ none)
      × (o.hermes.calls ≡ h.calls)
      × (is_ok (claim_approval later id w.fresh_id w.fresh_nonce o.hermes.db).0 ≡ true)
unfolding requested
request_waits w id run ev h {j} {k} later at alone free at' alone' own =
    rw (handle_admits w id run ev h at alone free)
      (admit-claimable w id run (requested w ev) h later at' alone' own refl)
