-- ===== src/Bridge/Grants.antt =====
-- internal/bridge/hermes.go: when a grant of the operator is kept for later requests.
use thornhill.Base.{
  ◌≡◌, refl, ◌∙◌, ap, arith, false, not, ◌&&◌, ◌⊎◌, inl, inr, Option, none, some, List, [], ◌∷◌,
  String, str_eq, is_empty, if_elim,
}
use thornhill.Store.Job.{
  needs_approval, status_eq, is_pending, allow_session, allow_always, Decision, Approval, Job,
}
use thornhill.Store.Jobs.{Db, Result, ok, err, Updated, find, update_job, claim_approval}
use thornhill.Bridge.{
  post, Hermes, World, Outcome, PostAnswer, resolved, failed_with, PostError, sends, owned_run_id,
}
use thornhill.Bridge.Policy.{approval_pattern_hash}
use thornhill.Bridge.Decide.{
  api_choice, is_reusable, is_allow_always, resolve_mut, post_approval, keep_denial, keep_grant,
  confirmed, after_post, decide_claimed, claimed_with, decide_head, decide_pending, decide_row,
  decide_locked, decide_choice, decide_approval,
}
use thornhill.Bridge.Kept.{
  SameGrants, post_failed-SameGrants, resolved-SameGrants, grant-cases, denial-SameGrants,
  park-SameGrants,
}

-- Nothing was kept, or Hermes confirmed the call and the decision grants more than this once.
abbrev pub Confirmed : World → Decision → Hermes → Outcome → Type 0
Confirmed w d h o =
    SameGrants h o.hermes ⊎ ((w.posted ≡ resolved 1) × ((d ≡ allow_session) ⊎ (d ≡ allow_always)))

post_approval-one : (p : PostAnswer) → post_approval p false ≡ none → p ≡ resolved 1
unfolding post_approval
post_approval-one (failed_with e) h = cc
post_approval-one (resolved n) h = let e : n ≡ 1 = ground arith in ap resolved e

after_post-Confirmed :
    (w : World) (id run : String) (d : Decision) (a : Approval) (e : Option String) (h : Hermes)
    (o : Option PostError)
    → SameGrants h (after_post w id run d a e h o).hermes
      ⊎ ((o ≡ none) × ((d ≡ allow_session) ⊎ (d ≡ allow_always)))
unfolding after_post confirmed
after_post-Confirmed w id run d a e h (some x) = inl (post_failed-SameGrants w id run d a x h)
after_post-Confirmed w id run d a e h none =
    let k = keep_grant w id d a e h in
    let r =
      resolved-SameGrants id d a k.1 k.0 (update_job w.now id (resolve_mut w.now run d) k.0.db) in
    elim (grant-cases w id d a e h) [ inl q ↦ inl (r.0 ∙ q.0, r.1 ∙ q.1) | inr g ↦ inr (refl, g) ]

decide_claimed-Confirmed :
    (w : World) (id : String) (d : Decision) (choice : String) (a : Approval) (j : Job) (h : Hermes)
    → Confirmed w d h (decide_claimed w id d choice a j h)
unfolding decide_claimed
decide_claimed-Confirmed w id d choice a j h =
    let h1 = (keep_denial w id d a h).0 in
    let h2 = sends (post j.hermes_run_id choice false a.provider_request_id a.id) h1 in
    let q = denial-SameGrants w id d a h in
    elim (after_post-Confirmed w id j.hermes_run_id d a (keep_denial w id d a h).1
      (record h2 { db = w.meanwhile h2.db }) (post_approval w.posted false)) [
        | inl r ↦ inl (r.0 ∙ q.0, r.1 ∙ q.1)
        | inr (q, g) ↦ inr (post_approval-one w.posted q, g)
      ]

claimed-Confirmed :
    (w : World) (id : String) (d : Decision) (choice : String) (a : Approval) (h : Hermes)
    (r : Result Updated) (o : Option Db)
    → Confirmed w d h (claimed_with w id d choice a h (r, o))
unfolding claimed_with
claimed-Confirmed w id d choice a h (err e) none = inl (refl, refl)
claimed-Confirmed w id d choice a h (err e) (some db) = inl (refl, refl)
claimed-Confirmed w id d choice a h (ok u) o =
    decide_claimed-Confirmed w id d choice a u.job (record h { db = u.db })

head-Confirmed :
    (w : World) (id approval_id nonce : String) (d : Decision) (choice : String) (j : Job)
    (a : Approval) (h : Hermes)
    → Confirmed w d h (decide_head w id approval_id nonce d choice j a h)
unfolding decide_head
head-Confirmed w id approval_id nonce d choice j a h =
    let P = λ (o : Outcome). Confirmed w d h o in
    let r = claim_approval w.now id approval_id nonce (w.before_claim h.db) in
    if_elim P (is_empty j.hermes_run_id) (inl (park-SameGrants w id "" nonce approval_id _ _ h)) (
      if_elim P (not (str_eq (owned_run_id id h) j.hermes_run_id))
        (inl (park-SameGrants w id j.hermes_run_id nonce approval_id _ _ h))
        (if_elim P (is_reusable d && is_empty (approval_pattern_hash w.digest a.pattern_keys))
          (inl (refl, refl))
          (if_elim P (is_allow_always d && not a.allow_permanent) (inl (refl, refl))
            (claimed-Confirmed w id d choice a h r.0 r.1))))

pending-Confirmed :
    (w : World) (id approval_id nonce : String) (d : Decision) (choice : String) (j : Job)
    (xs : List Approval) (h : Hermes)
    → Confirmed w d h (decide_pending w id approval_id nonce d choice j xs h)
unfolding decide_pending
pending-Confirmed w id approval_id nonce d choice j [] h = inl (refl, refl)
pending-Confirmed w id approval_id nonce d choice j (a ∷ (b ∷ r)) h = inl (refl, refl)
pending-Confirmed w id approval_id nonce d choice j (a ∷ []) h =
    let P = λ (o : Outcome). Confirmed w d h o in
    if_elim P (not (status_eq j.status needs_approval)) (inl (refl, refl)) (
      if_elim P
        (not (str_eq a.id approval_id && (str_eq a.decision_nonce nonce && is_pending a.state)))
        (inl (refl, refl)) (head-Confirmed w id approval_id nonce d choice j a h))

row-Confirmed :
    (w : World) (key id approval_id nonce : String) (d : Decision) (choice : String) (h : Hermes)
    (o : Option Job)
    → Confirmed w d h (decide_row w key id approval_id nonce d choice h o)
unfolding decide_row
row-Confirmed w key id approval_id nonce d choice h none = inl (refl, refl)
row-Confirmed w key id approval_id nonce d choice h (some j) =
    if_elim (λ (o : Outcome). Confirmed w d h o) (not (str_eq j.hermes_run_id key))
      (inl (refl, refl)) (pending-Confirmed w id approval_id nonce d choice j j.approvals h)

locked-Confirmed :
    (w : World) (id approval_id nonce : String) (d : Decision) (choice : String) (h : Hermes)
    (o : Option Job)
    → Confirmed w d h (decide_locked w id approval_id nonce d choice h o)
unfolding decide_locked
locked-Confirmed w id approval_id nonce d choice h none = inl (refl, refl)
locked-Confirmed w id approval_id nonce d choice h (some j) =
    row-Confirmed w j.hermes_run_id id approval_id nonce d choice h (find id h.db.jobs)

choice-Confirmed :
    (w : World) (before : Db) (id approval_id nonce : String) (d : Decision) (h : Hermes)
    (o : Option String)
    → Confirmed w d h (decide_choice w before id approval_id nonce d h o)
unfolding decide_choice
choice-Confirmed w before id approval_id nonce d h none = inl (refl, refl)
choice-Confirmed w before id approval_id nonce d h (some choice) =
    locked-Confirmed w id approval_id nonce d choice h (find id before.jobs)

-- A decision changes the grants that are kept for later requests only if it grants more than this once and
-- Hermes answered the call with exactly one resolved request: a lost, refused or conflicting answer, a parked
-- request and a denial keep no grant.
pub decide_approval-Confirmed :
    (w : World) (before : Db) (id approval_id nonce : String) (d : Decision) (h : Hermes)
    → let o = decide_approval w before id approval_id nonce d h in
      SameGrants h o.hermes ⊎ ((w.posted ≡ resolved 1) × ((d ≡ allow_session) ⊎ (d ≡ allow_always)))
unfolding decide_approval
decide_approval-Confirmed w before id approval_id nonce d h =
    choice-Confirmed w before id approval_id nonce d h (api_choice d)
