-- ===== src/Bridge/Warrant.antt =====
-- internal/bridge/hermes.go: what stands behind the one authority call of a decision.
use thornhill.Base.{
  ◌≡◌, ◌≢◌, refl, sym, ◌∙◌, ap, Bool-cases, Bool, true, false, not, ◌&&◌, ◌⊎◌, inl, inr, Option,
  none, some, List, [], ◌∷◌, ◌++◌, String, str_eq, is_empty, eq_iff, arith, if◌then◌else◌,
}
use thornhill.Store.Job.{needs_approval, status_eq, Decision, Approval, Job, is_pending}
use thornhill.Store.Jobs.{Db, ok, Updated, find, awaits, claim_approval}
use thornhill.Store.Jobs.Authority.{Awaited, claim_approval-reads}
use thornhill.Bridge.{
  post, Hermes, World, Outcome, parked_without_run, parked_unowned, not_one_pending, mismatched,
  run_changed, owned_run_id,
}
use thornhill.Bridge.Policy.{approval_pattern_hash}
use thornhill.Bridge.Parking.{park_approval_locked}
use thornhill.Bridge.Decide.{
  api_choice, is_reusable, is_allow_always, claimed_with, decide_head, decide_pending, decide_row,
  decide_locked, decide_choice, refuse, decide_approval,
}
use thornhill.Bridge.Authority.{posts, NoPost}
use thornhill.Bridge.Posts.{claimed_with-posts, park-NoPost, parked_because-NoPost}

-- What stands behind an authority call: the run of the job is the one this process owns, the request is
-- the only one of the job and the one that was named, its pattern has a scope if the decision is to
-- be kept, a permanent grant is allowed, and the nonce was claimed in the store.
abbrev pub Warranted :
    World → String → String → String → Decision → Hermes → Job → Approval → Updated → Type 0
Warranted w id approval_id nonce d h j a u =
    (find id h.db.jobs ≡ some j)
    × (j.approvals ≡ a ∷ [])
    × (owned_run_id id h ≡ j.hermes_run_id)
    × (awaits approval_id nonce j j.approvals ≡ true)
    × ((is_reusable d ≡ false) ⊎ (is_empty (approval_pattern_hash w.digest a.pattern_keys) ≡ false))
    × ((is_allow_always d ≡ false) ⊎ (a.allow_permanent ≡ true))
    × ((claim_approval w.now id approval_id nonce (w.before_claim h.db)).0 ≡ ok u)

abbrev pub OnePost : Hermes → String → Approval → Updated → Outcome → Type 0
OnePost h choice a u o =
    posts o.hermes.calls
    ≡ posts h.calls ++ post u.job.hermes_run_id choice false a.provider_request_id a.id ∷ []

decide_head-cases :
    (w : World) (id approval_id nonce : String) (d : Decision) (choice : String) (j : Job)
    (a : Approval) (h : Hermes)
    → NoPost h (decide_head w id approval_id nonce d choice j a h).hermes
      ⊎ ((owned_run_id id h ≡ j.hermes_run_id)
          × ((is_reusable d ≡ false)
              ⊎ (is_empty (approval_pattern_hash w.digest a.pattern_keys) ≡ false))
          × ((is_allow_always d ≡ false) ⊎ (a.allow_permanent ≡ true))
          × (decide_head w id approval_id nonce d choice j a h
              ≡ claimed_with w id d choice a h
                  (claim_approval w.now id approval_id nonce (w.before_claim h.db))))
unfolding decide_head
decide_head-cases w id approval_id nonce d choice j a h = ground (
  arith,
  eq_iff (owned_run_id id h) j.hermes_run_id,
  parked_because-NoPost h parked_without_run
      (park_approval_locked w id "" approval_id nonce "approval had no active upstream run" h)
      (park-NoPost w id "" approval_id nonce "approval had no active upstream run" h),
  parked_because-NoPost h parked_unowned
      (park_approval_locked w id j.hermes_run_id approval_id nonce
        "approval run was no longer owned by this process" h)
      (park-NoPost w id j.hermes_run_id approval_id nonce
        "approval run was no longer owned by this process" h),
)

-- The row that the claim met: it waits for a decision on this one request, its run is the one that is
-- called, and this process owns that run unless others gave the row a new run before the claim.
abbrev pub Met : World → String → String → String → Hermes → Job → Updated → Type 0
Met w id approval_id nonce h j u =
    (k : Job) × (find id (w.before_claim h.db).jobs ≡ some k)
    × Awaited approval_id nonce k
    × (u.job.hermes_run_id ≡ k.hermes_run_id)
    × ((owned_run_id id h ≡ u.job.hermes_run_id) ⊎ (k.hermes_run_id ≢ j.hermes_run_id))

claim-Met :
    (w : World) (id approval_id nonce : String) (h : Hermes) (j : Job) (u : Updated)
    → owned_run_id id h ≡ j.hermes_run_id
    → (claim_approval w.now id approval_id nonce (w.before_claim h.db)).0 ≡ ok u
    → Met w id approval_id nonce h j u
claim-Met w id approval_id nonce h j u own c =
    let (k, at, wait, run) =
      claim_approval-reads w.now id approval_id nonce (w.before_claim h.db) c in
    (
      k,
      at,
      wait,
      run,
      elim (Bool-cases (str_eq k.hermes_run_id j.hermes_run_id)) [
        | inl t ↦ inl (own ∙ sym ((eq_iff k.hermes_run_id j.hermes_run_id).0 t) ∙ sym run)
        | inr f ↦ inr (λ q. (let t = (eq_iff k.hermes_run_id j.hermes_run_id).1 q in ground arith))
      ],
    )

abbrev pub Sent : World → String → String → String → Decision → String → Hermes → Outcome → Type 0
Sent w id approval_id nonce d choice h o =
    (j : Job) × (a : Approval) × (u : Updated) × Warranted w id approval_id nonce d h j a u
    × OnePost h choice a u o
    × Met w id approval_id nonce h j u

head-Sent :
    (w : World) (id approval_id nonce : String) (d : Decision) (choice : String) (j : Job)
    (a : Approval) (h : Hermes)
    → find id h.db.jobs ≡ some j
    → j.approvals ≡ a ∷ []
    → awaits approval_id nonce j j.approvals ≡ true
    → NoPost h (decide_head w id approval_id nonce d choice j a h).hermes
      ⊎ Sent w id approval_id nonce d choice h (decide_head w id approval_id nonce d choice j a h)
head-Sent w id approval_id nonce d choice j a h at one wait =
    elim (decide_head-cases w id approval_id nonce d choice j a h) [
      | inl p ↦ inl p
      | inr (own, scope, permanent, e) ↦
          (let r = claim_approval w.now id approval_id nonce (w.before_claim h.db) in
            elim (claimed_with-posts w id d choice a h r.0 r.1) [
              | inl p ↦ inl (rw e p)
              | inr (u, c, q) ↦ inr (
                j,
                a,
                u,
                (at, one, own, wait, scope, permanent, c),
                rw e q,
                claim-Met w id approval_id nonce h j u own c,
              )
            ])
    ]

two_guards :
    (b c : Bool) (x y z : Outcome)
    → (((if not b then x else if not c then y else z) ≡ x)
        ⊎ ((if not b then x else if not c then y else z) ≡ y))
      ⊎ (((b && c) ≡ true) × ((if not b then x else if not c then y else z) ≡ z))
two_guards true true x y z = inr (refl, refl)
two_guards true false x y z = inl (inr refl)
two_guards false c x y z = inl (inl refl)

pending-cases :
    (w : World) (id approval_id nonce : String) (d : Decision) (choice : String) (j : Job)
    (xs : List Approval) (h : Hermes)
    → ((decide_pending w id approval_id nonce d choice j xs h).hermes ≡ h)
      ⊎ ((a : Approval) × (xs ≡ a ∷ [])
          × (awaits approval_id nonce j xs ≡ true)
          × (decide_pending w id approval_id nonce d choice j xs h
              ≡ decide_head w id approval_id nonce d choice j a h))
unfolding decide_pending awaits
pending-cases w id approval_id nonce d choice j [] h = inl refl
pending-cases w id approval_id nonce d choice j (a ∷ (b ∷ r)) h = inl refl
pending-cases w id approval_id nonce d choice j (a ∷ []) h =
    elim (two_guards (status_eq j.status needs_approval)
      (str_eq a.id approval_id && (str_eq a.decision_nonce nonce && is_pending a.state))
      (refuse (some j) not_one_pending h) (refuse (some j) mismatched h)
      (decide_head w id approval_id nonce d choice j a h)) [
        | inl (inl e) ↦ inl (ap (λ (o : Outcome). o.hermes) e)
        | inl (inr e) ↦ inl (ap (λ (o : Outcome). o.hermes) e)
        | inr (g, e) ↦ inr (a, refl, g, e)
      ]

guard-cases :
    (b : Bool) (x y : Outcome) → ((if not b then x else y) ≡ x) ⊎ ((if not b then x else y) ≡ y)
guard-cases true x y = inr refl
guard-cases false x y = inl refl

row-cases :
    (w : World) (key id approval_id nonce : String) (d : Decision) (choice : String) (h : Hermes)
    (o : Option Job)
    → ((decide_row w key id approval_id nonce d choice h o).hermes ≡ h)
      ⊎ ((j : Job) × (o ≡ some j)
          × (decide_row w key id approval_id nonce d choice h o
              ≡ decide_pending w id approval_id nonce d choice j j.approvals h))
unfolding decide_row
row-cases w key id approval_id nonce d choice h none = inl refl
row-cases w key id approval_id nonce d choice h (some j) =
    elim (guard-cases (str_eq j.hermes_run_id key) (refuse (some j) run_changed h)
      (decide_pending w id approval_id nonce d choice j j.approvals h)) [
        | inl e ↦ inl (ap (λ (o : Outcome). o.hermes) e)
        | inr e ↦ inr (j, refl, e)
      ]

row-Sent :
    (w : World) (key id approval_id nonce : String) (d : Decision) (choice : String) (h : Hermes)
    → let o = decide_row w key id approval_id nonce d choice h (find id h.db.jobs) in
      NoPost h o.hermes ⊎ Sent w id approval_id nonce d choice h o
row-Sent w key id approval_id nonce d choice h =
    elim (row-cases w key id approval_id nonce d choice h (find id h.db.jobs)) [
      | inl e ↦ inl (ap (λ (x : Hermes). posts x.calls) e)
      | inr (j, at, e) ↦ elim (pending-cases w id approval_id nonce d choice j j.approvals h) [
        | inl p ↦ inl (rw e (ap (λ (x : Hermes). posts x.calls) p))
        | inr (a, one, wait, q) ↦
            rw (e ∙ q) (head-Sent w id approval_id nonce d choice j a h at one wait)
      ]
    ]

locked-Sent :
    (w : World) (id approval_id nonce : String) (d : Decision) (choice : String) (h : Hermes)
    (o : Option Job)
    → NoPost h (decide_locked w id approval_id nonce d choice h o).hermes
      ⊎ Sent w id approval_id nonce d choice h (decide_locked w id approval_id nonce d choice h o)
unfolding decide_locked
locked-Sent w id approval_id nonce d choice h none = inl refl
locked-Sent w id approval_id nonce d choice h (some j) =
    row-Sent w j.hermes_run_id id approval_id nonce d choice h

choice-Sent :
    (w : World) (before : Db) (id approval_id nonce : String) (d : Decision) (h : Hermes)
    (c : Option String)
    → let o = decide_choice w before id approval_id nonce d h c in
      NoPost h o.hermes
      ⊎ ((choice : String) × (c ≡ some choice) × Sent w id approval_id nonce d choice h o)
unfolding decide_choice
choice-Sent w before id approval_id nonce d h none = inl refl
choice-Sent w before id approval_id nonce d h (some choice) =
    elim (locked-Sent w id approval_id nonce d choice h (find id before.jobs)) [
      | inl p ↦ inl p
      | inr s ↦ inr (choice, refl, s)
    ]

-- A decision makes at most one authority call, whatever others write to the tables before the claim and
-- during the call. If it makes one, then it goes to the run of the row that the store claimed, for the
-- one named request and not for all, with the choice that stands for the decision. The call is
-- warranted: in the row that was read before the claim the named request was the only one and pending
-- under this nonce, and this process owned the run of that row; in the row that the claim met it was
-- again the only one and pending under this nonce. This process owns the run that is called unless
-- others gave the row another run between the two readings.
pub decide_approval-Sent :
    (w : World) (before : Db) (id approval_id nonce : String) (d : Decision) (h : Hermes)
    → NoPost h (decide_approval w before id approval_id nonce d h).hermes
      ⊎ ((choice : String) × (api_choice d ≡ some choice)
          × Sent w id approval_id nonce d choice h
              (decide_approval w before id approval_id nonce d h))
unfolding decide_approval
decide_approval-Sent w before id approval_id nonce d h =
    choice-Sent w before id approval_id nonce d h (api_choice d)
