-- ===== src/Store/Jobs/Authority.antt =====
-- internal/store/store.go: the one-use nonce of an authority request.
use mathlib.Core.Logic.{◌↔◌}
use thornhill.Base.{
  ℕ, ◌≡◌, refl, sym, ◌∙◌, Bool, true, false, inl, inr, some, List, [], ◌∷◌, String, arith,
  Bool-cases, eq_iff, ap,
}
use thornhill.Store.Job.{Status, needs_approval, parked_approval, pending, sending, Approval, Job}
use thornhill.Store.Jobs.{
  Db, approval_stale, Result, ok, err, Updated, find, stamped, guard_job_dispatch, update_found,
  update_job, awaits, set_state, claim_mut, park_mut, or_stale, is_ok, claim_approval,
  park_approval,
}
use thornhill.Store.Jobs.Update.{KeepsId, found-update, update_job-found, update_job_row}

claim_mut-KeepsId : (a n : String) → KeepsId (claim_mut a n)
unfolding claim_mut
claim_mut-KeepsId a n j = ground arith

park_mut-KeepsId : (a n r : String) (at : ℕ) → KeepsId (park_mut a n r at)
unfolding park_mut
park_mut-KeepsId a n r at j = ground arith

-- No nonce is accepted for the job.
abbrev pub Consumed : Job → Type 0
Consumed j = (a n : String) → awaits a n j j.approvals ≡ false

awaits-sending :
    (a n : String) (k : Job) (xs : List Approval) → awaits a n k (set_state sending xs) ≡ false
unfolding awaits set_state
awaits-sending a n k [] = refl
awaits-sending a n k (x ∷ []) = ground arith
awaits-sending a n k (x ∷ (y ∷ r)) = refl

awaits-parked :
    (a n : String) (k : Job) (xs : List Approval)
    → k.status ≡ parked_approval
    → awaits a n k xs ≡ false
unfolding awaits
awaits-parked a n k [] h = refl
awaits-parked a n k (x ∷ []) h = ground arith
awaits-parked a n k (x ∷ (y ∷ r)) h = refl

claimed-Consumed :
    (now : ℕ) (a n : String) (j : Job)
    → (claim_mut a n j).1 ≡ true
    → Consumed (stamped now (claim_mut a n j).0)
unfolding claim_mut stamped
claimed-Consumed now a n j h a' n' = elim (Bool-cases (awaits a n j j.approvals)) [
  | inl t ↦ ground (arith, awaits-sending a' n' (stamped now (claim_mut a n j).0) j.approvals)
  | inr f ↦ ground arith
]

parked-Consumed :
    (now : ℕ) (a n r : String) (at : ℕ) (j : Job)
    → (park_mut a n r at j).1 ≡ true
    → Consumed (stamped now (park_mut a n r at j).0)
unfolding park_mut stamped
parked-Consumed now a n r at j h a' n' = elim (Bool-cases (awaits a n j j.approvals)) [
  | inl t ↦ ground (
    arith,
    awaits-parked a' n' (stamped now (park_mut a n r at j).0)
        (stamped now (park_mut a n r at j).0).approvals,
  )
  | inr f ↦ ground arith
]

guard_same : (p : Bool) (s : Status) → guard_job_dispatch p s s ≡ true
unfolding guard_job_dispatch
guard_same p s = ground arith

stale_found :
    (now : ℕ) (mut : Job → Job × Bool) (db : Db) (j : Job)
    → mut j ≡ (j, false)
    → (or_stale (update_found now mut db j)).0 ≡ err approval_stale
unfolding update_found stamped
stale_found now mut db j h = ground (arith, guard_same db.dispatch_paused j.status)

or_stale_ok :
    (r : Result Updated) {u : Updated} {db : Db}
    → or_stale r ≡ (ok u, some db)
    → (r ≡ ok u) × (u.flag ≡ true) × (u.db ≡ db)
or_stale_ok r h = ground arith

pub update_job_at :
    (now : ℕ) (id : String) (mut : Job → Job × Bool) (db : Db) (j : Job)
    → find id db.jobs ≡ some j
    → update_job now id mut db ≡ update_found now mut db j
unfolding update_job
update_job_at now id mut db j h = ground arith

taken :
    (now : ℕ) (id : String) (mut : Job → Job × Bool) (db : Db) {u : Updated} {db' : Db}
    → KeepsId mut
    → ((j : Job) → (mut j).1 ≡ true → Consumed (stamped now (mut j).0))
    → or_stale (update_job now id mut db) ≡ (ok u, some db')
    → (find id db'.jobs ≡ some u.job) × Consumed u.job
taken now id mut db {u} {db'} keeps spends h =
    let (r, f, d) = or_stale_ok (update_job now id mut db) h in
    let (j, at, e) = update_job-found now id mut db r in
    let w = found-update now mut db j e in
    (rw (← d) (update_job_row now id mut db keeps r), rw w.0 (spends j (sym w.1 ∙ f)))

unclaimed :
    (a n : String) (j : Job) → awaits a n j j.approvals ≡ false → claim_mut a n j ≡ (j, false)
unfolding claim_mut
unclaimed a n j e = ground arith

unparked :
    (a n r : String) (t : ℕ) (j : Job)
    → awaits a n j j.approvals ≡ false
    → park_mut a n r t j ≡ (j, false)
unfolding park_mut
unparked a n r t j e = ground arith

refuses :
    (now : ℕ) (id a n : String) (db : Db) (j : Job)
    → find id db.jobs ≡ some j
    → Consumed j
    → (claim_approval now id a n db).0 ≡ err approval_stale
unfolding claim_approval
refuses now id a n db j at spent =
    rw (update_job_at now id (claim_mut a n) db j at)
      (stale_found now (claim_mut a n) db j (unclaimed a n j (spent a n)))

refuses_park :
    (now : ℕ) (id a n r : String) (t : ℕ) (db : Db) (j : Job)
    → find id db.jobs ≡ some j
    → Consumed j
    → (park_approval now id a n r t db).0 ≡ err approval_stale
unfolding park_approval
refuses_park now id a n r t db j at spent =
    rw (update_job_at now id (park_mut a n r t) db j at)
      (stale_found now (park_mut a n r t) db j (unparked a n r t j (spent a n)))

-- Once a nonce has been claimed for a job, the store refuses as stale every claim and every park of
-- that job that is tried next, whatever identity and nonce it names: a claimed decision is spent.
pub claim_spends :
    (now : ℕ) (id a n : String) (db : Db) {u : Updated} {db' : Db}
    → claim_approval now id a n db ≡ (ok u, some db')
    → (later t : ℕ) (a' n' r : String)
    → ((claim_approval later id a' n' db').0 ≡ err approval_stale)
      × ((park_approval later id a' n' r t db').0 ≡ err approval_stale)
unfolding claim_approval
claim_spends now id a n db {u} {db'} h later t a' n' r =
    let (at, spent) =
      taken now id (claim_mut a n) db (claim_mut-KeepsId a n) (claimed-Consumed now a n) h in
    (refuses later id a' n' db' u.job at spent, refuses_park later id a' n' r t db' u.job at spent)

-- Once a request has been parked for a job, the store refuses as stale every claim and every park of
-- that job that is tried next: a parked request can no longer be decided.
pub park_spends :
    (now : ℕ) (id a n why : String) (when_ : ℕ) (db : Db) {u : Updated} {db' : Db}
    → park_approval now id a n why when_ db ≡ (ok u, some db')
    → (later t : ℕ) (a' n' r : String)
    → ((claim_approval later id a' n' db').0 ≡ err approval_stale)
      × ((park_approval later id a' n' r t db').0 ≡ err approval_stale)
unfolding park_approval
park_spends now id a n why when_ db {u} {db'} h later t a' n' r =
    let (at, spent) =
      taken now id (park_mut a n why when_) db (park_mut-KeepsId a n why when_)
        (parked-Consumed now a n why when_) h in
    (refuses later id a' n' db' u.job at spent, refuses_park later id a' n' r t db' u.job at spent)

claims_found :
    (now : ℕ) (a n : String) (db : Db) (j : Job)
    → is_ok (or_stale (update_found now (claim_mut a n) db j)).0 ≡ awaits a n j j.approvals
unfolding update_found claim_mut stamped
claims_found now a n db j = ground (arith, guard_same db.dispatch_paused j.status)

-- The job waits for a decision, on one request, which has this identity and this nonce and is pending.
abbrev pub Awaited : String → String → Job → Type 0
Awaited a n j =
    (j.status ≡ needs_approval)
    × ((x : Approval) × (j.approvals ≡ x ∷ [])
        × (x.id ≡ a)
        × (x.decision_nonce ≡ n)
        × (x.state ≡ pending))

awaits-Awaited :
    (a n : String) (j : Job) (xs : List Approval)
    → j.approvals ≡ xs
    → awaits a n j xs ≡ true
    → Awaited a n j
unfolding awaits
awaits-Awaited a n j [] e h = cc
awaits-Awaited a n j (x ∷ []) e h = (
  ground arith,
  (x, e, ground (arith, eq_iff x.id a), ground (arith, eq_iff x.decision_nonce n), ground arith),
)
awaits-Awaited a n j (x ∷ (y ∷ r)) e h = cc

Awaited-awaits : (a n : String) (j : Job) → Awaited a n j → awaits a n j j.approvals ≡ true
unfolding awaits
Awaited-awaits a n j (s, (x, one, i, m, p)) =
    rw one (ground (arith, eq_iff x.id a, eq_iff x.decision_nonce n))

pub claim_approval-awaits :
    (now : ℕ) (id a n : String) (db : Db) (j : Job)
    → find id db.jobs ≡ some j
    → is_ok (claim_approval now id a n db).0 ≡ awaits a n j j.approvals
unfolding claim_approval
claim_approval-awaits now id a n db j at =
    rw (update_job_at now id (claim_mut a n) db j at) (claims_found now a n db j)

-- The claim of a job in the table succeeds exactly if the job waits for a decision on one request, and
-- this request is pending and has this identity and this nonce, also while dispatch is paused.
pub claim_approval_iff :
    (now : ℕ) (id a n : String) (db : Db) (j : Job)
    → find id db.jobs ≡ some j
    → (is_ok (claim_approval now id a n db).0 ≡ true) ↔ Awaited a n j
claim_approval_iff now id a n db j at =
    rw (claim_approval-awaits now id a n db j at)
      (awaits-Awaited a n j j.approvals refl, Awaited-awaits a n j)

or_stale_claimed :
    (r : Result Updated) {u : Updated} → (or_stale r).0 ≡ ok u → (r ≡ ok u) × (u.flag ≡ true)
or_stale_claimed r h = ground arith

claim_mut-reads :
    (now : ℕ) (a n : String) (k : Job)
    → (claim_mut a n k).1 ≡ true
    → (awaits a n k k.approvals ≡ true)
      × ((stamped now (claim_mut a n k).0).hermes_run_id ≡ k.hermes_run_id)
unfolding claim_mut stamped
claim_mut-reads now a n k h = ground arith

-- The row that a claim met, and the run that it kept.
pub claim_approval-reads :
    (now : ℕ) (id a n : String) (db : Db) {u : Updated}
    → (claim_approval now id a n db).0 ≡ ok u
    → (k : Job) × (find id db.jobs ≡ some k)
      × Awaited a n k
      × (u.job.hermes_run_id ≡ k.hermes_run_id)
unfolding claim_approval
claim_approval-reads now id a n db {u} h =
    let (r, f) = or_stale_claimed (update_job now id (claim_mut a n) db) h in
    let (k, at, e) = update_job-found now id (claim_mut a n) db r in
    let w = found-update now (claim_mut a n) db k e in
    let (wait, run) = claim_mut-reads now a n k (sym w.1 ∙ f) in
    (k, at, awaits-Awaited a n k k.approvals refl wait, ap (λ (x : Job). x.hermes_run_id) w.0 ∙ run)
