-- ===== src/Bridge/Restart/Whole.antt =====
-- internal/bridge/hermes.go, internal/store/store.go: after the reconciliation at a restart no row is open.
use thornhill.Base.{
  ◌≡◌, refl, ◌∙◌, ap, true, false, ◌&&◌, ◌||◌, inl, inr, Option, none, some, List, [], ◌∷◌, ◌++◌,
  String, eq_iff, arith, if_elim, Bool-cases,
}
use thornhill.Store.Job.{failed, Job, status_eq, is_active}
use thornhill.Store.Jobs.{find}
use thornhill.Bridge.{Hermes, World}
use thornhill.Bridge.Orphans.{holds_run, active_jobs, unresolved_run_jobs, reconcile_orphans}
use thornhill.Bridge.Restart.{open_row, Undisturbed}
use thornhill.Bridge.Restart.Rounds.{has_job, KeysDiffer, Found, rows-Over}

has-append :
    (id : String) (xs ys : List Job) → has_job id (xs ++ ys) ≡ (has_job id xs || has_job id ys)
has-append id [] ys = refl
has-append id (x ∷ xs) ys = ground (arith, has-append id xs ys)

has-active :
    (id : String) (js : List Job) → has_job id js ≡ false → has_job id (active_jobs js) ≡ false
unfolding active_jobs
has-active id [] n = refl
has-active id (j ∷ js) n = ground (arith, has-active id js)

has-unresolved :
    (id : String) (js : List Job)
    → has_job id js ≡ false
    → has_job id (unresolved_run_jobs js) ≡ false
unfolding unresolved_run_jobs
has-unresolved id [] n = refl
has-unresolved id (j ∷ js) n = ground (arith, has-unresolved id js)

unresolved-KeysDiffer : (js : List Job) → KeysDiffer js → KeysDiffer (unresolved_run_jobs js)
unfolding unresolved_run_jobs
unresolved-KeysDiffer [] d = tt
unresolved-KeysDiffer (j ∷ js) (new, d) =
    if_elim (λ xs. KeysDiffer xs) (status_eq j.status failed && holds_run j)
      (has-unresolved j.id js new, unresolved-KeysDiffer js d) (unresolved-KeysDiffer js d)

-- The active rows are not in the other list.
abbrev Apart : List Job → List Job → Type 0
Apart [] zs = Unit {0}
Apart (j ∷ js) zs = ((is_active j.status ≡ true) → has_job j.id zs ≡ false) × Apart js zs

active-KeysDiffer :
    (js zs : List Job)
    → KeysDiffer js
    → KeysDiffer zs
    → Apart js zs
    → KeysDiffer (active_jobs js ++ zs)
unfolding active_jobs
active-KeysDiffer [] zs d dz a = dz
active-KeysDiffer (j ∷ js) zs (new, d) dz (apart, a) = elim (Bool-cases (is_active j.status)) [
  | inl t ↦ rw t (
    ground (arith, has-append j.id (active_jobs js) zs, has-active j.id js new, apart t),
    active-KeysDiffer js zs d dz a,
  )
  | inr f ↦ rw f (active-KeysDiffer js zs d dz a)
]

Apart-cons :
    (x : Job) (js zs : List Job) → has_job x.id js ≡ false → Apart js zs → Apart js (x ∷ zs)
Apart-cons x [] zs n a = tt
Apart-cons x (j ∷ js) zs n (apart, a) = (
  λ t. ground (arith, apart t, n, eq_iff j.id x.id, eq_iff x.id j.id),
  Apart-cons x js zs (ground (arith, n)) a,
)

unresolved-Apart : (js : List Job) → KeysDiffer js → Apart js (unresolved_run_jobs js)
unfolding unresolved_run_jobs
unresolved-Apart [] d = tt
unresolved-Apart (j ∷ js) (new, d) = elim (Bool-cases (status_eq j.status failed && holds_run j)) [
  | inl t ↦
      rw t (λ q. ground arith, Apart-cons j js (unresolved_run_jobs js) new (unresolved-Apart js d))
  | inr f ↦ rw f (λ q. has-unresolved j.id js new, unresolved-Apart js d)
]

Found-cons :
    (x : Job) (table js : List Job)
    → has_job x.id js ≡ false
    → Found table js
    → Found (x ∷ table) js
unfolding find
Found-cons x table [] n f = tt
Found-cons x table (j ∷ js) n (at, f) = (
  ground (arith, at, n, eq_iff j.id x.id, eq_iff x.id j.id),
  Found-cons x table js (ground (arith, n)) f,
)

table-Found : (js : List Job) → KeysDiffer js → Found js js
unfolding find
table-Found [] d = tt
table-Found (j ∷ js) (new, d) =
    (ground (arith, eq_iff j.id j.id), Found-cons j js js new (table-Found js d))

unresolved-Found : (table js : List Job) → Found table js → Found table (unresolved_run_jobs js)
unfolding unresolved_run_jobs
unresolved-Found table [] f = tt
unresolved-Found table (j ∷ js) (at, f) =
    if_elim (λ xs. Found table xs) (status_eq j.status failed && holds_run j)
      (at, unresolved-Found table js f) (unresolved-Found table js f)

active-Found :
    (table js zs : List Job) → Found table js → Found table zs → Found table (active_jobs js ++ zs)
unfolding active_jobs
active-Found table [] zs f fz = fz
active-Found table (j ∷ js) zs (at, f) fz =
    if_elim (λ xs. Found table (xs ++ zs)) (is_active j.status) (at, active-Found table js zs f fz)
      (active-Found table js zs f fz)

active-has :
    (id : String) (js : List Job) {j : Job}
    → find id js ≡ some j
    → is_active j.status ≡ true
    → has_job id (active_jobs js) ≡ true
unfolding active_jobs find
active-has id [] {j} h t = ground (arith, h)
active-has id (x ∷ js) {j} h t = ground (arith, h, t, active-has id js {j = j})

-- A row that is not active is not open.
skipped-row :
    (id : String) (js : List Job) (o : Option Job)
    → (find id js ≡ o)
    → has_job id (active_jobs js ++ unresolved_run_jobs js) ≡ false
    → open_row o ≡ false
skipped-row id js none at n = refl
skipped-row id js (some j) at n = elim (Bool-cases (is_active j.status)) [
  | inl t ↦ ground (
    arith,
    n,
    active-has id js {j = j} at t,
    has-append id (active_jobs js) (unresolved_run_jobs js),
  )
  | inr f ↦ ground (arith, f)
]

-- After a reconciliation that reached its end, with no other writer in between, no job is running or waits
-- for a decision, whatever the provider answered. The rows have distinct keys.
pub restart_leaves_none_open :
    (worlds : String → World) (h : Hermes) (id : String)
    → ((k : String) → Undisturbed (worlds k))
    → KeysDiffer h.db.jobs
    → ((reconcile_orphans worlds h).broken ≡ none)
    → open_row (find id (reconcile_orphans worlds h).hermes.db.jobs) ≡ false
unfolding reconcile_orphans
restart_leaves_none_open worlds h id calm differ b =
    let js = h.db.jobs in
    let list = active_jobs js ++ unresolved_run_jobs js in
    let found = table-Found js differ in
    let over =
      rows-Over worlds list h calm
        (active-KeysDiffer js (unresolved_run_jobs js) differ (unresolved-KeysDiffer js differ)
          (unresolved-Apart js differ))
        (active-Found js js (unresolved_run_jobs js) found (unresolved-Found js js found)) b id in
    elim (Bool-cases (has_job id list)) [
      | inl t ↦ over.0 t
      | inr f ↦ ap open_row (over.1 f) ∙ skipped-row id js (find id js) refl f
    ]
