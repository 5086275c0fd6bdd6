-- ===== src/Store/Jobs/Update.antt =====
-- internal/store/store.go: what one update of a job does to the tables.
use mathlib.Core.List.{append-nil}
use mathlib.Core.Logic.{◌↔◌}
use thornhill.Base.{
  ℕ, ◌+◌, ◌≡◌, ◌≢◌, refl, ◌∙◌, ap, Bool, true, false, ◌⊎◌, Option, none, some, List, [], ◌∷◌, ◌++◌,
  String, eq_iff, arith, inl, inr,
}
use thornhill.Store.Job.{
  Status, done, failed, cancelled, needs_input, needs_approval, parked_approval, Job, is_dispatched,
  status_eq,
}
use thornhill.Store.Jobs.{
  Attention, Db, not_found, Result, ok, err, Updated, find, put, or_now, stamped,
  attention_for_transition, noteworthy, guard_job_dispatch, update_found, update_job,
}

pub find-id : (id : String) (js : List Job) {j : Job} → find id js ≡ some j → j.id ≡ id
unfolding find
find-id id [] h = cc
find-id id (x ∷ js) {j} h = ground (arith, eq_iff x.id id, find-id id js {j = j})

pub find-put_self :
    (x : Job) (js : List Job) {j : Job} → find x.id js ≡ some j → find x.id (put x js) ≡ some x
unfolding find put
find-put_self x [] h = cc
find-put_self x (y ∷ js) {j} h =
    ground (arith, eq_iff y.id x.id, eq_iff x.id x.id, find-put_self x js {j = j})

pub find-put_ne :
    (id : String) (x : Job) (js : List Job) → id ≢ x.id → find id (put x js) ≡ find id js
unfolding find put
find-put_ne id x [] h = refl
find-put_ne id x (y ∷ js) h =
    ground (arith, eq_iff y.id x.id, eq_iff x.id id, eq_iff y.id id, find-put_ne id x js h)

-- The closure of an update never changes the key of its row.
abbrev pub KeepsId : (Job → Job × Bool) → Type 0
KeepsId mut = (j : Job) → (mut j).0.id ≡ j.id

pub found-update :
    (now : ℕ) (mut : Job → Job × Bool) (db : Db) (j : Job) {u : Updated}
    → update_found now mut db j ≡ ok u
    → (u.job ≡ stamped now (mut j).0)
      × (u.flag ≡ (mut j).1)
      × (u.db.jobs ≡ put u.job db.jobs)
      × (u.db.attention ≡ db.attention ++ attention_for_transition j.status u.job)
      × (u.db.dispatch_paused ≡ db.dispatch_paused)
      × (guard_job_dispatch db.dispatch_paused j.status u.job.status ≡ true)
unfolding update_found
found-update now mut db j {u} h = ground arith

-- The row that an update read.
pub update_job-found :
    (now : ℕ) (id : String) (mut : Job → Job × Bool) (db : Db) {u : Updated}
    → update_job now id mut db ≡ ok u
    → (j : Job) × (find id db.jobs ≡ some j) × (update_found now mut db j ≡ ok u)
unfolding update_job
update_job-found now id mut db {u} h = go (find id db.jobs) refl h
  where
    go :
        (o : Option Job)
        → find id db.jobs ≡ o
        → (let r : Result Updated = elim o [
          | none ↦ err not_found
          | some j ↦ update_found now mut db j
        ] in
            r)
          ≡ ok u
        → (j : Job) × (find id db.jobs ≡ some j) × (update_found now mut db j ≡ ok u)
    go none e h = cc
    go (some j) e h = (j, e, h)

pub status_eq_iff :
    (s t : Status) → ((status_eq s t ≡ true) → s ≡ t) × (s ≡ t → status_eq s t ≡ true)
status_eq_iff s t = ((λ h. ground arith), (λ h. ground arith))

stamped-id : (now : ℕ) (j : Job) → (stamped now j).id ≡ j.id
unfolding stamped
stamped-id now j = refl

stamped-version : (now : ℕ) (j : Job) → (stamped now j).state_version ≡ j.state_version + 1
unfolding stamped
stamped-version now j = refl

-- The time of ending of a row that is written with `status`: a time that is set already stays.
abbrev pub Finishes : ℕ → Status → Option ℕ → Option ℕ → Type 0
Finishes now status before after =
    (((status ≢ done) × (status ≢ failed) × (status ≢ cancelled)) × (after ≡ before))
    ⊎ (((status ≡ done) ⊎ (status ≡ failed) ⊎ (status ≡ cancelled))
        × (((before ≡ none) × (after ≡ some now))
            ⊎ ((t : ℕ) × (before ≡ some t) × (after ≡ some t))))

or_now-cases :
    (now : ℕ) (before : Option ℕ)
    → ((before ≡ none) × (or_now before now ≡ some now))
      ⊎ ((t : ℕ) × (before ≡ some t) × (or_now before now ≡ some t))
or_now-cases now none = inl (refl, refl)
or_now-cases now (some t) = inr (t, refl, refl)

stamped-Finishes :
    (now : ℕ) (j : Job)
    → Finishes now (stamped now j).status j.finished_at (stamped now j).finished_at
unfolding stamped
stamped-Finishes now j = ground (arith, or_now-cases now j.finished_at)

-- The operator is told of a job that ends well or badly or that waits for the operator.
abbrev pub WantsOperator : Status → Type 0
WantsOperator s =
    (s ≡ done) ⊎ (s ≡ failed) ⊎ (s ≡ needs_input) ⊎ (s ≡ needs_approval) ⊎ (s ≡ parked_approval)

noteworthy_iff : (s : Status) → (noteworthy s ≡ true) ↔ WantsOperator s
noteworthy_iff s = ((λ h. ground arith), (λ h. ground arith))

attention_cases :
    (old : Status) (j : Job) (before after : List Attention)
    → after ≡ before ++ attention_for_transition old j
    → ((after ≡ before) × ((old ≡ j.status) ⊎ (noteworthy j.status ≡ false)))
      ⊎ ((after
            ≡ before
              ++ record { job_id = j.id; job_version = j.state_version; kind = j.status } ∷ [])
          × (old ≢ j.status)
          × (noteworthy j.status ≡ true))
unfolding attention_for_transition
attention_cases old j before after q = ground (arith, status_eq_iff old j.status, append-nil before)

attention_wants :
    (old : Status) (j : Job) (before after : List Attention)
    → after ≡ before ++ attention_for_transition old j
    → ((after ≡ before) × ((old ≡ j.status) ⊎ (¬ WantsOperator j.status)))
      ⊎ ((after
            ≡ before
              ++ record { job_id = j.id; job_version = j.state_version; kind = j.status } ∷ [])
          × (old ≢ j.status)
          × WantsOperator j.status)
attention_wants old j before after q = elim (attention_cases old j before after q) [
  | inl (e, inl s) ↦ inl (e, inl s)
  | inl (e, inr n) ↦ inl (e, inr (λ t. (let y = (noteworthy_iff j.status).1 t in ground arith)))
  | inr (e, s, n) ↦ inr (e, s, (noteworthy_iff j.status).0 n)
]

guard_paused :
    (p : Bool) (s t : Status)
    → p ≡ true
    → is_dispatched t ≡ true
    → guard_job_dispatch p s t ≡ true
    → status_eq s t ≡ true
unfolding guard_job_dispatch
guard_paused p s t q d g = ground arith

update_job_id :
    (now : ℕ) (id : String) (mut : Job → Job × Bool) (db : Db) {u : Updated}
    → KeepsId mut
    → update_job now id mut db ≡ ok u
    → u.job.id ≡ id
update_job_id now id mut db {u} keeps h =
    let (j, at, e) = update_job-found now id mut db h in
    ap (λ (x : Job). x.id) (found-update now mut db j e).0
    ∙ stamped-id now (mut j).0
    ∙ keeps j
    ∙ find-id id db.jobs at

pub update_job_row :
    (now : ℕ) (id : String) (mut : Job → Job × Bool) (db : Db) {u : Updated}
    → KeepsId mut
    → update_job now id mut db ≡ ok u
    → find id u.db.jobs ≡ some u.job
update_job_row now id mut db {u} keeps h =
    let (j, at, e) = update_job-found now id mut db h in
    let w = found-update now mut db j e in
    let same = update_job_id now id mut db keeps h in
    rw w.2 (rw (← same) (find-put_self u.job db.jobs {j = j} (rw same at)))

-- A successful update writes its row and no other.
pub update_job_writes :
    (now : ℕ) (id : String) (mut : Job → Job × Bool) (db : Db) {u : Updated} (k : String)
    → KeepsId mut
    → k ≢ id
    → update_job now id mut db ≡ ok u
    → (find id u.db.jobs ≡ some u.job) × (find k u.db.jobs ≡ find k db.jobs)
update_job_writes now id mut db {u} k keeps other h =
    let (j, at, e) = update_job-found now id mut db h in
    let w = found-update now mut db j e in
    let same = update_job_id now id mut db keeps h in
    (
      update_job_row now id mut db keeps h,
      rw w.2 (find-put_ne k u.job db.jobs (λ q. other (q ∙ same))),
    )

-- A successful update whose closure leaves the row's version counts this version up by one. It gives a row
-- that is done, failed or cancelled the time of the update as its time of ending, unless one is set, and
-- leaves that time in every other row. It records attention exactly if it changed the status to done,
-- failed, needs_input, needs_approval or parked_approval: one row, with the new status and version.
pub update_job_records :
    (now : ℕ) (id : String) (mut : Job → Job × Bool) (db : Db) {u : Updated}
    → ((k : Job) → (mut k).0.state_version ≡ k.state_version)
    → update_job now id mut db ≡ ok u
    → (j : Job) × (find id db.jobs ≡ some j)
      × (u.job.state_version ≡ j.state_version + 1)
      × Finishes now u.job.status (mut j).0.finished_at u.job.finished_at
      × (((u.db.attention ≡ db.attention)
            × ((j.status ≡ u.job.status) ⊎ (¬ WantsOperator u.job.status)))
          ⊎ ((u.db.attention
                ≡ db.attention
                  ++ record {
                    job_id = u.job.id;
                    job_version = u.job.state_version;
                    kind = u.job.status;
                  }
                    ∷ [])
              × (j.status ≢ u.job.status)
              × WantsOperator u.job.status))
update_job_records now id mut db {u} keeps h =
    let (j, at, e) = update_job-found now id mut db h in
    let w = found-update now mut db j e in
    (
      j,
      at,
      ap (λ (x : Job). x.state_version) w.0
          ∙ stamped-version now (mut j).0
          ∙ ap (λ (v : ℕ). v + 1) (keeps j),
      rw w.0 (stamped-Finishes now (mut j).0),
      attention_wants j.status u.job db.attention u.db.attention w.3,
    )

-- While dispatch is paused for a deployment, no update moves a job to queued or running.
pub paused_dispatches_none :
    (now : ℕ) (id : String) (mut : Job → Job × Bool) (db : Db) {u : Updated}
    → db.dispatch_paused ≡ true
    → update_job now id mut db ≡ ok u
    → is_dispatched u.job.status ≡ true
    → (j : Job) × (find id db.jobs ≡ some j) × (j.status ≡ u.job.status)
paused_dispatches_none now id mut db {u} p h d =
    let (j, at, e) = update_job-found now id mut db h in
    let w = found-update now mut db j e in
    (
      j,
      at,
      (status_eq_iff j.status u.job.status).0
          (guard_paused db.dispatch_paused j.status u.job.status p d w.5),
    )
