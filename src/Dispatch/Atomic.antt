-- ===== src/Dispatch/Atomic.antt =====
-- internal/dispatch/dispatch.go: the transaction that claims a row and queues its run is all or nothing.
use thornhill.Base.{
  ◌≡◌, ◌≢◌, refl, sym, ◌∙◌, ap, Bool, true, false, ◌⊎◌, inl, inr, Option, none, some, [], ◌∷◌, ◌++◌,
  String,
}
use thornhill.Store.Job.{Job, redacted}
use thornhill.Store.Jobs.{Db, Result, ok, err, Updated, find, stamped, update_job}
use thornhill.Store.Jobs.Update.{KeepsId, found-update, update_job-found, update_job_row}
use thornhill.Dispatch.{
  Dispatcher, World, Refusal, Reply, refuse, interfered, committed, job_queued, queued_with,
}

-- Nothing was queued or announced, and the command itself wrote nothing.
abbrev pub Untouched : World → Dispatcher → Reply → Type 0
Untouched w d o =
    (o.error ≢ none)
    × (o.state.queue ≡ d.queue)
    × (o.state.published ≡ d.published)
    × ((o.state.db ≡ d.db) ⊎ (o.state.db ≡ w.meanwhile d.db))

committed-cases :
    (b : Bool) (x y : Option String) (after d : Dispatcher)
    → (((committed b x y after d).error ≢ none) × ((committed b x y after d).state ≡ d))
      ⊎ ((b ≡ true) × (committed b x y after d ≡ record { error = none; state = after }))
unfolding committed
committed-cases false x y after d = inl ((λ q. cc), refl)
committed-cases true (some e) y after d = inl ((λ q. cc), refl)
committed-cases true none (some e) after d = inl ((λ q. cc), refl)
committed-cases true none none after d = inr (refl, refl)

-- A run is queued, and the row is the one that the update claimed.
abbrev Queued : String → Dispatcher → Result Updated → Reply → Type 0
Queued id d r o =
    (u : Updated) × (r ≡ ok u)
    × (u.flag ≡ true)
    × (o.error ≡ none)
    × (o.state.db ≡ u.db)
    × (o.state.queue ≡ d.queue ++ id ∷ [])

queued_with-cases :
    (w : World) (id : String) (d : Dispatcher) (r : Result Updated)
    → (((queued_with w id d r).error ≢ none) × ((queued_with w id d r).state ≡ d))
      ⊎ Queued id d r (queued_with w id d r)
unfolding queued_with
queued_with-cases w id d (err e) = inl ((λ q. cc), refl)
queued_with-cases w id d (ok u) =
    let after = record d {
      db = u.db;
      queue = d.queue ++ id ∷ [];
      published = d.published ++ (job_queued, redacted u.job) ∷ [];
    } in
    elim (committed-cases u.flag w.enqueue_error w.commit_error after d) [
      | inl p ↦ inl p
      | inr (f, e) ↦ inr (
        u,
        refl,
        f,
        ap (λ (o : Reply). o.error) e,
        ap (λ (o : Reply). o.state.db) e,
        ap (λ (o : Reply). o.state.queue) e,
      )
    ]

-- What a row of the table was and became.
abbrev pub Claimed : String → Db → Dispatcher → (Job → Job → Type 0) → Type 0
Claimed id before after P =
    (k : Job) × (j : Job) × (find id before.jobs ≡ some k)
    × (find id after.db.jobs ≡ some j)
    × P k j

pub Queued-row :
    (w : World) (id : String) (d : Dispatcher) (mut : Job → Job × Bool) (db : Db) (o : Reply)
    → KeepsId mut
    → Queued id d (update_job w.now id mut db) o
    → (k : Job) × (find id db.jobs ≡ some k)
      × ((mut k).1 ≡ true)
      × (find id o.state.db.jobs ≡ some (stamped w.now (mut k).0))
Queued-row w id d mut db o keeps (u, r, flag, e, base, q) =
    let (k, at, f) = update_job-found w.now id mut db r in
    let t = found-update w.now mut db k f in
    (k, at, sym t.1 ∙ flag, rw base (update_job_row w.now id mut db keeps r ∙ ap some t.0))

pub refused-Untouched : (w : World) (d : Dispatcher) (r : Refusal) → Untouched w d (refuse r d)
refused-Untouched w d r = ((λ q. cc), refl, refl, inl refl)

pub kept-Untouched :
    (w : World) (d : Dispatcher) (o : Reply)
    → o.error ≢ none
    → o.state ≡ interfered w d
    → Untouched w d o
kept-Untouched w d o n s = (
  n,
  ap (λ (x : Dispatcher). x.queue) s,
  ap (λ (x : Dispatcher). x.published) s,
  inr (ap (λ (x : Dispatcher). x.db) s),
)

-- The command failed and left nothing, or it queued the row that `P` describes before and after.
abbrev pub Atomic : World → String → Dispatcher → (Job → Job → Type 0) → Reply → Type 0
Atomic w id d P o =
    Untouched w d o
    ⊎ ((o.error ≡ none)
        × (o.state.queue ≡ d.queue ++ id ∷ [])
        × Claimed id (w.meanwhile d.db) o.state P)

pub queued_with-Atomic :
    (w : World) (id : String) (d : Dispatcher) (mut : Job → Job × Bool) (P : Job → Job → Type 0)
    → KeepsId mut
    → ((k : Job) → (mut k).1 ≡ true → P k (stamped w.now (mut k).0))
    → Atomic w id d P
        (queued_with w id (interfered w d) (update_job w.now id mut (w.meanwhile d.db)))
queued_with-Atomic w id d mut P keeps effect =
    let r = update_job w.now id mut (w.meanwhile d.db) in
    let o = queued_with w id (interfered w d) r in
    elim (queued_with-cases w id (interfered w d) r) [
      | inl (n, s) ↦ inl (kept-Untouched w d o n s)
      | inr q ↦
          (let (k, at, flag, at') =
              Queued-row w id (interfered w d) mut (w.meanwhile d.db) o keeps q in
            inr (q.3, q.5, (k, stamped w.now (mut k).0, at, at', effect k flag)))
    ]
