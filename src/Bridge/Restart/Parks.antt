-- ===== src/Bridge/Restart/Parks.antt =====
-- internal/bridge/hermes.go: the rounds of the reconciliation that park a request, and those of open rows.
use mathlib.Core.Path.{subst}
use thornhill.Base.{
  ◌≡◌, refl, sym, ◌∙◌, ap, true, ◌⊎◌, inl, inr, Option, none, some, String, is_empty, arith,
  if_elim, Bool-cases,
}
use thornhill.Store.Job.{Approval, Job}
use thornhill.Store.Jobs.{
  Db, Error, Result, ok, err, Updated, find, update_job, park_approval, park_mut, or_stale,
  approval_stale,
}
use thornhill.Store.Jobs.Update.{found-update, update_job-found}
use thornhill.Bridge.{Hermes, World, Outcome, Refusal, store_error}
use thornhill.Bridge.Parking.{
  Released, unconfirmed, unwritten, released_row, written, release_parked_run, after_release,
  released_parked, parked_with, park_approval_locked,
}
use thornhill.Bridge.Orphans.{parked_again, orphan_cleanup, reconcile_orphan, reconcile_working}
use thornhill.Bridge.Restart.{
  is_open, Undisturbed, Keeps, Shuts, Keeps-refl, Keeps-trans, update-Shuts, park-keeps, park-parks,
}
use thornhill.Bridge.Restart.Steps.{Done, release-Keeps, orphan_row-Done, orphan_cleanup-db}

-- The parking of the request, and the release of its run after it.
after_release-db :
    (id run : String) (j : Job) (r : Released × Hermes) → (after_release id run j r).1.db ≡ r.1.db
after_release-db id run j (unconfirmed, h) = refl
after_release-db id run j (unwritten e, h) = refl
after_release-db id run j (released_row x, h) = refl

released_parked-Keeps :
    (w : World) (id run : String) (j : Job) (h : Hermes)
    → Keeps id h.db (released_parked w id run j h).1.db
unfolding released_parked
released_parked-Keeps w id run j h =
    let r = release_parked_run w id run h in
    if_elim (λ (x : Job × Hermes). Keeps id h.db x.1.db) (is_empty run) (Keeps-refl id h.db)
      (subst (λ (d : Db). Keeps id h.db d) (sym (after_release-db id run j r))
        (release-Keeps w id run h))

or_stale-cases :
    (r : Result Updated)
    → ((e : Error) × (or_stale r).0 ≡ err e)
      ⊎ ((u : Updated) × (r ≡ ok u) × (u.flag ≡ true) × (or_stale r ≡ (ok u, some u.db)))
or_stale-cases (err e) = inl (e, refl)
or_stale-cases (ok u) = elim (Bool-cases u.flag) [
  | inl t ↦ inr (u, refl, t, rw t refl)
  | inr f ↦ inl (approval_stale, rw f refl)
]

parked_with-error :
    (w : World) (id run : String) (h : Hermes) (x : Result Updated) (o : Option Db) (e : Error)
    → (x ≡ err e)
    → (parked_with w id run h (x, o)).error ≡ some (store_error e)
unfolding parked_with
parked_with-error w id run h (err e') none e q = ground (arith, q)
parked_with-error w id run h (err e') (some db) e q = ground (arith, q)
parked_with-error w id run h (ok u) o e q = ground (arith, q)

park_error-cases : (e : Option Refusal) → (e ≡ none) ⊎ ((r : Refusal) × (e ≡ some r))
park_error-cases none = inl refl
park_error-cases (some r) = inr (r, refl)

parked_again-error : (o : Outcome) → (parked_again o).broken ≡ none → o.error ≡ none
unfolding parked_again
parked_again-error o b = elim (park_error-cases o.error) [
  | inl q ↦ q
  | inr (r, q) ↦ ground (arith, b, q)
]

parked_again-hermes : (o : Outcome) → (parked_again o).hermes ≡ o.hermes
unfolding parked_again
parked_again-hermes o = elim (park_error-cases o.error) [
  | inl q ↦ rw q refl
  | inr (r, q) ↦ rw q refl
]

Shuts-Keeps : (id : String) (a b c : Db) → Shuts id a b → Keeps id b c → Shuts id a c
Shuts-Keeps id a b c (kept, shut) kept' = (Keeps-trans id a b c kept kept', kept'.1 shut)

-- A request is parked with its row, if it was the one of the table.
parked_with-Shuts :
    (w : World) (j : Job) (id nonce reason : String) (h : Hermes) (db : Db) (r : Result Updated)
    → (db ≡ h.db)
    → (find j.id h.db.jobs ≡ some j)
    → (update_job w.now j.id (park_mut id nonce reason w.now) db ≡ r)
    → ((parked_with w j.id j.hermes_run_id h (or_stale r)).error ≡ none)
    → Shuts j.id h.db (parked_with w j.id j.hermes_run_id h (or_stale r)).hermes.db
unfolding parked_with
parked_with-Shuts w j id nonce reason h db r same at q b = elim (or_stale-cases r) [
  | inl (e, stale) ↦
      ground
        (arith, b, parked_with-error w j.id j.hermes_run_id h (or_stale r).0 (or_stale r).1 e stale)
  | inr (u, written, flag, whole) ↦
      (let mut = park_mut id nonce reason w.now in
        let (x, at', e) = update_job-found w.now j.id mut db (q ∙ written) in
        let f = found-update w.now mut db x e in
        let known = ap (λ (d : Db). find j.id d.jobs) same ∙ at in
        let row = ap (λ (o : Option Job). elim o [ none ↦ j | some y ↦ y ]) (sym at' ∙ known) in
        let parks =
          park-parks id nonce reason w.now j
            (ap (λ (y : Job). (mut y).1) (sym row) ∙ sym f.1 ∙ flag) in
        let done =
          update-Shuts w.now j.id mut db j (park-keeps id nonce reason w.now) known
            (ap is_open parks) (q ∙ written) in
        rw whole (
          Shuts-Keeps j.id h.db u.db
            (released_parked w j.id j.hermes_run_id u.job (record h { db = u.db })).1.db
            (subst (λ (d : Db). Shuts j.id d u.db) same done)
            (released_parked-Keeps w j.id j.hermes_run_id u.job (record h { db = u.db }))))
]

park-Done :
    (w : World) (j : Job) (a : Approval) (reason : String) (h : Hermes)
    → Undisturbed w
    → (find j.id h.db.jobs ≡ some j)
    → Done j.id h
        (parked_again (park_approval_locked w j.id j.hermes_run_id a.id a.decision_nonce reason h))
unfolding park_approval_locked park_approval
park-Done w j a reason h (calm, calm') at b =
    let o = park_approval_locked w j.id j.hermes_run_id a.id a.decision_nonce reason h in
    subst (λ (x : Hermes). Shuts j.id h.db x.db) (sym (parked_again-hermes o))
      (parked_with-Shuts w j a.id a.decision_nonce reason h (w.before_claim h.db)
        (update_job w.now j.id (park_mut a.id a.decision_nonce reason w.now) (w.before_claim h.db))
        (calm' h.db) at refl (parked_again-error o b))

pub working-Done :
    (w : World) (j : Job) (h : Hermes) (sole : Option Approval)
    → Undisturbed w
    → (find j.id h.db.jobs ≡ some j)
    → Done j.id h (reconcile_working w j h sole)
unfolding reconcile_working reconcile_orphan
working-Done w j h none calm at b =
    orphan_row-Done w j h (orphan_cleanup w j h) calm (orphan_cleanup-db w j h) at b
working-Done w j h (some a) calm at b =
    park-Done w j a "process restarted while approval was pending" h calm at b
