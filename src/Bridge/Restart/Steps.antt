-- ===== src/Bridge/Restart/Steps.antt =====
-- internal/bridge/hermes.go: the rounds of the reconciliation that stop or release a run.
use mathlib.Core.Path.{subst}
use thornhill.Base.{
  ℕ, ◌≡◌, refl, sym, ◌∙◌, ap, false, Option, none, some, String, is_empty, arith, if_elim,
}
use thornhill.Store.Job.{Status, needs_input, failed, Job}
use thornhill.Store.Jobs.{Db, Result, ok, err, Updated, find, update_job}
use thornhill.Bridge.{Hermes, World}
use thornhill.Bridge.Cleanup.{stop_and_confirm_terminal_outcome, cleanup_err}
use thornhill.Bridge.Parking.{
  release_mut, Released, unconfirmed, unwritten, released_row, written, release_parked_run,
}
use thornhill.Bridge.Ownership.{release_run, released_by, cancel_owned_run}
use thornhill.Bridge.Orphans.{
  Reconciled, reconciled, holds_run, clear_mut, cleared, clear_run_of, reconcile_failed,
  released_input, reconcile_input, released_again, reconcile_parked, orphan_mut, orphaned,
  orphan_cleanup, orphan_row,
}
use thornhill.Bridge.Restart.{
  is_open, open_row, Undisturbed, Keeps, Shuts, Keeps-refl, update-Keeps, update-Shuts, stop-db,
  clear-keeps, release-keeps, orphan-keeps, orphan-fails, cancel-db,
}

-- What a round has done if it did not break.
abbrev pub Done : String → Hermes → Reconciled → Type 0
Done id h r = (r.broken ≡ none) → Shuts id h.db r.hermes.db

cleared-Done :
    (w : World) (s : Status) (j : Job) (h : Hermes) (r : Result Updated)
    → (find j.id h.db.jobs ≡ some j)
    → is_open j.status ≡ false
    → (update_job w.now j.id (clear_mut s j.hermes_run_id) h.db ≡ r)
    → Done j.id h (cleared h r)
unfolding cleared
cleared-Done w s j h (err e) at shut q b = ground (arith, b)
cleared-Done w s j h (ok u) at shut q b =
    let mut = clear_mut s j.hermes_run_id in
    update-Shuts w.now j.id mut h.db j (λ x. (clear-keeps s j.hermes_run_id x).0) at
      (ap is_open (clear-keeps s j.hermes_run_id j).1 ∙ shut) q

-- The same for a broker whose tables are those of `h`.
clear-Done :
    (w : World) (s : Status) (j : Job) (h h' : Hermes)
    → Undisturbed w
    → (h'.db ≡ h.db)
    → (find j.id h.db.jobs ≡ some j)
    → is_open j.status ≡ false
    → Done j.id h (clear_run_of w s j h')
unfolding clear_run_of
clear-Done w s j h h' (calm, calm') same at shut b =
    let db = w.meanwhile h'.db in
    let e = calm h'.db ∙ same in
    let x = record h' { db = db } in
    subst (λ (d : Db). Shuts j.id d (clear_run_of w s j h').hermes.db) e
      (cleared-Done w s j x (update_job w.now j.id (clear_mut s j.hermes_run_id) db)
        (ap (λ (d : Db). find j.id d.jobs) e ∙ at) shut refl b)

pub kept-Done :
    (j : Job) (h h' : Hermes)
    → (h'.db ≡ h.db)
    → (find j.id h.db.jobs ≡ some j)
    → is_open j.status ≡ false
    → Shuts j.id h.db h'.db
kept-Done j h h' same at shut =
    subst (λ (d : Db). Shuts j.id h.db d) (sym same) (Keeps-refl j.id h.db, ap open_row at ∙ shut)

failed_cleanup-Done :
    (w : World) (j : Job) (h h' : Hermes) (e : Option String)
    → Undisturbed w
    → (h'.db ≡ h.db)
    → (find j.id h.db.jobs ≡ some j)
    → is_open j.status ≡ false
    → Done j.id h (elim e [ none ↦ clear_run_of w failed j h' | some t ↦ reconciled h' ])
failed_cleanup-Done w j h h' none calm same at shut b =
    clear-Done w failed j h h' calm same at shut b
failed_cleanup-Done w j h h' (some t) calm same at shut b = kept-Done j h h' same at shut

pub failed-Done :
    (w : World) (j : Job) (h : Hermes)
    → Undisturbed w
    → (find j.id h.db.jobs ≡ some j)
    → is_open j.status ≡ false
    → Done j.id h (reconcile_failed w j h)
unfolding reconcile_failed
failed-Done w j h calm at shut =
    let s = stop_and_confirm_terminal_outcome w j.hermes_run_id h in
    failed_cleanup-Done w j h s.1 (cleanup_err s.0) calm (stop-db w j.hermes_run_id h) at shut

released-Done :
    (w : World) (j : Job) (h h' : Hermes) (e : Option String)
    → Undisturbed w
    → (h'.db ≡ h.db)
    → (find j.id h.db.jobs ≡ some j)
    → is_open j.status ≡ false
    → Done j.id h (released_input w j (released_by j.id j.hermes_run_id (e, h')))
unfolding released_input
released-Done w j h h' (some e) calm same at shut b = ground (arith, b)
released-Done w j h h' none calm same at shut b =
    clear-Done w needs_input j h (cancel_owned_run j.id j.hermes_run_id h') calm
      (cancel-db j.id j.hermes_run_id h' ∙ same) at shut b

pub input-Done :
    (w : World) (j : Job) (h : Hermes)
    → Undisturbed w
    → (find j.id h.db.jobs ≡ some j)
    → is_open j.status ≡ false
    → Done j.id h (reconcile_input w j h)
unfolding reconcile_input release_run released_input clear_run_of
input-Done w j h calm at shut =
    let s = stop_and_confirm_terminal_outcome w j.hermes_run_id h in
    if_elim (λ r. Done j.id h r) (holds_run j)
      (if_elim (λ (x : Option String × Hermes). Done j.id h (released_input w j x))
        (is_empty j.hermes_run_id) (clear-Done w needs_input j h h calm refl at shut)
        (released-Done w j h s.1 (cleanup_err s.0) calm (stop-db w j.hermes_run_id h) at shut))
      (λ b. kept-Done j h h refl at shut)

released_run-Keeps :
    (now : ℕ) (id run : String) (h h' : Hermes) (r : Result Updated)
    → (h'.db ≡ h.db)
    → (update_job now id (release_mut run) h'.db ≡ r)
    → Keeps id h.db (written h' r).1.db
released_run-Keeps now id run h h' (err e) same q =
    subst (λ (d : Db). Keeps id h.db d) (sym same) (Keeps-refl id h.db)
released_run-Keeps now id run h h' (ok u) same q =
    subst (λ (d : Db). Keeps id d u.db) same
      (update-Keeps now id (release_mut run) h'.db (λ x. (release-keeps run x).0)
        (λ x o. ap is_open (release-keeps run x).1 ∙ o) q)

pub release-Keeps :
    (w : World) (id run : String) (h : Hermes) → Keeps id h.db (release_parked_run w id run h).1.db
unfolding release_parked_run
release-Keeps w id run h =
    let s = stop_and_confirm_terminal_outcome w run h in
    if_elim (λ (x : Released × Hermes). Keeps id h.db x.1.db) s.0.terminal
      (released_run-Keeps w.now id run h s.1 (update_job w.now id (release_mut run) s.1.db)
        (stop-db w run h) refl)
      (subst (λ (d : Db). Keeps id h.db d) (sym (stop-db w run h)) (Keeps-refl id h.db))

released_again-db : (j : Job) (r : Released × Hermes) → (released_again j r).hermes.db ≡ r.1.db
unfolding released_again
released_again-db j (unconfirmed, h) = refl
released_again-db j (unwritten e, h) = refl
released_again-db j (released_row x, h) = refl

pub parked-Done :
    (w : World) (j : Job) (h : Hermes)
    → (find j.id h.db.jobs ≡ some j)
    → is_open j.status ≡ false
    → Done j.id h (reconcile_parked w j h)
unfolding reconcile_parked
parked-Done w j h at shut =
    let r = release_parked_run w j.id j.hermes_run_id h in
    if_elim (λ x. Done j.id h x) (holds_run j)
      (λ b.
        subst (λ (d : Db). Shuts j.id h.db d) (sym (released_again-db j r))
          (
            release-Keeps w j.id j.hermes_run_id h,
            (release-Keeps w j.id j.hermes_run_id h).1 (ap open_row at ∙ shut),
          ))
      (λ b. kept-Done j h h refl at shut)

orphaned-Done :
    (now : ℕ) (j : Job) (e : Option String) (h : Hermes) (r : Result Updated)
    → (find j.id h.db.jobs ≡ some j)
    → (update_job now j.id (orphan_mut j e) h.db ≡ r)
    → Done j.id h (orphaned j h r)
unfolding orphaned
orphaned-Done now j e h (err x) at q b = ground (arith, b)
orphaned-Done now j e h (ok u) at q b =
    let done =
      update-Shuts now j.id (orphan_mut j e) h.db j (orphan-keeps j e) at
        (ap is_open (orphan-fails e j)) q in
    if_elim (λ (x : Reconciled). Shuts j.id h.db x.hermes.db) u.flag done done

pub orphan_row-Done :
    (w : World) (j : Job) (h : Hermes) (r : Option String × Hermes)
    → Undisturbed w
    → (r.1.db ≡ h.db)
    → (find j.id h.db.jobs ≡ some j)
    → Done j.id h (orphan_row w j r)
unfolding orphan_row
orphan_row-Done w j h (e, h') (calm, calm') same at b =
    let db = w.meanwhile h'.db in
    let q = calm h'.db ∙ same in
    subst (λ (d : Db). Shuts j.id d (orphan_row w j (e, h')).hermes.db) q
      (orphaned-Done w.now j e (record h' { db = db }) (update_job w.now j.id (orphan_mut j e) db)
        (ap (λ (d : Db). find j.id d.jobs) q ∙ at) refl b)

pub orphan_cleanup-db : (w : World) (j : Job) (h : Hermes) → (orphan_cleanup w j h).1.db ≡ h.db
unfolding orphan_cleanup
orphan_cleanup-db w j h =
    if_elim (λ (x : Option String × Hermes). x.1.db ≡ h.db) (holds_run j)
      (stop-db w j.hermes_run_id h) refl
