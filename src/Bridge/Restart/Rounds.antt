-- ===== src/Bridge/Restart/Rounds.antt =====
-- internal/bridge/hermes.go, internal/store/store.go: the rounds of the reconciliation over all rows.
use mathlib.Core.Path.{subst}
use thornhill.Base.{
  ◌≡◌, ◌≢◌, refl, sym, ◌∙◌, ap, Bool, true, false, ◌&&◌, ◌||◌, inl, inr, Option, none, some, List,
  [], ◌∷◌, String, str_eq, eq_iff, arith, if◌then◌else◌, if-cases, Bool-cases,
}
use thornhill.Store.Job.{
  running, needs_approval, needs_input, failed, parked_approval, Job, status_eq,
}
use thornhill.Store.Jobs.{find}
use thornhill.Bridge.{Hermes, World}
use thornhill.Bridge.Turn.{sole_pending}
use thornhill.Bridge.Orphans.{
  Broken, Reconciled, reconciled, holds_run, reconcile_failed, reconcile_input, reconcile_parked,
  reconcile_working, reconcile_row, reconcile_rows,
}
use thornhill.Bridge.Restart.{open_row, Undisturbed}
use thornhill.Bridge.Restart.Steps.{Done, kept-Done, failed-Done, input-Done, parked-Done}
use thornhill.Bridge.Restart.Parks.{working-Done}

row-Done :
    (w : World) (j : Job) (h : Hermes)
    → Undisturbed w
    → (find j.id h.db.jobs ≡ some j)
    → Done j.id h (reconcile_row w j h)
unfolding reconcile_row
row-Done w j h calm at =
    let works = reconcile_working w j h (sole_pending j.status j.approvals) in
    let last =
      if status_eq j.status running || status_eq j.status needs_approval
      then works
      else reconciled h in
    let parks = if status_eq j.status parked_approval then reconcile_parked w j h else last in
    let asks = if status_eq j.status needs_input then reconcile_input w j h else parks in
    let D = λ (r : Reconciled). Done j.id h r in
    elim (if-cases (status_eq j.status failed && holds_run j) (reconcile_failed w j h) asks) [
      | inl (t, e) ↦ subst D (sym e) (failed-Done w j h calm at (ground arith))
      | inr (f, e) ↦
          subst D (sym e)
            (elim (if-cases (status_eq j.status needs_input) (reconcile_input w j h) parks) [
              | inl (t, e) ↦ subst D (sym e) (input-Done w j h calm at (ground arith))
              | inr (f, e) ↦
                  subst D (sym e)
                    (elim (if-cases (status_eq j.status parked_approval) (reconcile_parked w j h)
                      last) [
                        | inl (t, e) ↦ subst D (sym e) (parked-Done w j h at (ground arith))
                        | inr (f, e) ↦
                            subst D (sym e)
                              (elim (if-cases
                                (status_eq j.status running || status_eq j.status needs_approval)
                                works (reconciled h)) [
                                  | inl (t, e) ↦ subst D (sym e) (
                                      working-Done w j h (sole_pending j.status j.approvals) calm
                                        at)
                                  | inr (f, e) ↦
                                      subst D (sym e) (λ b. kept-Done j h h refl at (ground arith))
                                ])
                      ])
            ])
    ]

abbrev pub has_job : String → List Job → Bool
has_job id [] = false
has_job id (j ∷ js) = str_eq j.id id || has_job id js

-- The key is unique.
abbrev pub KeysDiffer : List Job → Type 0
KeysDiffer [] = Unit {0}
KeysDiffer (j ∷ js) = (has_job j.id js ≡ false) × KeysDiffer js

-- What was read of each row is what it is.
abbrev pub Found : List Job → List Job → Type 0
Found table [] = Unit {0}
Found table (j ∷ js) = (find j.id table ≡ some j) × Found table js

Found-frame :
    (id : String) (js : List Job) (h h' : Hermes)
    → has_job id js ≡ false
    → ((k : String) → k ≢ id → find k h'.db.jobs ≡ find k h.db.jobs)
    → Found h.db.jobs js
    → Found h'.db.jobs js
Found-frame id [] h h' n frame c = tt
Found-frame id (j ∷ js) h h' n frame (at, c) = (
  frame j.id (λ q. ground (arith, n, q, eq_iff j.id id)) ∙ at,
  Found-frame id js h h' (ground (arith, n)) frame c,
)

abbrev pub Over : List Job → Hermes → Reconciled → Type 0
Over js h r =
    (r.broken ≡ none)
    → (id : String)
    → ((has_job id js ≡ true) → open_row (find id r.hermes.db.jobs) ≡ false)
      × ((has_job id js ≡ false) → find id r.hermes.db.jobs ≡ find id h.db.jobs)

first-Over :
    (j : Job) (js : List Job) (h : Hermes) (r rest : Reconciled) (b : Option Broken)
    → (r.broken ≡ b)
    → has_job j.id js ≡ false
    → Done j.id h r
    → ((r.broken ≡ none) → Over js r.hermes rest)
    → Over (j ∷ js) h (elim b [ none ↦ rest | some x ↦ r ])
first-Over j js h r rest (some x) q fresh done later b id = ground (arith, q, b)
first-Over j js h r rest none q fresh done later b id =
    let (kept, shut) = done q in
    let (shuts, same) = later q b id in
    (
      λ m. elim (Bool-cases (has_job id js)) [
        | inl t ↦ shuts t
        | inr f ↦
            (let is = (eq_iff j.id id).0 (ground (arith, m, f)) in
              ap open_row (same f)
              ∙ subst (λ (k : String). open_row (find k r.hermes.db.jobs) ≡ false) is shut)
      ],
      λ n. same (ground (arith, n)) ∙ kept.0 id (λ e. ground (arith, n, e, eq_iff j.id id)),
    )

pub rows-Over :
    (worlds : String → World) (js : List Job) (h : Hermes)
    → ((id : String) → Undisturbed (worlds id))
    → KeysDiffer js
    → Found h.db.jobs js
    → Over js h (reconcile_rows worlds js h)
unfolding reconcile_rows
rows-Over worlds [] h calm fresh c = λ b id. (λ m. ground (arith, m), λ n. refl)
rows-Over worlds (j ∷ js) h calm (new, fresh) (at, c) =
    let r = reconcile_row (worlds j.id) j h in
    let done = row-Done (worlds j.id) j h (calm j.id) at in
    first-Over j js h r (reconcile_rows worlds js r.hermes) r.broken refl new done (λ q.
      rows-Over worlds js r.hermes calm fresh
        (Found-frame j.id js h r.hermes new (λ k n. (done q).0.0 k n) c))
