-- ===== src/Bridge/Fence.antt =====
-- internal/bridge/hermes.go: the holds of the workers, seen from one job.
use thornhill.Base.{
  ℕ, ◌≡◌, refl, true, false, ◌||◌, Option, none, some, List, [], ◌∷◌, String, str_eq, is_empty,
  eq_iff, ◌==◌, arith, if◌then◌else◌,
}
use thornhill.Bridge.{Owner, Hermes, lookup}
use thornhill.Bridge.Ownership.{
  find_owner, remove_owner, remove_key, set_owned, set_run_id, take_over, let_go_owned, let_go,
  cancel_owner, cancel_owned_run,
}

-- What the critical sections do, in any order, by any number of workers.
pub data Op : Type 0 where
  takes : (job_id : String) (worker : ℕ) → Op
  sets : (job_id : String) (worker : ℕ) (run : String) → Op
  lets : (job_id : String) (worker : ℕ) → Op
  cancels : (job_id run : String) → Op

unfoldable pub perform : Hermes → Op → Hermes
perform h (takes j w) = take_over j w h
perform h (sets j w run) = (set_run_id j (some w) run h).0
perform h (lets j w) = let_go j w h
perform h (cancels j run) = cancel_owned_run j run h

unfoldable pub perform_all : Hermes → List Op → Hermes
perform_all h [] = h
perform_all h (op ∷ ops) = perform_all (perform h op) ops

-- The hold on one job, as a cell of its own.
unfoldable pub set_cell : ℕ → String → Option Owner → Option Owner
set_cell w run none = none
set_cell w run (some o) = if o.worker == w then some (record o { run_id = run }) else some o

unfoldable pub let_cell : ℕ → Option Owner → Option Owner
let_cell w none = none
let_cell w (some o) = if o.worker == w then none else some o

unfoldable pub cancel_cell : String → Option Owner → Option Owner
cancel_cell run none = none
cancel_cell run (some o) =
    if is_empty run || str_eq o.run_id run then some (record o { cancelled = true }) else some o

unfoldable pub cell : String → Option Owner → Op → Option Owner
cell id o (takes j w) =
    if str_eq j id then some (record { worker = w; run_id = ""; cancelled = false }) else o
cell id o (sets j w run) = if str_eq j id then set_cell w run o else o
cell id o (lets j w) = if str_eq j id then let_cell w o else o
cell id o (cancels j run) = if str_eq j id then cancel_cell run o else o

unfoldable pub cell_all : String → Option Owner → List Op → Option Owner
cell_all id o [] = o
cell_all id o (op ∷ ops) = cell_all id (cell id o op) ops

abbrev pub run_of : Option Owner → String
run_of none = ""
run_of (some o) = o.run_id

-- The two maps agree with one cell: the hold, and the run that it names.
abbrev pub Shows : String → Hermes → Option Owner → Type 0
Shows id h c = (find_owner id h.cancels ≡ c) × (lookup id h.run_ids ≡ run_of c)

find-remove_owner :
    (k j : String) (m : List (String × Owner))
    → find_owner k (remove_owner j m) ≡ (if str_eq j k then none else find_owner k m)
unfolding find_owner remove_owner
find-remove_owner k j [] = ground arith
find-remove_owner k j ((i, o) ∷ m) =
    ground (arith, eq_iff i j, eq_iff i k, eq_iff j k, find-remove_owner k j m)

lookup-remove_key :
    (k j : String) (m : List (String × String))
    → lookup k (remove_key j m) ≡ (if str_eq j k then "" else lookup k m)
unfolding lookup remove_key
lookup-remove_key k j [] = ground arith
lookup-remove_key k j ((i, v) ∷ m) =
    ground (arith, eq_iff i j, eq_iff i k, eq_iff j k, lookup-remove_key k j m)

takes-Shows :
    (id : String) (h : Hermes) (c : Option Owner) (j : String) (w : ℕ)
    → Shows id h c
    → Shows id (take_over j w h) (cell id c (takes j w))
unfolding take_over find_owner cell lookup
takes-Shows id h c j w s =
    ground
      (arith, s, eq_iff j id, find-remove_owner id j h.cancels, lookup-remove_key id j h.run_ids)

sets-Shows :
    (id : String) (h : Hermes) (c : Option Owner) (j : String) (w : ℕ) (run : String)
    (o : Option Owner)
    → (find_owner j h.cancels ≡ o)
    → Shows id h c
    → Shows id (set_owned j w run h o).0 (cell id c (sets j w run))
unfolding set_owned find_owner cell lookup set_cell
sets-Shows id h none j w run none e s = ground (arith, e, s, eq_iff j id)
sets-Shows id h (some c) j w run none e s = ground (arith, e, s, eq_iff j id)
sets-Shows id h none j w run (some o) e s =
    ground
      (arith, e, s, eq_iff j id, find-remove_owner id j h.cancels, lookup-remove_key id j h.run_ids)
sets-Shows id h (some c) j w run (some o) e s =
    ground
      (arith, e, s, eq_iff j id, find-remove_owner id j h.cancels, lookup-remove_key id j h.run_ids)

lets-Shows :
    (id : String) (h : Hermes) (c : Option Owner) (j : String) (w : ℕ) (o : Option Owner)
    → (find_owner j h.cancels ≡ o)
    → Shows id h c
    → Shows id (let_go_owned j w h o) (cell id c (lets j w))
unfolding let_go_owned find_owner cell lookup let_cell
lets-Shows id h none j w none e s = ground (arith, e, s, eq_iff j id)
lets-Shows id h (some c) j w none e s = ground (arith, e, s, eq_iff j id)
lets-Shows id h none j w (some o) e s = ground (
  arith,
  e,
  s,
  eq_iff j id,
  eq_iff (lookup j h.run_ids) o.run_id,
  find-remove_owner id j h.cancels,
  lookup-remove_key id j h.run_ids,
)
lets-Shows id h (some c) j w (some o) e s = ground (
  arith,
  e,
  s,
  eq_iff j id,
  eq_iff (lookup j h.run_ids) o.run_id,
  find-remove_owner id j h.cancels,
  lookup-remove_key id j h.run_ids,
)

cancels-Shows :
    (id : String) (h : Hermes) (c : Option Owner) (j run : String) (o : Option Owner)
    → (find_owner j h.cancels ≡ o)
    → Shows id h c
    → Shows id (cancel_owner j run h o) (cell id c (cancels j run))
unfolding cancel_owner find_owner cell lookup cancel_cell
cancels-Shows id h none j run none e s = ground (arith, e, s, eq_iff j id)
cancels-Shows id h (some c) j run none e s = ground (arith, e, s, eq_iff j id)
cancels-Shows id h none j run (some o) e s = ground (
  arith,
  e,
  s,
  eq_iff j id,
  eq_iff o.run_id (lookup j h.run_ids),
  eq_iff o.run_id run,
  eq_iff (lookup j h.run_ids) run,
  find-remove_owner id j h.cancels,
)
cancels-Shows id h (some c) j run (some o) e s = ground (
  arith,
  e,
  s,
  eq_iff j id,
  eq_iff o.run_id (lookup j h.run_ids),
  eq_iff o.run_id run,
  eq_iff (lookup j h.run_ids) run,
  find-remove_owner id j h.cancels,
)

perform-Shows :
    (id : String) (h : Hermes) (c : Option Owner) (op : Op)
    → Shows id h c
    → Shows id (perform h op) (cell id c op)
unfolding perform set_run_id let_go cancel_owned_run
perform-Shows id h c (takes j w) s = takes-Shows id h c j w s
perform-Shows id h c (sets j w run) s = sets-Shows id h c j w run (find_owner j h.cancels) refl s
perform-Shows id h c (lets j w) s = lets-Shows id h c j w (find_owner j h.cancels) refl s
perform-Shows id h c (cancels j run) s = cancels-Shows id h c j run (find_owner j h.cancels) refl s

-- Over any sequence of the critical sections, by any workers and for any jobs, the two maps show of a job
-- exactly what one cell holds: the worker that took it last and has not let it go, the run that this worker
-- recorded, and whether it was cancelled. A worker whose job was taken over changes nothing more.
pub ownership_refines :
    (id : String) (h : Hermes) (c : Option Owner) (ops : List Op)
    → Shows id h c
    → Shows id (perform_all h ops) (cell_all id c ops)
unfolding perform_all cell_all
ownership_refines id h c [] s = s
ownership_refines id h c (op ∷ ops) s =
    ownership_refines id (perform h op) (cell id c op) ops (perform-Shows id h c op s)
