-- ===== src/Bridge/Ownership.antt =====
-- internal/bridge/hermes.go: which worker holds a job and its run. Every function here is one critical section.
use thornhill.Base.{
  ℕ, Bool, true, false, not, ◌&&◌, ◌||◌, Option, none, some, List, [], ◌∷◌, String, str_eq,
  is_empty, ◌==◌, if◌then◌else◌,
}
use thornhill.Store.Job.{Job}
use thornhill.Store.Jobs.{find}
use thornhill.Bridge.{stop, Owner, Hermes, World, lookup, sends}
use thornhill.Bridge.Cleanup.{stop_and_confirm_terminal_outcome, cleanup_err}

unfoldable pub find_owner : String → List (String × Owner) → Option Owner
find_owner k [] = none
find_owner k ((j, o) ∷ rest) = let found = find_owner k rest in if str_eq j k then some o else found

unfoldable pub remove_owner : String → List (String × Owner) → List (String × Owner)
remove_owner k [] = []
remove_owner k ((j, o) ∷ rest) =
    let others = remove_owner k rest in if str_eq j k then others else (j, o) ∷ others

unfoldable pub remove_key : String → List (String × String) → List (String × String)
remove_key k [] = []
remove_key k ((j, v) ∷ rest) =
    let others = remove_key k rest in if str_eq j k then others else (j, v) ∷ others

abbrev pub put_owner : String → Owner → List (String × Owner) → List (String × Owner)
put_owner k o rest = (k, o) ∷ remove_owner k rest

abbrev pub put_key : String → String → List (String × String) → List (String × String)
put_key k v rest = (k, v) ∷ remove_key k rest

unfoldable pub set_owned : String → ℕ → String → Hermes → Option Owner → Hermes × Bool
set_owned job_id worker run h none = (h, false)
set_owned job_id worker run h (some o) =
    if o.worker == worker
    then (
      record h {
        cancels = put_owner job_id (record o { run_id = run }) h.cancels;
        run_ids = put_key job_id run h.run_ids;
      },
      true,
    )
    else (h, false)

-- `setRunID` by a worker; without one the run is recorded for nobody.
unfoldable pub set_run_id : String → Option ℕ → String → Hermes → Hermes × Bool
set_run_id job_id none run h = (record h { run_ids = put_key job_id run h.run_ids }, true)
set_run_id job_id (some worker) run h = set_owned job_id worker run h (find_owner job_id h.cancels)

-- A worker takes the job over from whoever held it.
unfoldable pub take_over : String → ℕ → Hermes → Hermes
take_over job_id worker h = record h {
  cancels = put_owner job_id (record { worker = worker; run_id = ""; cancelled = false }) h.cancels;
  run_ids = remove_key job_id h.run_ids;
  session_allows = remove_key job_id h.session_allows;
  session_denials = remove_key job_id h.session_denials;
}

unfoldable pub let_go_owned : String → ℕ → Hermes → Option Owner → Hermes
let_go_owned job_id worker h none = h
let_go_owned job_id worker h (some o) =
    if o.worker == worker
    then record h {
      cancels = remove_owner job_id h.cancels;
      run_ids =
          if str_eq (lookup job_id h.run_ids) o.run_id
          then remove_key job_id h.run_ids
          else h.run_ids;
      session_allows = remove_key job_id h.session_allows;
      session_denials = remove_key job_id h.session_denials;
    }
    else h

-- The deferred end of `Run`.
unfoldable pub let_go : String → ℕ → Hermes → Hermes
let_go job_id worker h = let_go_owned job_id worker h (find_owner job_id h.cancels)

unfoldable pub cancel_owner : String → String → Hermes → Option Owner → Hermes
cancel_owner job_id run h none = h
cancel_owner job_id run h (some o) =
    let owned = lookup job_id h.run_ids in
    if not (str_eq o.run_id owned) || (not (is_empty run) && not (str_eq owned run))
    then h
    else record h { cancels = put_owner job_id (record o { cancelled = true }) h.cancels }

-- `cancelOwnedRun`.
unfoldable pub cancel_owned_run : String → String → Hermes → Hermes
cancel_owned_run job_id run h = cancel_owner job_id run h (find_owner job_id h.cancels)

abbrev pub released_by : String → String → Option String × Hermes → Option String × Hermes
released_by job_id run (some e, h) = (some e, h)
released_by job_id run (none, h) = (none, cancel_owned_run job_id run h)

-- `ReleaseRun`: the error, if the end of the run was not confirmed.
unfoldable pub release_run : World → String → String → Hermes → Option String × Hermes
release_run w job_id run h =
    if is_empty run
    then (none, h)
    else (let (c, h') = stop_and_confirm_terminal_outcome w run h in
        released_by job_id run (cleanup_err c, h'))

abbrev run_of_row : Option Job → String
run_of_row none = ""
run_of_row (some j) = j.hermes_run_id

unfoldable pub cancel_run : String → String → Hermes → Hermes
cancel_run job_id run h =
    cancel_owned_run job_id run (if is_empty run then h else sends (stop run) h)

-- `Cancel`, which the dispatcher calls after the row was cancelled.
unfoldable pub cancel_job : String → Hermes → Hermes
cancel_job job_id h =
    let owned = lookup job_id h.run_ids in
    cancel_run job_id (if is_empty owned then run_of_row (find job_id h.db.jobs) else owned) h
