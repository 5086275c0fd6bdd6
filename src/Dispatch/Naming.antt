-- ===== src/Dispatch/Naming.antt =====
-- internal/dispatch/dispatch.go: the creation and the renaming of a job, and the name that is spoken.
use thornhill.Base.{
  ℕ, ◌≤◌, ◌≡◌, Bool, true, Option, none, some, [], ◌∷◌, ◌++◌, String, is_empty, ltb, collapse,
  rune_count, take_runes, trim_space, rune_count-take_runes, rune_count-trim_space, arith,
  if◌then◌else◌,
}
use thornhill.Store.Job.{Job}
use thornhill.Store.Jobs.{not_found, Result, ok, err, Updated, find, update_job, create_job}
use thornhill.Dispatch.{
  Dispatcher, World, store_error, no_name, Reply, refuse, interfered, queued_with,
}

abbrev max_job_name_runes : ℕ
max_job_name_runes = 120

unfoldable pub bounded_name : String → String
bounded_name name =
    if ltb max_job_name_runes (rune_count name)
    then trim_space (take_runes max_job_name_runes name)
    else name

-- `jobName`; `none` is the error for a name without text.
unfoldable pub job_name : String → Option String
job_name raw = let name = collapse raw in if is_empty name then none else some (bounded_name name)

unfoldable pub dispatch_named : World → String → String → Dispatcher → Option String → Reply
dispatch_named w fresh task d none = refuse no_name d
dispatch_named w fresh task d (some name) =
    queued_with w fresh d (create_job w.now fresh name task d.db)

-- `Dispatch`, with the fresh key of the row.
unfoldable pub dispatch : World → String → String → String → Dispatcher → Reply
dispatch w fresh name task d = dispatch_named w fresh task d (job_name name)

unfoldable pub rename_mut : String → Job → Job × Bool
rename_mut name j = (record j { display_name = name }, true)

unfoldable pub renamed_with : String → String → String → Dispatcher → Result Updated → Reply
renamed_with id old name d (err e) = refuse (store_error e) d
renamed_with id old name d (ok u) = record {
  error = none;
  state = record d { db = u.db; renames = d.renames ++ (id, (old, name)) ∷ [] };
}

unfoldable pub rename_row : World → String → Dispatcher → Option String → Option Job → Reply
rename_row w id d none row = refuse no_name d
rename_row w id d (some name) none = refuse (store_error not_found) d
rename_row w id d (some name) (some j) =
    renamed_with id j.display_name name (interfered w d)
      (update_job w.now id (rename_mut name) (w.meanwhile d.db))

-- `Rename`.
unfoldable pub rename : World → String → String → Dispatcher → Reply
rename w id name d = rename_row w id d (job_name name) (find id d.db.jobs)

bounded_name-short : (name : String) → rune_count (bounded_name name) ≤ 120
unfolding bounded_name
bounded_name-short name =
    ground (arith, rune_count-take_runes 120 name, rune_count-trim_space (take_runes 120 name))

-- A name that is accepted has at most 120 characters.
job_name-short : (raw : String) {name : String} → job_name raw ≡ some name → rune_count name ≤ 120
unfolding job_name
job_name-short raw {name} h = ground (arith, h, bounded_name-short (collapse raw))
