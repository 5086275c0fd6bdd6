-- ===== src/Tests/Dispatch.antt =====
-- The commands of internal/dispatch/dispatch.go on a few rows.
use thornhill.Base.{◌≡◌, ◌≢◌, refl, true, false, ◌⊎◌, none, [], ◌∷◌, ◌++◌}
use thornhill.Store.Job.{needs_input, cancelled, is_terminal}
use thornhill.Store.Jobs.{find}
use thornhill.Dispatch.{Dispatcher, World, answer, resume, cancel}
use thornhill.Dispatch.Atomic.{Untouched, Claimed}
use thornhill.Dispatch.Races.{IsAnswered, answer_atomic, IsResumed, resume_atomic}
use thornhill.Dispatch.Cancelling.{SameOutcome, cancel_fences}
use thornhill.Tests.Store.{waiting, other, tables}

abbrev dispatcher : Dispatcher
dispatcher = record {
  db = record tables { jobs = other ∷ record waiting { status = needs_input } ∷ [] };
  queue = [];
  published = [];
  renames = [];
  signals = [];
}

abbrev calm : World
calm = record {
  now = 9;
  release_error = none;
  enqueue_error = none;
  commit_error = none;
  meanwhile = λ db. db;
}

answer_atomic_example :
    Untouched calm dispatcher (answer calm "J1" "use make clean" dispatcher)
    ⊎ (((answer calm "J1" "use make clean" dispatcher).error ≡ none)
        × ((answer calm "J1" "use make clean" dispatcher).state.queue ≡ [] ++ "J1" ∷ [])
        × Claimed "J1" dispatcher.db
            (answer calm "J1" "use make clean" dispatcher).state
            (IsAnswered "use make clean"))
answer_atomic_example = answer_atomic calm "J1" "use make clean" dispatcher

resume_atomic_example :
    Untouched calm dispatcher (resume calm "J2" dispatcher)
    ⊎ (((resume calm "J2" dispatcher).error ≡ none)
        × ((resume calm "J2" dispatcher).state.queue ≡ [] ++ "J2" ∷ [])
        × Claimed "J2" dispatcher.db (resume calm "J2" dispatcher).state (IsResumed other))
unfolding find
resume_atomic_example = resume_atomic calm "J2" dispatcher {seen = other} refl

cancel_fences_example :
    (((cancel calm "J2" dispatcher).error ≢ none)
      × ((cancel calm "J2" dispatcher).state.signals ≡ [])
      × ((cancel calm "J2" dispatcher).state.published ≡ [])
      × (((cancel calm "J2" dispatcher).state.db ≡ dispatcher.db)
          ⊎ Claimed "J2" dispatcher.db
              (cancel calm "J2" dispatcher).state
              (λ k j. (is_terminal k.status ≡ true) × SameOutcome k j)))
    ⊎ (((cancel calm "J2" dispatcher).error ≡ none)
        × ((cancel calm "J2" dispatcher).state.signals ≡ [] ++ "J2" ∷ [])
        × Claimed "J2" dispatcher.db
            (cancel calm "J2" dispatcher).state
            (λ k j. (is_terminal k.status ≡ false) × (j.status ≡ cancelled)))
unfolding find
cancel_fences_example = cancel_fences calm "J2" dispatcher {seen = other} refl
