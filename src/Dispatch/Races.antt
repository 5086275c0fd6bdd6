-- ===== src/Dispatch/Races.antt =====
-- internal/dispatch/dispatch.go: what a command leaves behind, whoever else writes to the row.
use thornhill.Base.{
  ℕ, ◌≡◌, true, not, ◌⊎◌, inl, Option, none, some, [], ◌∷◌, ◌++◌, String, eq_iff, arith, if_elim,
}
use thornhill.Store.Job.{Status, queued, needs_input, Job, status_eq}
use thornhill.Store.Jobs.{not_found, find, stamped}
use thornhill.Store.Jobs.Update.{status_eq_iff, KeepsId}
use thornhill.Dispatch.{
  Dispatcher, World, store_error, wrong_status, release_failed, answer_mut, answer_row, answer,
  resumable, prepare_for_resume, resume_mut, release_answer, resume_released, resume_row, resume,
}
use thornhill.Dispatch.Atomic.{Untouched, Claimed, Atomic, refused-Untouched, queued_with-Atomic}

answer-KeepsId : (text : String) → KeepsId (answer_mut text)
unfolding answer_mut
answer-KeepsId text j = ground arith

resume-KeepsId : (s : Status) (run : String) → KeepsId (resume_mut s run)
unfolding resume_mut prepare_for_resume
resume-KeepsId s run j = ground arith

answer-effect :
    (now : ℕ) (text : String) (k : Job)
    → (answer_mut text k).1 ≡ true
    → (k.status ≡ needs_input)
      × ((stamped now (answer_mut text k).0).status ≡ queued)
      × ((stamped now (answer_mut text k).0).pending_input ≡ text)
unfolding answer_mut stamped
answer-effect now text k h = ground (arith, status_eq_iff k.status needs_input)

resume-effect :
    (now : ℕ) (s : Status) (run : String) (k : Job)
    → (resume_mut s run k).1 ≡ true
    → (k.status ≡ s)
      × (k.hermes_run_id ≡ run)
      × (resumable s ≡ true)
      × ((stamped now (resume_mut s run k).0).status ≡ queued)
      × ((stamped now (resume_mut s run k).0).hermes_run_id ≡ "")
      × ((stamped now (resume_mut s run k).0).error ≡ k.error)
unfolding resume_mut prepare_for_resume stamped
resume-effect now s run k h = ground (arith, status_eq_iff k.status s, eq_iff k.hermes_run_id run)

abbrev pub IsAnswered : String → Job → Job → Type 0
IsAnswered text k j = (k.status ≡ needs_input) × (j.status ≡ queued) × (j.pending_input ≡ text)

answer_row-Atomic :
    (w : World) (id text : String) (d : Dispatcher) (o : Option Job)
    → Atomic w id d (IsAnswered text) (answer_row w id text d o)
unfolding answer_row
answer_row-Atomic w id text d none = inl (refused-Untouched w d (store_error not_found))
answer_row-Atomic w id text d (some j) =
    if_elim (Atomic w id d (IsAnswered text)) (not (status_eq j.status needs_input))
      (inl (refused-Untouched w d wrong_status))
      (queued_with-Atomic w id d (answer_mut text) (IsAnswered text) (answer-KeepsId text)
        (answer-effect w.now text))

-- An answer is all or nothing, whatever others write in between: either the command fails, and then it
-- queues nothing, announces nothing and writes nothing itself; or one run is queued, and the row, which
-- waited for input when it was written, is queued with this answer.
pub answer_atomic :
    (w : World) (id text : String) (d : Dispatcher)
    → Untouched w d (answer w id text d)
      ⊎ (((answer w id text d).error ≡ none)
          × ((answer w id text d).state.queue ≡ d.queue ++ id ∷ [])
          × Claimed id (w.meanwhile d.db) (answer w id text d).state (IsAnswered text))
unfolding answer
answer_atomic w id text d = answer_row-Atomic w id text d (find id d.db.jobs)

-- The row was still as the command first saw it, could be resumed, and now waits for a new run. The
-- text of its failure is kept.
abbrev pub IsResumed : Job → Job → Job → Type 0
IsResumed seen k j =
    (k.status ≡ seen.status)
    × (k.hermes_run_id ≡ seen.hermes_run_id)
    × (resumable seen.status ≡ true)
    × (j.status ≡ queued)
    × (j.hermes_run_id ≡ "")
    × (j.error ≡ k.error)

resume_released-Atomic :
    (w : World) (id : String) (d : Dispatcher) (j : Job) (e : Option String)
    → Atomic w id d (IsResumed j) (resume_released w id d j e)
unfolding resume_released
resume_released-Atomic w id d j (some e) = inl (refused-Untouched w d (release_failed e))
resume_released-Atomic w id d j none =
    queued_with-Atomic w id d (resume_mut j.status j.hermes_run_id) (IsResumed j)
      (resume-KeepsId j.status j.hermes_run_id) (resume-effect w.now j.status j.hermes_run_id)

-- A resume is all or nothing, whatever others write in between: either the command fails, and then it queues
-- nothing, announces nothing and writes nothing itself; or one run is queued, the row had failed or
-- was parked and had the same status and the same upstream run when it was written as when the command
-- first saw it, and it is queued without a run.
pub resume_atomic :
    (w : World) (id : String) (d : Dispatcher) {seen : Job}
    → find id d.db.jobs ≡ some seen
    → Untouched w d (resume w id d)
      ⊎ (((resume w id d).error ≡ none)
          × ((resume w id d).state.queue ≡ d.queue ++ id ∷ [])
          × Claimed id (w.meanwhile d.db) (resume w id d).state (IsResumed seen))
unfolding resume resume_row
resume_atomic w id d {seen} at = rw at (
    if_elim (Atomic w id d (IsResumed seen)) (not (resumable seen.status))
      (inl (refused-Untouched w d wrong_status))
      (resume_released-Atomic w id d seen (release_answer w seen)))
