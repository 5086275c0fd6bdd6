-- ===== src/Bridge/Ending.antt =====
-- internal/bridge/hermes.go: the end of a turn against the row of its job and the bus.
pub mod Settling
use thornhill.Base.{
  ℕ, ◌≡◌, ◌≢◌, refl, sym, ◌∙◌, ap, Bool, true, false, ◌⊎◌, inl, inr, Option, none, some, List, [],
  ◌∷◌, ◌++◌, String, arith, if◌then◌else◌, if_elim, Bool-cases,
}
use mathlib.Core.Path.{subst}
use thornhill.Store.Job.{Status, done, failed, needs_input, Approval, Job, redacted}
use thornhill.Store.Jobs.{Db, Error, Result, ok, err, Updated, find, stamped, update_job}
use thornhill.Store.Jobs.Update.{KeepsId, found-update, update_job-found, update_job_row}
use thornhill.Bridge.{
  Hermes, World, Refusal, Kind, job_failed, job_needs_input, job_done, run_owns_state, publish,
  Publication,
}
use thornhill.Bridge.Parking.{park_approval_locked}
use thornhill.Bridge.Indeterminate.{append_failure_evidence}
use thornhill.Bridge.Turn.{
  TurnEnd, replied, approval_parked, provider_cancelled, provider_failed, request_refused,
  not_started, stopped, waits_for,
}
use thornhill.Bridge.Reply.{trailing_question, bounded_digest}
use thornhill.Bridge.Settle.{
  nothing, store_failed, run_failed, Settled, settled, fail_mut, ask_mut, done_mut, failure_told,
  success_told, kept_pending, over_text, park_at_end, moved_on, context_over, turn_failed,
  reply_told, finish,
}

abbrev pub status_of : Option Job → Option Status
status_of none = none
status_of (some j) = some j.status

-- Nothing is told, nothing is sent, and the row keeps its status.
abbrev pub LeftAlone : String → Hermes → Hermes → Type 0
LeftAlone id h h' =
    (h'.published ≡ h.published)
    × (h'.calls ≡ h.calls)
    × (status_of (find id h'.db.jobs) ≡ status_of (find id h.db.jobs))

-- What an end tells: the kind, and the row, which for a failure is shown redacted.
abbrev pub Tells : TurnEnd → Kind → Job → Job → Type 0
Tells (replied out) kind row shown =
    (shown ≡ row)
    × (((kind ≡ job_needs_input)
          × (row.status ≡ needs_input)
          × (row.question ≡ (trailing_question out).0)
          × (row.hermes_run_id ≡ "")
          × ((trailing_question out).1 ≡ true))
        ⊎ ((kind ≡ job_done)
            × (row.status ≡ done)
            × (row.result_digest ≡ bounded_digest out)
            × ((trailing_question out).1 ≡ false)))
Tells e kind row shown = (shown ≡ redacted row) × (kind ≡ job_failed) × (row.status ≡ failed)

-- The row was still this run's, it now has the status that is told, and one thing was told.
abbrev pub Recorded : String → String → Hermes → Hermes → (Kind → Job → Job → Type 0) → Type 0
Recorded id run h h' Says =
    (before row shown : Job) × (kind : Kind) × (find id h.db.jobs ≡ some before)
    × (run_owns_state before run ≡ true)
    × (find id h'.db.jobs ≡ some row)
    × (h'.published
        ≡ h.published
          ++ record { kind = kind; job_id = id; job = some shown; decision = none; approval = none }
            ∷ [])
    × Says kind row shown

-- A closure that changes only a row that is still the run's.
abbrev Fenced : String → (Job → Type 0) → (Job → Job × Bool) → Type 0
Fenced run P mut =
    (j : Job)
    → ((mut j).0.id ≡ j.id)
      × ((((mut j).1 ≡ true) × (run_owns_state j run ≡ true) × P (mut j).0)
          ⊎ (((mut j).1 ≡ false) × ((mut j).0 ≡ j)))

stamped-status : (now : ℕ) (j : Job) → (stamped now j).status ≡ j.status
unfolding stamped
stamped-status now j = refl

update-Fenced :
    (now : ℕ) (id run : String) (P : Job → Type 0) (mut : Job → Job × Bool) (db : Db) {u : Updated}
    → Fenced run P mut
    → ((j : Job) → P j → P (stamped now j))
    → update_job now id mut db ≡ ok u
    → ((u.flag ≡ true)
        × ((before : Job) × (find id db.jobs ≡ some before)
            × (run_owns_state before run ≡ true)
            × (find id u.db.jobs ≡ some u.job)
            × P u.job))
      ⊎ ((u.flag ≡ false) × (status_of (find id u.db.jobs) ≡ status_of (find id db.jobs)))
update-Fenced now id run P mut db {u} fenced kept h =
    let (j, at, e) = update_job-found now id mut db h in
    let w = found-update now mut db j e in
    let row = update_job_row now id mut db (λ x. (fenced x).0) h in
    elim (fenced j).1 [
      | inl (flag, owns, p) ↦
          inl (w.1 ∙ flag, (j, at, owns, row, subst P (sym w.0) (kept (mut j).0 p)))
      | inr (flag, same) ↦ inr (
        w.1 ∙ flag,
        ap status_of row
            ∙ ap (λ (x : Job). some x.status) w.0
            ∙ ap some (stamped-status now (mut j).0 ∙ ap (λ (x : Job). x.status) same)
            ∙ ap status_of (sym at),
      )
    ]

fail-Fenced : (run why : String) → Fenced run (λ j. j.status ≡ failed) (fail_mut run why)
unfolding fail_mut append_failure_evidence
fail-Fenced run why j = ground arith

ask-Fenced :
    (run question : String)
    → Fenced run
        (λ j. (j.status ≡ needs_input) × (j.question ≡ question) × (j.hermes_run_id ≡ ""))
        (ask_mut run question)
unfolding ask_mut
ask-Fenced run question j = ground arith

done-Fenced :
    (run digest : String)
    → Fenced run (λ j. (j.status ≡ done) × (j.result_digest ≡ digest)) (done_mut run digest)
unfolding done_mut
done-Fenced run digest j = ground arith

abbrev pub FailureSays : Kind → Job → Job → Type 0
FailureSays kind row shown = (shown ≡ redacted row) × (kind ≡ job_failed) × (row.status ≡ failed)

pub failure-Recorded :
    (now : ℕ) (id run why : String) (said : Option String) (h : Hermes) (r : Result Updated)
    → (update_job now id (fail_mut run why) h.db ≡ r)
    → let s = failure_told id said h r in
      LeftAlone id h s.hermes ⊎ Recorded id run h s.hermes FailureSays
unfolding failure_told
failure-Recorded now id run why said h (err e) q = inl (refl, refl, refl)
failure-Recorded now id run why said h (ok u) q =
    elim (update-Fenced now id run (λ j. j.status ≡ failed) (fail_mut run why) h.db
      (fail-Fenced run why) (λ j p. stamped-status now j ∙ p) q) [
        | inl (flag, (before, at, owns, row, p)) ↦
            rw flag (
              inr (before, u.job, redacted u.job, job_failed, at, owns, row, refl, (refl, refl, p)))
        | inr (flag, same) ↦ rw flag (inl (refl, refl, same))
      ]

success-Recorded :
    (now : ℕ) (id run : String) (kind : Kind) (P : Job → Type 0) (mut : Job → Job × Bool)
    (h : Hermes) (r : Result Updated)
    → Fenced run P mut
    → ((j : Job) → P j → P (stamped now j))
    → (update_job now id mut h.db ≡ r)
    → let s = success_told kind id h r in
      LeftAlone id h s.hermes
      ⊎ Recorded id run h s.hermes (λ k row shown. (shown ≡ row) × (k ≡ kind) × P row)
unfolding success_told
success-Recorded now id run kind P mut h (err e) fenced kept q = inl (refl, refl, refl)
success-Recorded now id run kind P mut h (ok u) fenced kept q =
    elim (update-Fenced now id run P mut h.db fenced kept q) [
      | inl (flag, (before, at, owns, row, p)) ↦
          rw flag (inr (before, u.job, u.job, kind, at, owns, row, refl, (refl, refl, p)))
      | inr (flag, same) ↦ rw flag (inl (refl, refl, same))
    ]

stamped-asked :
    (now : ℕ) (question : String) (j : Job)
    → (j.status ≡ needs_input) × (j.question ≡ question) × (j.hermes_run_id ≡ "")
    → ((stamped now j).status ≡ needs_input)
      × ((stamped now j).question ≡ question)
      × ((stamped now j).hermes_run_id ≡ "")
unfolding stamped
stamped-asked now question j p = p

stamped-done :
    (now : ℕ) (digest : String) (j : Job)
    → (j.status ≡ done) × (j.result_digest ≡ digest)
    → ((stamped now j).status ≡ done) × ((stamped now j).result_digest ≡ digest)
unfolding stamped
stamped-done now digest j p = p

pub reply-Recorded :
    (w : World) (id run : String) (over : Option String) (out : String) (h : Hermes)
    → let s = reply_told w id run over out h in
      LeftAlone id h s.hermes ⊎ Recorded id run h s.hermes (Tells (replied out))
unfolding reply_told
reply-Recorded w id run (some c) out h = inl (refl, refl, refl)
reply-Recorded w id run none out h =
    let question = (trailing_question out).0 in
    let digest = bounded_digest out in
    elim (Bool-cases (trailing_question out).1) [
      | inl asks ↦
          rw asks
            (elim (success-Recorded w.now id run job_needs_input
              (λ j. (j.status ≡ needs_input) × (j.question ≡ question) × (j.hermes_run_id ≡ ""))
              (ask_mut run question) h (update_job w.now id (ask_mut run question) h.db)
              (ask-Fenced run question) (stamped-asked w.now question) refl) [
                | inl left ↦ inl left
                | inr (before, row, shown, kind, at, owns, now, told, (same, k, (s, q, r))) ↦
                    inr (
                      before,
                      row,
                      shown,
                      kind,
                      at,
                      owns,
                      now,
                      told,
                      (same, inl (k, s, q, r, refl)),
                    )
              ])
      | inr not_asks ↦
          rw not_asks
            (elim (success-Recorded w.now id run job_done
              (λ j. (j.status ≡ done) × (j.result_digest ≡ digest)) (done_mut run digest) h
              (update_job w.now id (done_mut run digest) h.db) (done-Fenced run digest)
              (stamped-done w.now digest) refl) [
                | inl left ↦ inl left
                | inr (before, row, shown, kind, at, owns, now, told, (same, k, (s, d))) ↦
                    inr (before, row, shown, kind, at, owns, now, told, (same, inr (k, s, d, refl)))
              ])
    ]
