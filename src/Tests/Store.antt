-- ===== src/Tests/Store.antt =====
-- The tables of internal/store/store.go on a few rows.
use mathlib.Core.Logic.{◌↔◌}
use thornhill.Base.{
  ◌≡◌, ◌≢◌, refl, true, false, ◌⊎◌, none, some, [], ◌∷◌, ◌++◌, Bool, ◌+◌, arith, eq_iff,
}
use thornhill.Store.Job.{running, needs_approval, failed, pending, sending, Approval, Job}
use thornhill.Store.Jobs.{
  Db, approval_stale, ok, err, Updated, find, put, is_ok, awaits, attention_for_transition, stamped,
  guard_job_dispatch, update_found, update_job, set_state, claim_mut, park_approvals, park_mut,
  claim_approval, park_approval,
}
use thornhill.Store.Jobs.Update.{
  Finishes, WantsOperator, update_job_writes, update_job_records, paused_dispatches_none,
}
use thornhill.Store.Jobs.Authority.{claim_spends, park_spends, Awaited, claim_approval_iff}

abbrev pub request : Approval
request = record {
  id = "A1";
  provider_request_id = "req-7";
  decision_nonce = "N1";
  decision = none;
  state = pending;
  command = "rm -r build";
  description = "remove the build tree";
  pattern_keys = "rm" ∷ [];
  allow_permanent = true;
  requested_at = 5;
  parked_at = none;
  park_reason = "";
}

abbrev pub waiting : Job
waiting = record {
  id = "J1";
  display_name = "clean up";
  task = "clean the tree";
  status = needs_approval;
  question = "";
  pending_input = "";
  result_digest = "";
  error = "";
  hermes_session_id = "S1";
  hermes_run_id = "R1";
  approvals = request ∷ [];
  progress = none;
  created_at = 1;
  updated_at = 5;
  finished_at = none;
  state_version = 3;
}

abbrev pub other : Job
other = record waiting { id = "J2"; status = failed; hermes_run_id = ""; approvals = [] }

abbrev pub tables : Db
tables = record { jobs = other ∷ waiting ∷ []; attention = []; dispatch_paused = false }

abbrev fails : Job → Job × Bool
fails j = (record j { status = failed }, true)

abbrev ended : Job
ended = record waiting { status = failed; state_version = 4; updated_at = 9; finished_at = some 9 }

abbrev ended_update : Updated
ended_update = record {
  job = ended;
  flag = true;
  db = record {
    jobs = other ∷ ended ∷ [];
    attention = record { job_id = "J1"; job_version = 4; kind = failed } ∷ [];
    dispatch_paused = false;
  };
}

update_runs : update_job 9 "J1" fails tables ≡ ok ended_update
unfolding update_job find update_found stamped guard_job_dispatch put attention_for_transition
update_runs = refl

update_job_writes_example :
    (find "J1" ended_update.db.jobs ≡ some ended)
    × (find "J2" ended_update.db.jobs ≡ find "J2" tables.jobs)
update_job_writes_example =
    update_job_writes 9 "J1" fails tables "J2" (λ j. refl) (λ q. ground (arith, eq_iff "J2" "J1"))
      update_runs

update_job_records_example :
    (j : Job) × (find "J1" tables.jobs ≡ some j)
    × (ended.state_version ≡ j.state_version + 1)
    × Finishes 9 ended.status (fails j).0.finished_at ended.finished_at
    × (((ended_update.db.attention ≡ tables.attention)
          × ((j.status ≡ ended.status) ⊎ (¬ WantsOperator ended.status)))
        ⊎ ((ended_update.db.attention
              ≡ tables.attention
                ++ record {
                  job_id = ended.id;
                  job_version = ended.state_version;
                  kind = ended.status;
                }
                  ∷ [])
            × (j.status ≢ ended.status)
            × WantsOperator ended.status))
update_job_records_example = update_job_records 9 "J1" fails tables (λ k. refl) update_runs

abbrev busy : Db
busy = record {
  jobs = record waiting { status = running } ∷ [];
  attention = [];
  dispatch_paused = true;
}

abbrev touches : Job → Job × Bool
touches j = (j, true)

abbrev touched : Updated
touched = record {
  job = record waiting { status = running; state_version = 4; updated_at = 9 };
  flag = true;
  db = record busy {
    jobs = record waiting { status = running; state_version = 4; updated_at = 9 } ∷ [];
  };
}

touch_runs : update_job 9 "J1" touches busy ≡ ok touched
unfolding update_job find update_found stamped guard_job_dispatch put attention_for_transition
touch_runs = refl

paused_dispatches_none_example : (j : Job) × (find "J1" busy.jobs ≡ some j) × (j.status ≡ running)
paused_dispatches_none_example = paused_dispatches_none 9 "J1" touches busy refl touch_runs refl

abbrev claimed_row : Job
claimed_row = record waiting {
  approvals = record request { state = sending } ∷ [];
  state_version = 4;
  updated_at = 9;
}

abbrev pub claimed : Updated
claimed = record {
  job = claimed_row;
  flag = true;
  db = record tables { jobs = other ∷ claimed_row ∷ [] };
}

pub claim_runs : claim_approval 9 "J1" "A1" "N1" tables ≡ (ok claimed, some claimed.db)
unfolding claim_approval claim_mut set_state awaits update_job find update_found stamped
    guard_job_dispatch put attention_for_transition
claim_runs = refl

claim_spends_example :
    ((claim_approval 10 "J1" "A1" "N1" claimed.db).0 ≡ err approval_stale)
    × ((park_approval 10 "J1" "A1" "N1" "idle" 10 claimed.db).0 ≡ err approval_stale)
claim_spends_example = claim_spends 9 "J1" "A1" "N1" tables claim_runs 10 10 "A1" "N1" "idle"

abbrev parked_row : Updated
unfolding park_approval park_mut park_approvals awaits update_job find update_found stamped
    guard_job_dispatch put attention_for_transition
parked_row = elim (park_approval 9 "J1" "A1" "N1" "idle" 9 tables).0 [ ok u ↦ u | err e ↦ claimed ]

park_runs : park_approval 9 "J1" "A1" "N1" "idle" 9 tables ≡ (ok parked_row, some parked_row.db)
unfolding park_approval park_mut park_approvals awaits update_job find update_found stamped
    guard_job_dispatch put attention_for_transition
park_runs = refl

park_spends_example :
    ((claim_approval 10 "J1" "A1" "N1" parked_row.db).0 ≡ err approval_stale)
    × ((park_approval 10 "J1" "A1" "N1" "idle" 10 parked_row.db).0 ≡ err approval_stale)
park_spends_example = park_spends 9 "J1" "A1" "N1" "idle" 9 tables park_runs 10 10 "A1" "N1" "idle"

claim_approval_iff_example :
    (is_ok (claim_approval 9 "J1" "A1" "N0" tables).0 ≡ true) ↔ Awaited "A1" "N0" waiting
unfolding find
claim_approval_iff_example = claim_approval_iff 9 "J1" "A1" "N0" tables waiting refl
