-- ===== src/Tests/Outbox.antt =====
-- The rows of attention_events in internal/store/store.go on two of them.
use thornhill.Base.{◌≡◌, refl, arith, false, none, List, [], ◌∷◌, ◌+◌, is_empty, eq_iff}
use thornhill.Store.Job.{done, failed}
use thornhill.Store.Outbox.{
  AttentionRow, claimed_by, claim_limit, attention_claimable, claim_attention,
  claim_pending_attention, has_number, release_row, release_rows, release_attention_claim,
}
use thornhill.Store.Outbox.Leases.{ids}
use thornhill.Store.Outbox.Exclusive.{lease_excludes}
use thornhill.Store.Outbox.Spoken.{
  Op, records, claims, releases, speaks, step, run, spoken, spoken-run,
}

abbrev pub first_row : AttentionRow
first_row = record {
  id = 1;
  job_id = "J1";
  job_version = 4;
  kind = done;
  speech_text = "Job done: clean up.";
  push_title = "Job done";
  push_body = "clean up";
  created_at = 5;
  claim_token = "";
  claim_until = none;
  spoken_at = none;
}

abbrev second_row : AttentionRow
second_row = record first_row { id = 2; job_id = "J2"; kind = failed }

-- Another desk takes the second row and gives it back.
abbrev between : List Op
between = claims 20 20 "T3" 5 30 ∷ releases "T3" ∷ []

lease_excludes_example : has_number 1 (ids (claimed_by "T2" 69 second_row ∷ [])) ≡ false
unfolding run step release_attention_claim release_rows release_row claim_pending_attention
    claim_attention attention_claimable claim_limit is_empty has_number
lease_excludes_example =
    lease_excludes 10 10 40 39 "T1" "T2" 1 20 30 30 0 0 (first_row ∷ second_row ∷ []) between
      {out = claimed_by "T1" 40 first_row ∷ []} {again = claimed_by "T2" 69 second_row ∷ []} 1
      (omega arith, (omega arith, tt)) (omega arith, ((λ q. ground (arith, eq_iff "T3" "T1")), tt))
      (omega arith) refl refl refl

abbrev acknowledgements : List Op
acknowledgements =
    records first_row
    ∷ claims 10 10 "T1" 5 30
    ∷ speaks 12 "T1" (1 ∷ 2 ∷ [])
    ∷ speaks 13 "T1" (1 ∷ [])
    ∷ []

spoken-run_example : let s = run ([], 0) acknowledgements in spoken s.0 + 0 ≡ spoken [] + s.1
spoken-run_example = spoken-run [] 0 acknowledgements
