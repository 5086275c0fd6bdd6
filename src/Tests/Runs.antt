-- ===== src/Tests/Runs.antt =====
-- One delivery of a queued job through `Run` of internal/bridge/hermes.go, from its claim to its end.
use thornhill.Base.{
  ◌≡◌, refl, Option, none, some, [], ◌∷◌, String, is_empty, is_space, trim_space, trim_left,
  trim_right, contains, has_prefix, rune_count, take_runes, concat,
}
use thornhill.Store.Job.{Job, queued}
use thornhill.Store.Jobs.{
  find, update_job, update_found, guard_job_dispatch, put, stamped, attention_for_transition,
}
use thornhill.Bridge.{Hermes, owned_run_id, lookup, run_owns_state}
use thornhill.Bridge.Ownership.{
  take_over, set_run_id, set_owned, find_owner, remove_owner, remove_key, let_go, let_go_owned,
}
use thornhill.Bridge.Runs.{
  Passage, run, run_row, claimed_run, claim_run_mut, reread, take_turn, after_turn, initial_input,
  finished,
}
use thornhill.Bridge.Turn.{
  message_delta, run_completed, closed, run_turn, started_turn, owned_turn, start_mut, started_with,
  subscribed, turn_loop, turn_step,
}
use thornhill.Bridge.Settle.{finish, reply_told, success_told, done_mut}
use thornhill.Bridge.Reply.{
  first_line, split_lines, last_line, ends_asking, trailing_question, bounded_digest,
}
use thornhill.Tests.Bridge.{quiet, working_broker, working}
use thornhill.Tests.Turn.{first_delivery}
use thornhill.Tests.Store.{tables}

abbrev queued_broker : Hermes
queued_broker = record working_broker {
  db = record tables { jobs = record working { status = queued; hermes_run_id = "" } ∷ [] };
  run_ids = [];
}

abbrev delivery : Passage
delivery = record first_delivery {
  stream =
      (quiet, message_delta "Tidied up.")
      ∷ (quiet, run_completed "")
      ∷ (quiet, closed none none)
      ∷ [];
}

unfoldable digest_of : Option Job → String
digest_of none = ""
digest_of (some j) = j.result_digest

delivery_is_done :
    digest_of (find "J1" (run delivery "J1" queued_broker).hermes.db.jobs) ≡ "Tidied up."
unfolding digest_of find update_job update_found guard_job_dispatch put stamped
    attention_for_transition owned_run_id lookup run_owns_state take_over set_run_id set_owned
    find_owner remove_owner remove_key let_go let_go_owned run run_row claimed_run claim_run_mut
    reread take_turn after_turn initial_input finished run_turn started_turn owned_turn start_mut
    started_with subscribed turn_loop turn_step finish reply_told success_told done_mut first_line
    split_lines last_line ends_asking trailing_question bounded_digest is_empty is_space trim_space
    trim_left trim_right contains has_prefix rune_count take_runes concat
delivery_is_done = refl
