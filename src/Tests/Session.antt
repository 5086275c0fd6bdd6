-- ===== src/Tests/Session.antt =====
-- The turn loop of internal/desk/desk.go over a short talk.
use thornhill.Base.{ℕ, ◌+◌, ◌*◌, ◌≤◌, true, some, List, [], ◌∷◌, length}
use thornhill.Desk.Fsm.{second}
use thornhill.Desk.Session.{
  World, ev_input_audio_committed, ev_response_created, ev_response_done, ResponseDone, new_desk,
}
use thornhill.Desk.Loop.{Turn, server, turns, start}
use thornhill.Desk.Loop.Budget.{creates}
use thornhill.Desk.Loop.Requests.{ends, creates_bounded}
use thornhill.Tests.Fsm.{config}

abbrev at : ℕ → World
at now = record {
  now = now;
  create_ok = λ id. true;
  inject_ok = λ i. true;
  output_ok = λ c. true;
  has_attention_store = true;
  mark_spoken = λ token ids. some (length ids);
}

abbrev answer : ResponseDone
answer = record { id = "r1"; status = "completed"; input_tokens = 5; output_tokens = 7; calls = [] }

-- Two committed turns of the operator, with the response to the first in between.
abbrev talk : List (World × Turn)
talk =
    (at (63_000_000_000 * second), server ev_input_audio_committed)
    ∷ (
      at (63_000_000_000 * second + 1),
      server (ev_response_created "r1" "thornhill_response_create_864403200000000000_1"),
    )
    ∷ (at (63_000_000_001 * second), server (ev_response_done answer))
    ∷ (at (63_000_000_002 * second), server ev_input_audio_committed)
    ∷ []

creates_bounded_example :
    creates (turns (start (at (62_999_999_999 * second)) (new_desk config "desk-1")) talk).sent
    ≤ 1 + ends (start (at (62_999_999_999 * second)) (new_desk config "desk-1")) talk
creates_bounded_example = creates_bounded config "desk-1" (at (62_999_999_999 * second)) talk
