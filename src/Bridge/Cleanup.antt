-- ===== src/Bridge/Cleanup.antt =====
-- internal/bridge/hermes.go: stopping an upstream run and proving that it has ended.
use thornhill.Base.{
  Bool, true, false, not, ◌||◌, Option, none, some, [], ◌∷◌, String, str_eq, is_empty, concat,
  if◌then◌else◌,
}
use thornhill.Bridge.{stop, Hermes, StatusAnswer, World, sends}

pub record TerminalCleanup : Type 0 where
  pub initial : String
  pub initial_error : Option String
  pub stop_sent : Bool
  pub stop_error : Option String
  pub final : String
  pub final_error : Option String
  pub terminal : Bool

unfoldable pub terminal_hermes_run_status : String → Bool
terminal_hermes_run_status s = str_eq s "completed" || (str_eq s "failed" || str_eq s "cancelled")

-- `getRunStatus`: the status that was read, and an error if the read failed or named another run.
-- `%q` quotes the two names; an identity has nothing in it to escape.
unfoldable pub get_run_status : StatusAnswer → String → String × Option String
get_run_status a run = elim a.error [
  | some e ↦ (a.status, some e)
  | none ↦ if str_eq a.run_id run then (a.status, none) else (
    a.status,
    some (
        concat (
          "Hermes run status identity mismatch: requested \"" ∷ run ∷ "\", received \"" ∷ a.run_id
          ∷ "\"" ∷ [])),
  )
]

-- A status read that is without an error and terminal.
unfoldable pub proven : String × Option String → Bool
proven (status, none) = terminal_hermes_run_status status
proven (status, some e) = false

abbrev pub nothing_done : TerminalCleanup
nothing_done = record {
  initial = "";
  initial_error = none;
  stop_sent = false;
  stop_error = none;
  final = "";
  final_error = none;
  terminal = false;
}

-- The stop and the read after it.
unfoldable pub stop_and_verify :
    World → String → String × Option String → Hermes → TerminalCleanup × Hermes
stop_and_verify w run first h =
    let final = get_run_status w.final run in
    (
      record {
        initial = first.0;
        initial_error = first.1;
        stop_sent = true;
        stop_error = w.stop_error;
        final = final.0;
        final_error = final.1;
        terminal = proven final;
      },
      sends (stop run) h,
    )

unfoldable pub stop_and_confirm_terminal_outcome :
    World → String → Hermes → TerminalCleanup × Hermes
stop_and_confirm_terminal_outcome w run h =
    if is_empty run
    then (record nothing_done { terminal = true }, h)
    else (let first = get_run_status w.initial run in
        if proven first
        then (
          record nothing_done { initial = first.0; initial_error = first.1; terminal = true },
          h,
        )
        else stop_and_verify w run first h)

abbrev or_no_error : Option String → Option String → String → String
or_no_error (some e) second status = e
or_no_error none (some e) status =
    concat ("stop accepted but terminal Hermes status was not confirmed: " ∷ e ∷ [])
or_no_error none none status =
    concat ("stop accepted but Hermes run remains non-terminal (status=" ∷ status ∷ ")" ∷ [])

abbrev with_initial : Option String → Option String → Option String → String → String
with_initial none (some f) (some i) status = concat (
    "stop accepted but terminal Hermes status was not confirmed: " ∷ f ∷ " (initial status: " ∷ i
    ∷ ")" ∷ [])
with_initial s f i status = or_no_error s f status

-- `terminalCleanup.err`.
unfoldable pub cleanup_err : TerminalCleanup → Option String
cleanup_err c =
    if c.terminal
    then none
    else some (with_initial c.stop_error c.final_error c.initial_error c.final)

abbrev stop_evidence : Option String → String
stop_evidence none = "; stop request was accepted and terminal status was confirmed"
stop_evidence (some e) = concat (
    "; stop request outcome was not confirmed, but terminal status was confirmed after the stop attempt: "
    ∷ e ∷ [])

abbrev error_text : Option String → String
error_text none = ""
error_text (some e) = e

-- `terminalCleanup.evidence`.
unfoldable pub evidence : TerminalCleanup → String
evidence c =
    if not c.terminal
    then concat ("; upstream stop was not confirmed: " ∷ error_text (cleanup_err c) ∷ [])
    else if not c.stop_sent
    then "; upstream was already terminal, so no stop was sent"
    else stop_evidence c.stop_error
