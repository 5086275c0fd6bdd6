-- ===== src/Bridge/Authority.antt =====
-- internal/bridge/hermes.go: which authority calls the operations make.
use thornhill.Base.{
  ◌≡◌, ◌↔◌, refl, ap, true, false, ◌⊎◌, inl, inr, none, List, [], ◌∷◌, ◌++◌, String, is_empty,
  eq_iff, arith, Bool-cases,
}
use mathlib.Core.List.{append-nil}
use thornhill.Bridge.{Call, post, stop, start, Hermes, World, StatusAnswer}
use thornhill.Bridge.Cleanup.{
  terminal_hermes_run_status, get_run_status, proven, stop_and_verify,
  stop_and_confirm_terminal_outcome,
}

-- The run ended, by this read of its status.
abbrev pub Ended : StatusAnswer → String → Type 0
Ended a run = (a.error ≡ none) × (a.run_id ≡ run) × (terminal_hermes_run_status a.status ≡ true)

proven-Ended :
    (a : StatusAnswer) (run : String) → proven (get_run_status a run) ≡ true → Ended a run
unfolding proven get_run_status
proven-Ended a run h = ground (arith, eq_iff a.run_id run)

Ended-proven :
    (a : StatusAnswer) (run : String) → Ended a run → proven (get_run_status a run) ≡ true
unfolding proven get_run_status
Ended-proven a run h = ground (arith, eq_iff a.run_id run)

-- Stopping a run claims that it has ended only with proof: either the first read of the run says so, and
-- then nothing is sent, or exactly one stop is sent and the run counts as ended exactly if the read
-- after the stop says so. A read proves it if it succeeds, names this run, and is terminal.
pub stop_confirms :
    (w : World) (run : String) (h : Hermes)
    → is_empty run ≡ false
    → let (c, h') = stop_and_confirm_terminal_outcome w run h in
      (Ended w.initial run × (c.terminal ≡ true) × (h' ≡ h))
      ⊎ (¬ Ended w.initial run
          × (h'.calls ≡ h.calls ++ stop run ∷ [])
          × ((c.terminal ≡ true) ↔ Ended w.final run))
unfolding stop_and_confirm_terminal_outcome stop_and_verify
stop_confirms w run h nonempty = elim (Bool-cases (proven (get_run_status w.initial run))) [
  | inl t ↦ rw nonempty (rw t (inl (proven-Ended w.initial run t, refl, refl)))
  | inr f ↦ rw nonempty (
      rw f (
        inr (
          (λ e. ground (arith, Ended-proven w.initial run e)),
          refl,
          (proven-Ended w.final run, Ended-proven w.final run),
        )))
]

-- The authority calls among what was sent.
abbrev pub posts : List Call → List Call
posts [] = []
posts (post run choice all request key ∷ rest) = post run choice all request key ∷ posts rest
posts (stop run ∷ rest) = posts rest
posts (start job_id input ∷ rest) = posts rest

pub posts-append : (xs ys : List Call) → posts (xs ++ ys) ≡ posts xs ++ posts ys
posts-append [] ys = refl
posts-append (post run choice all request key ∷ rest) ys =
    ap (λ zs. post run choice all request key ∷ zs) (posts-append rest ys)
posts-append (stop run ∷ rest) ys = posts-append rest ys
posts-append (start job_id input ∷ rest) ys = posts-append rest ys

abbrev pub NoPost : Hermes → Hermes → Type 0
NoPost h h' = posts h'.calls ≡ posts h.calls

pub stop-NoPost :
    (w : World) (run : String) (h : Hermes) → NoPost h (stop_and_confirm_terminal_outcome w run h).1
unfolding stop_and_confirm_terminal_outcome stop_and_verify
stop-NoPost w run h =
    ground (arith, posts-append h.calls (stop run ∷ []), append-nil (posts h.calls))
