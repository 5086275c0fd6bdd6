-- ===== src/Bridge/Standing.antt =====
-- internal/bridge/hermes.go: which authority calls a standing decision makes.
use thornhill.Base.{
  ◌≡◌, ◌≢◌, refl, ◌∙◌, true, false, ◌⊎◌, inl, inr, Option, none, some, List, [], ◌∷◌, ◌++◌, String,
  is_empty, arith,
}
use thornhill.Store.Job.{
  deny_always, deny_session, allow_session, allow_always, Decision, Approval, Job,
}
use thornhill.Store.Jobs.{Result, Updated, find, update_job}
use thornhill.Bridge.{
  Call, post, Hermes, World, Outcome, PostError, Kind, job_approval_auto_denied,
  job_approval_auto_allowed, sends,
}
use thornhill.Bridge.Policy.{
  matches_session_allow, matches_session_denial, matches_permanent_allow, matches_permanent_denial,
}
use thornhill.Bridge.Cleanup.{stop_and_confirm_terminal_outcome, cleanup_err}
use thornhill.Bridge.Decide.{post_approval, post_failure}
use thornhill.Bridge.Request.{
  RunEvent, requested, fail_automatic_approval, collision_mut, collided, collide, collide_answer,
  automatic, automatic_answer, admitted_with, admit, decide_by_policy, requests, request_row,
  handle_approval_request,
}
use thornhill.Bridge.Authority.{posts, posts-append, NoPost, stop-NoPost}
use thornhill.Bridge.Posts.{fail-NoPost}

automatic_fail-NoPost :
    (w : World) (id run : String) (a : Approval) (d : Decision) (cause : String) (h : Hermes)
    → NoPost h (fail_automatic_approval w id run a d cause h).hermes
unfolding fail_automatic_approval
automatic_fail-NoPost w id run a d cause h = fail-NoPost w id run a d cause h

automatic_answer-NoPost :
    (w : World) (id run : String) (a : Approval) (d : Decision) (kind : Kind) (h : Hermes)
    (o : Option PostError)
    → NoPost h (automatic_answer w id run a d kind h o).hermes
unfolding automatic_answer
automatic_answer-NoPost w id run a d kind h none = refl
automatic_answer-NoPost w id run a d kind h (some e) =
    automatic_fail-NoPost w id run a d (post_failure w.posted e) h

automatic-posts :
    (w : World) (id run : String) (a : Approval) (d : Decision) (choice : String) (kind : Kind)
    (h : Hermes)
    → posts (automatic w id run a d choice kind h).hermes.calls
      ≡ posts h.calls ++ post run choice false a.provider_request_id a.id ∷ []
unfolding automatic
automatic-posts w id run a d choice kind h =
    let c = post run choice false a.provider_request_id a.id in
    let h1 = sends c h in
    automatic_answer-NoPost w id run a d kind (record h1 { db = w.meanwhile h1.db })
      (post_approval w.posted false)
    ∙ posts-append h.calls (c ∷ [])

collided-NoPost :
    (id : String) (h : Hermes) (r : Result Updated) → NoPost h (collided id h r).hermes
collided-NoPost id h r = ground arith

collide_answer-NoPost :
    (w : World) (id run : String) (a : Approval) (h : Hermes) (o : Option PostError)
    → NoPost h (collide_answer w id run a h o).hermes
unfolding collide_answer
collide_answer-NoPost w id run a h (some e) =
    automatic_fail-NoPost w id run a deny_always (post_failure w.posted e) h
collide_answer-NoPost w id run a h none =
    let s = stop_and_confirm_terminal_outcome w run h in
    collided-NoPost id s.1 (update_job w.now id (collision_mut run (cleanup_err s.0)) s.1.db)
    ∙ stop-NoPost w run h

collide-posts :
    (w : World) (id run : String) (a : Approval) (h : Hermes)
    → posts (collide w id run a h).hermes.calls ≡ posts h.calls ++ post run "deny" true "" "" ∷ []
unfolding collide
collide-posts w id run a h =
    let c = post run "deny" true "" "" in
    let h1 = sends c h in
    collide_answer-NoPost w id run a (record h1 { db = w.meanwhile h1.db })
      (post_approval w.posted true)
    ∙ posts-append h.calls (c ∷ [])

admit-NoPost :
    (w : World) (id run : String) (a : Approval) (h : Hermes) → NoPost h (admit w id run a h).hermes
unfolding admit admitted_with
admit-NoPost w id run a h = ground arith

-- A standing grant stands behind the call: it matches the request's patterns, no standing denial does,
-- and a permanent one is used only for a request that allows it.
abbrev pub Granted : World → Hermes → String → RunEvent → List String → Type 0
Granted w h id ev ks =
    (is_empty (matches_session_denial w h id ks) ≡ true)
    × (is_empty (matches_permanent_denial w h ks) ≡ true)
    × ((is_empty (matches_session_allow w h id ks) ≡ false)
        ⊎ ((is_empty (matches_permanent_allow w h ks) ≡ false) × (ev.allow_permanent ≡ true)))

-- A standing denial matches the request's patterns.
abbrev pub Denied : World → Hermes → String → List String → Type 0
Denied w h id ks =
    (is_empty (matches_session_denial w h id ks) ≡ false)
    ⊎ (is_empty (matches_permanent_denial w h ks) ≡ false)

-- What the row of the job says of the requests that wait.
abbrev pub Waits : Option Job → (List Approval → Type 0) → Type 0
Waits row P = (j : Job) × (row ≡ some j) × P j.approvals

abbrev pub OneCall : Hermes → Call → Outcome → Type 0
OneCall h c o = posts o.hermes.calls ≡ posts h.calls ++ c ∷ []

policy-calls :
    (w : World) (id run : String) (ev : RunEvent) (a : Approval) (h : Hermes)
    → let o = decide_by_policy w id run ev a h in
      NoPost h o.hermes
      ⊎ (OneCall h (post run "deny" false a.provider_request_id a.id) o
          × Denied w h id a.pattern_keys)
      ⊎ (OneCall h (post run "once" false a.provider_request_id a.id) o
          × Granted w h id ev a.pattern_keys)
unfolding decide_by_policy
policy-calls w id run ev a h = ground (
  arith,
  admit-NoPost w id run a h,
  automatic-posts w id run a deny_session "deny" job_approval_auto_denied h,
  automatic-posts w id run a deny_always "deny" job_approval_auto_denied h,
  automatic-posts w id run a allow_session "once" job_approval_auto_allowed h,
  automatic-posts w id run a allow_always "once" job_approval_auto_allowed h,
)

Answered : World → String → String → RunEvent → Hermes → Option Job → Outcome → Type 0
Answered w id run ev h row o =
    let a = requested w ev in
    NoPost h o.hermes
    ⊎ (OneCall h (post run "deny" true "" "") o × Waits row (λ xs. xs ≢ []))
    ⊎ (OneCall h (post run "deny" false a.provider_request_id a.id) o
        × Denied w h id a.pattern_keys
        × Waits row (λ xs. xs ≡ []))
    ⊎ (OneCall h (post run "once" false a.provider_request_id a.id) o
        × Granted w h id ev a.pattern_keys
        × Waits row (λ xs. xs ≡ []))

requests-Answered :
    (w : World) (id run : String) (ev : RunEvent) (h : Hermes) (j : Job) (xs : List Approval)
    → j.approvals ≡ xs
    → Answered w id run ev h (some j) (requests w id run ev (requested w ev) xs h)
unfolding requests Answered
requests-Answered w id run ev h j (x ∷ xs) e =
    inr (inl (collide-posts w id run (requested w ev) h, (j, refl, λ q. cc)))
requests-Answered w id run ev h j [] e = elim (policy-calls w id run ev (requested w ev) h) [
  | inl p ↦ inl p
  | inr (inl (p, g)) ↦ inr (inr (inl (p, g, (j, refl, e))))
  | inr (inr (p, g)) ↦ inr (inr (inr (p, g, (j, refl, e))))
]

row-Answered :
    (w : World) (id run : String) (ev : RunEvent) (h : Hermes) (o : Option Job)
    → Answered w id run ev h o (request_row w id run ev h o)
unfolding request_row Answered
row-Answered w id run ev h none = inl refl
row-Answered w id run ev h (some j) = requests-Answered w id run ev h j j.approvals refl

-- A request that arrives causes at most one authority call. The call denies all requests only if the job
-- waits on a request already. It denies this one only if no other request of the job waits and a standing
-- denial of the session or the instance matches the request's patterns. It grants this one, once, only
-- if no other request of the job waits, no standing denial matches and a standing grant does, a
-- permanent one only for a request that allows it.
pub request_grants :
    (w : World) (id run : String) (ev : RunEvent) (h : Hermes)
    → let o = handle_approval_request w id run ev h in
      let a = requested w ev in
      NoPost h o.hermes
      ⊎ (OneCall h (post run "deny" true "" "") o × Waits (find id h.db.jobs) (λ xs. xs ≢ []))
      ⊎ (OneCall h (post run "deny" false a.provider_request_id a.id) o
          × Denied w h id a.pattern_keys
          × Waits (find id h.db.jobs) (λ xs. xs ≡ []))
      ⊎ (OneCall h (post run "once" false a.provider_request_id a.id) o
          × Granted w h id ev a.pattern_keys
          × Waits (find id h.db.jobs) (λ xs. xs ≡ []))
unfolding handle_approval_request Answered
request_grants w id run ev h = row-Answered w id run ev h (find id h.db.jobs)
