-- ===== src/Store/Outbox.antt =====
-- internal/store/store.go: what the operator has still to be told. Rows of `attention_events` are spoken by the
-- desk, and `push_deliveries` carry them to the browsers that subscribed. A statement or a transaction is
-- one step, so that no row is ever skipped as locked. Rows stand in the order of their keys.
pub mod Leases
pub mod Spoken
pub mod Exclusive
pub mod Push
pub mod Outcomes
use thornhill.Base.{
  ℕ, zero, suc, ◌+◌, Bool, true, false, not, ◌&&◌, ◌||◌, Option, none, some, List, [], ◌∷◌, ◌++◌,
  String, str_eq, is_empty, ltb, leb, ◌==◌, if◌then◌else◌,
}
use thornhill.Store.Job.{Status}

pub record AttentionRow : Type 0 where
  pub id : ℕ
  pub job_id : String
  pub job_version : ℕ
  pub kind : Status
  pub speech_text : String
  pub push_title : String
  pub push_body : String
  pub created_at : ℕ
  pub claim_token : String
  pub claim_until : Option ℕ
  pub spoken_at : Option ℕ

abbrev pub is_none {ℓ} : {A : Type ℓ} → Option A → Bool
is_none none = true
is_none (some x) = false

-- `claim_until IS NULL OR claim_until < now()`.
abbrev pub lapsed : ℕ → Option ℕ → Bool
lapsed now none = true
lapsed now (some t) = ltb t now

-- A limit that is not positive or too large is replaced; the source's negative ones are 0 here.
unfoldable pub claim_limit : ℕ → ℕ
claim_limit n = if leb n 0 || ltb 100 n then 20 else n

unfoldable pub attention_claimable : ℕ → AttentionRow → Bool
attention_claimable now r = is_none r.spoken_at && lapsed now r.claim_until

abbrev pub claimed_by : String → ℕ → AttentionRow → AttentionRow
claimed_by token until r = record r { claim_token = token; claim_until = some until }

-- `ORDER BY id … LIMIT`: the first rows that can be claimed. The table after it, and the rows it returns.
unfoldable pub claim_attention :
    ℕ → String → ℕ → ℕ → List AttentionRow → List AttentionRow × List AttentionRow
claim_attention now token until zero rows = (rows, [])
claim_attention now token until (suc n) [] = ([], [])
claim_attention now token until (suc n) (r ∷ rows) =
    let (taken, out) = claim_attention now token until n rows in
    let (passed, out') = claim_attention now token until (suc n) rows in
    if attention_claimable now r
    then (claimed_by token until r ∷ taken, claimed_by token until r ∷ out)
    else (r ∷ passed, out')

-- `ClaimPendingAttention`; `none` is the error for an empty token. The database's `now` says which leases
-- have lapsed, and the clock of the process when the new one does.
unfoldable pub claim_pending_attention :
    ℕ → ℕ → String → ℕ → ℕ → List AttentionRow → List AttentionRow × Option (List AttentionRow)
claim_pending_attention now clock token limit lease rows =
    let (rows', out) = claim_attention now token (clock + lease) (claim_limit limit) rows in
    if is_empty token then (rows, none) else (rows', some out)

unfoldable pub release_row : String → AttentionRow → AttentionRow
release_row token r =
    if str_eq r.claim_token token && is_none r.spoken_at
    then record r { claim_token = ""; claim_until = none }
    else r

unfoldable pub release_rows : String → List AttentionRow → List AttentionRow
release_rows token [] = []
release_rows token (r ∷ rows) = release_row token r ∷ release_rows token rows

-- `ReleaseAttentionClaim`.
unfoldable pub release_attention_claim : String → List AttentionRow → List AttentionRow
release_attention_claim token rows = if is_empty token then rows else release_rows token rows

unfoldable pub has_number : ℕ → List ℕ → Bool
has_number n [] = false
has_number n (x ∷ xs) = let rest = has_number n xs in x == n || rest

-- The rows that `MarkAttentionSpoken` changes.
unfoldable pub speakable : String → List ℕ → AttentionRow → Bool
speakable token ids r = str_eq r.claim_token token && (has_number r.id ids && is_none r.spoken_at)

unfoldable pub speak_rows : ℕ → String → List ℕ → List AttentionRow → List AttentionRow × ℕ
speak_rows now token ids [] = ([], 0)
speak_rows now token ids (r ∷ rows) =
    let (rest, n) = speak_rows now token ids rows in
    if speakable token ids r
    then (record r { spoken_at = some now; claim_token = ""; claim_until = none } ∷ rest, n + 1)
    else (r ∷ rest, n)

abbrev no_ids : List ℕ → Bool
no_ids [] = true
no_ids (x ∷ xs) = false

-- `MarkAttentionSpoken`: the table, and how many rows it changed.
unfoldable pub mark_attention_spoken :
    ℕ → String → List ℕ → List AttentionRow → List AttentionRow × ℕ
mark_attention_spoken now token ids rows =
    if is_empty token || no_ids ids then (rows, 0) else speak_rows now token ids rows
