-- ===== src/Bridge/Policy.antt =====
-- internal/store/store.go and internal/bridge/hermes.go: reusable decisions, kept under the digest of the
-- complete set of a request's pattern keys.
use Prim.Native.String.{compare}
use Prim.Native.Nat.{Ordering}
use thornhill.Base.{
  Bool, false, ◌&&◌, ◌||◌, Option, none, some, List, [], ◌∷◌, String, str_eq, is_empty, trim_space,
  concat, if◌then◌else◌,
}
use thornhill.Bridge.{Hermes, World}

unfoldable pub member : String → List String → Bool
member x [] = false
member x (y ∷ ys) = let rest = member x ys in str_eq y x || rest

-- The loop over the keys: trimmed, without the empty ones and without repetitions.
unfoldable pub normal_keys : List String → List String → List String
normal_keys seen [] = []
normal_keys seen (k ∷ ks) =
    let key = trim_space k in
    let skipped = normal_keys seen ks in
    let taken = normal_keys (key ∷ seen) ks in
    if is_empty key then skipped else if member key seen then skipped else key ∷ taken

unfoldable pub insert_key : String → List String → List String
insert_key x [] = x ∷ []
insert_key x (y ∷ ys) =
    let rest = insert_key x ys in elim (compare x y) [ Ordering.gt ↦ y ∷ rest | _ ↦ x ∷ y ∷ ys ]

-- `sort.Strings`, by the order of the bytes.
unfoldable pub sort_keys : List String → List String
sort_keys [] = []
sort_keys (x ∷ xs) = insert_key x (sort_keys xs)

-- `ApprovalPatternHash`: empty for an empty set.
unfoldable pub approval_pattern_hash : (List String → String) → List String → String
approval_pattern_hash digest ks = digest_of digest (sort_keys (normal_keys [] ks))
  where
    digest_of : (List String → String) → List String → String
    digest_of digest [] = ""
    digest_of digest (k ∷ ks) = concat ("v1:" ∷ digest (k ∷ ks) ∷ [])

unfoldable pub persistent_policy_keys : Hermes → List String → List String
persistent_policy_keys h ks = concat ("@hermes-instance:" ∷ h.base_url ∷ []) ∷ ks

unfoldable pub has_pair : String → String → List (String × String) → Bool
has_pair a b [] = false
has_pair a b ((x, y) ∷ rest) = let found = has_pair a b rest in (str_eq x a && str_eq y b) || found

unfoldable pub has_key : String → List (String × String) → Bool
has_key k [] = false
has_key k ((x, y) ∷ rest) = let found = has_key k rest in str_eq x k || found

-- The hash if the set of the job holds it, and else the empty text.
unfoldable pub matches_session : List (String × String) → String → String → String
matches_session entries job_id hash =
    if is_empty hash then "" else if has_pair job_id hash entries then hash else ""

unfoldable pub matches_session_allow : World → Hermes → String → List String → String
matches_session_allow w h job_id ks =
    matches_session h.session_allows job_id (approval_pattern_hash w.digest ks)

unfoldable pub matches_session_denial : World → Hermes → String → List String → String
matches_session_denial w h job_id ks =
    matches_session h.session_denials job_id (approval_pattern_hash w.digest ks)

-- A table of hashes with the job each came from.
unfoldable pub matches_permanent : List (String × String) → String → String
matches_permanent rows hash = if is_empty hash then "" else if has_key hash rows then hash else ""

unfoldable pub matches_permanent_allow : World → Hermes → List String → String
matches_permanent_allow w h ks =
    matches_permanent h.permanent_allows
      (approval_pattern_hash w.digest (persistent_policy_keys h ks))

unfoldable pub matches_permanent_denial : World → Hermes → List String → String
matches_permanent_denial w h ks =
    matches_permanent h.permanent_denials
      (approval_pattern_hash w.digest (persistent_policy_keys h ks))

-- `INSERT … ON CONFLICT (pattern_key) DO UPDATE`.
unfoldable pub upsert : String → String → List (String × String) → List (String × String)
upsert k v [] = (k, v) ∷ []
upsert k v ((x, y) ∷ rest) =
    let others = upsert k v rest in if str_eq x k then (k, v) ∷ rest else (x, y) ∷ others

-- A save of the policy tables: the rows, and the error if it failed.
unfoldable pub save_permanent :
    Option String
    → String
    → String
    → List (String × String)
    → List (String × String) × Option String
save_permanent failure hash source rows =
    if is_empty hash
    then (rows, some "approval has no reusable pattern keys")
    else elim failure [ some e ↦ (rows, some e) | none ↦ (upsert hash source rows, none) ]
