-- ===== src/Bridge/Reply.antt =====
-- internal/bridge/hermes.go: what a reply asks or reports. A reply that is not valid UTF-8 is not modelled.
use Prim.Native.String.{String}
use Prim.Native.Char.{code}
use thornhill.Base.{
  Bool, false, List, [], ◌∷◌, ◌==◌, ltb, is_empty, trim_space, concat, rune_count, take_runes,
  if◌then◌else◌,
}

-- The first line of a text, and the lines after it.
unfoldable pub first_line : String → String × List String
first_line String.[] = ("", [])
first_line (String.◌∷◌ c s) =
    let (l, ls) = first_line s in if code c == 10 then ("", l ∷ ls) else (String.◌∷◌ c l, ls)

-- `strings.Split(s, "\n")`.
unfoldable pub split_lines : String → List String
split_lines s = let (l, ls) = first_line s in l ∷ ls

-- The last line with text in it, trimmed.
unfoldable pub last_line : List String → String
last_line [] = ""
last_line (l ∷ ls) = let rest = last_line ls in if is_empty rest then trim_space l else rest

-- `strings.HasSuffix(line, "?")`.
unfoldable pub ends_asking : String → Bool
ends_asking String.[] = false
ends_asking (String.◌∷◌ c s) = let rest = ends_asking s in if is_empty s then code c == 63 else rest

-- `trailingQuestion`.
unfoldable pub trailing_question : String → String × Bool
trailing_question reply =
    let line = last_line (split_lines (trim_space reply)) in (line, ends_asking line)

unfoldable pub bounded_digest : String → String
bounded_digest reply =
    if ltb 700 (rune_count reply) then concat (take_runes 700 reply ∷ "…" ∷ []) else reply
