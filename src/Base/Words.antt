-- ===== src/Base/Words.antt =====
-- Texts by words and by characters: `strings.Fields`, `strings.Join` and cuts of a `[]rune`.
use Prim.Native.Nat.{ℕ, zero, suc, ◌≤◌}
use Prim.Native.String.{String}
use mathlib.Core.Bool.{◌&&◌}
use mathlib.Core.List.{List, [], ◌∷◌}
use native.Mathlib.Omega.{arith}
use thornhill.Base.Tests.{if◌then◌else◌, if_elim}
use thornhill.Base.Text.{is_space, is_empty, concat, trim_left, trim_right, trim_space}

-- The word that a text begins with, and the words after it.
unfoldable pub words : String → String × List String
words String.[] = ("", [])
words (String.◌∷◌ c s) =
    let (w, ws) = words s in
    if is_space c then ("", if is_empty w then ws else w ∷ ws) else (String.◌∷◌ c w, ws)

unfoldable pub fields : String → List String
fields s = let (w, ws) = words s in if is_empty w then ws else w ∷ ws

unfoldable pub join : String → List String → String
join sep [] = ""
join sep (w ∷ []) = w
join sep (w ∷ (v ∷ ws)) = concat (w ∷ sep ∷ join sep (v ∷ ws) ∷ [])

-- `strings.Join(strings.Fields(s), " ")`.
unfoldable pub collapse : String → String
collapse s = join " " (fields s)

unfoldable pub rune_count : String → ℕ
rune_count String.[] = 0
rune_count (String.◌∷◌ c s) = suc (rune_count s)

unfoldable pub take_runes : ℕ → String → String
take_runes zero s = ""
take_runes (suc n) String.[] = ""
take_runes (suc n) (String.◌∷◌ c s) = String.◌∷◌ c (take_runes n s)

pub rune_count-take_runes : (n : ℕ) (s : String) → rune_count (take_runes n s) ≤ n
unfolding rune_count take_runes
rune_count-take_runes zero s = omega arith
rune_count-take_runes (suc n) String.[] = omega arith
rune_count-take_runes (suc n) (String.◌∷◌ c s) = omega (arith, rune_count-take_runes n s)

rune_count-trim_left : (s : String) → rune_count (trim_left s) ≤ rune_count s
unfolding rune_count trim_left
rune_count-trim_left String.[] = omega arith
rune_count-trim_left (String.◌∷◌ c s) = ground (arith, rune_count-trim_left s)

rune_count-trim_right : (s : String) → rune_count (trim_right s) ≤ rune_count s
unfolding rune_count trim_right
rune_count-trim_right String.[] = omega arith
rune_count-trim_right (String.◌∷◌ c s) =
    if_elim (λ (t : String). rune_count t ≤ suc (rune_count s))
      (is_empty (trim_right s) && is_space c) (omega arith) (omega (arith, rune_count-trim_right s))

pub rune_count-trim_space : (s : String) → rune_count (trim_space s) ≤ rune_count s
unfolding trim_space
rune_count-trim_space s = omega (arith, rune_count-trim_right (trim_left s), rune_count-trim_left s)
