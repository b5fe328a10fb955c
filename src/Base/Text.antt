-- ===== src/Base/Text.antt =====
-- Texts as the source builds them: template literals and numbers printed in decimal.
use Prim.Native.Nat.{ℕ, zero, suc, ◌/◌, ◌%◌}
use Prim.Native.String
use Prim.Native.String.{String}
use mathlib.Core.Bool.{true, false, Bool, ◌&&◌, ◌||◌}
use mathlib.Core.List.{List, [], ◌∷◌}
use Prim.Native.Char.{Char, code}
use opencode_master.Base.Tests.{ltb, leb, eqb, if◌then◌else◌, ◌==◌, text_dec}
use opencode_master.Base.Lists.{get_elem?}
use opencode_master.Base.Table.{or_else}

-- A template literal, by its parts.
abbrev pub template : List String → String
template [] = ""
template (s ∷ parts) = String.◌++◌ s (template parts)

abbrev digit_text : ℕ → String
digit_text d =
    or_else (get_elem? ("0" ∷ "1" ∷ "2" ∷ "3" ∷ "4" ∷ "5" ∷ "6" ∷ "7" ∷ "8" ∷ "9" ∷ []) d) ""

digits_from : ℕ → ℕ → String → String
digits_from zero n acc = acc
digits_from (suc f) n acc =
    let shown = String.◌++◌ (digit_text (n % 10)) acc in
    elim (ltb n 10) [ true ↦ shown | false ↦ digits_from f (n / 10) shown ]

-- A number printed in decimal: it has at most as many digits as its value, or one.
unfoldable pub decimal : ℕ → String
unfolding digits_from
decimal n = digits_from (suc n) n ""

-- The characters that `trim` takes for white space.
abbrev is_space : ℕ → Bool
is_space c =
    (leb 9 c && leb c 13)
    || eqb c 32
    || eqb c 0xa0
    || eqb c 0x1680
    || (leb 0x2000 c && leb c 0x200a)
    || eqb c 0x2028
    || eqb c 0x2029
    || eqb c 0x202f
    || eqb c 0x205f
    || eqb c 0x3000
    || eqb c 0xfeff

trim_start : String → String
trim_start String.[] = String.[]
trim_start (String.◌∷◌ c s) =
    let rest = trim_start s in if is_space (code c) then rest else String.◌∷◌ c s

trim_end : String → String
trim_end String.[] = String.[]
trim_end (String.◌∷◌ c s) =
    let rest = trim_end s in if is_space (code c) && rest == "" then "" else String.◌∷◌ c rest

unfoldable pub trim : String → String
unfolding trim_start trim_end text_dec
trim s = trim_end (trim_start s)

unfoldable pub starts_with : String → String → Bool
starts_with String.[] s = true
starts_with (String.◌∷◌ c p) String.[] = false
starts_with (String.◌∷◌ c p) (String.◌∷◌ d s) =
    let rest = starts_with p s in eqb (code c) (code d) && rest

-- `split` at a character, as its first part and the others.
abbrev pub add_to_first : Char → String × List String → String × List String
add_to_first c (part, parts) = (String.◌∷◌ c part, parts)

unfoldable pub split_at : ℕ → String → String × List String
split_at mark String.[] = ("", [])
split_at mark (String.◌∷◌ c s) =
    let rest = split_at mark s in
    if eqb (code c) mark then ("", rest.0 ∷ rest.1) else add_to_first c rest

unfoldable pub split : ℕ → String → List String
unfolding split_at
split mark s = let (first, others) = split_at mark s in first ∷ others

-- The text without the marks at its end: `replace(/x+$/, "")`.
unfoldable pub strip_end : ℕ → String → String
unfolding text_dec
strip_end mark String.[] = ""
strip_end mark (String.◌∷◌ c s) =
    let rest = strip_end mark s in if eqb (code c) mark && rest == "" then "" else String.◌∷◌ c rest

-- `join`.
abbrev pub join : String → List String → String
join between [] = ""
join between (s ∷ []) = s
join between (s ∷ (t ∷ parts)) = template (s ∷ between ∷ join between (t ∷ parts) ∷ [])
