-- ===== src/Base/Spaces.antt =====
-- White space: `strings.TrimSpace` and `strings.Fields`.
use Prim.Native.Nat.{ℕ}
use Prim.Native.Char.{Char, code}
use Prim.Native.String.{String}
use mathlib.Core.Bool.{Bool, false, ◌&&◌, ◌||◌}
use mathlib.Core.List.{List, [], ◌∷◌}
use text.Mathlib.Text.{◌==◌}
use engine_ci.Base.Tests.{eqb, leb, if◌then◌else◌}
use engine_ci.Base.Texts.{push}

has_code : List ℕ → ℕ → Bool
has_code [] n = false
has_code (c ∷ cs) n = eqb c n || has_code cs n

abbrev within : ℕ → ℕ → ℕ → Bool
within low high n = leb low n && leb n high

-- `unicode.IsSpace`
unfoldable pub is_space : Char → Bool
unfolding has_code
is_space c =
    within 9 13 (code c)
    || (within 8192 8202 (code c)
        || has_code (32 ∷ 133 ∷ 160 ∷ 5760 ∷ 8232 ∷ 8233 ∷ 8239 ∷ 8287 ∷ 12288 ∷ []) (code c))

-- A text without the characters of a class at its end.
unfoldable pub trim_right : (Char → Bool) → String → String
trim_right f String.[] = ""
trim_right f (String.◌∷◌ c s) =
    let rest = trim_right f s in if f c && rest == "" then "" else String.◌∷◌ c rest

-- A text without the characters of a class at its front.
unfoldable pub trim_left : (Char → Bool) → String → String
trim_left f String.[] = ""
trim_left f (String.◌∷◌ c s) = let rest = trim_left f s in if f c then rest else String.◌∷◌ c s

-- `strings.TrimSpace`
unfoldable pub trim_space : String → String
unfolding trim_left trim_right is_space
trim_space s = trim_right is_space (trim_left is_space s)

split_spaces : String → List String
unfolding is_space push
split_spaces String.[] = "" ∷ []
split_spaces (String.◌∷◌ c s) =
    let rest = split_spaces s in if is_space c then "" ∷ rest else push c rest

abbrev pub drop_empty : List String → List String
drop_empty [] = []
drop_empty (x ∷ xs) = let rest = drop_empty xs in if x == "" then rest else x ∷ rest

-- `strings.Fields`
unfoldable pub fields : String → List String
unfolding split_spaces
fields s = drop_empty (split_spaces s)
