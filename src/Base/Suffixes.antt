-- ===== src/Base/Suffixes.antt =====
-- Texts and what they end with.
use Prim.Native.Nat.{ℕ, suc, ◌+◌}
use Prim.Native.Char.{Char, code}
use Prim.Native.String.{String}
use mathlib.Core.Path.{◌≡◌, refl, ap, ◌∙◌}
use mathlib.Core.Bool.{false}
use mathlib.Core.List.{◌++◌}
use mathlib.Core.Logic.{inl, inr}
use mathlib.Core.Option.{Option, none, some}
use native.Mathlib.Omega.{arith}
use text.Mathlib.Text.{◌==◌}
use text.Mathlib.TextEquality.{eq_iff}
use text.Mathlib.TextPositions.{eq_refl}
use engine_ci.Base.Tests.{if◌then◌else◌, Bool-cases, eqb}
use engine_ci.Base.Texts.{◌⧺◌, nil-⧺, cons-⧺, split, split-cons}

-- The text before a suffix, if the suffix is there.
unfoldable pub strip_suffix? : String → String → Option String
strip_suffix? p String.[] = if String.[] == p then some "" else none
strip_suffix? p (String.◌∷◌ c s) =
    let rest = strip_suffix? p s in
    if String.◌∷◌ c s == p
    then some ""
    else elim rest [ none ↦ none | some r ↦ some (String.◌∷◌ c r) ]

-- `strings.TrimSuffix(s, suffix)` and `strings.TrimPrefix(s, prefix)` keep a text that has none.
abbrev pub or_same : String → Option String → String
or_same s none = s
or_same s (some r) = r

unfoldable pub trim_suffix : String → String → String
unfolding strip_suffix?
trim_suffix s p = or_same s (strip_suffix? p s)

abbrev text_length : String → ℕ
text_length String.[] = 0
text_length (String.◌∷◌ c s) = suc (text_length s)

text_length-append : (s t : String) → text_length (s ⧺ t) ≡ text_length s + text_length t
text_length-append String.[] t = ap text_length (nil-⧺ t) ∙ omega arith
text_length-append (String.◌∷◌ c s) t =
    ap text_length (cons-⧺ c s t) ∙ omega (arith, text_length-append s t)

longer : (c : Char) (s p : String) → (String.◌∷◌ c (s ⧺ p) == p) ≡ false
longer c s p = elim (Bool-cases (String.◌∷◌ c (s ⧺ p) == p)) [
  | inl e ↦
      let same = ap text_length ((eq_iff (String.◌∷◌ c (s ⧺ p)) p).0 e) in
      absurd (omega (arith, same, text_length-append s p))
  | inr e ↦ e
]

strip_suffix?-self : (p : String) → strip_suffix? p p ≡ some ""
unfolding strip_suffix?
strip_suffix?-self String.[] = refl
strip_suffix?-self (String.◌∷◌ c s) = rw (eq_refl (String.◌∷◌ c s)) refl

pub strip_suffix?-append : (s p : String) → strip_suffix? p (s ⧺ p) ≡ some s
unfolding strip_suffix?
strip_suffix?-append String.[] p = ap (strip_suffix? p) (nil-⧺ p) ∙ strip_suffix?-self p
strip_suffix?-append (String.◌∷◌ c s) p =
    ap (strip_suffix? p) (cons-⧺ c s p) ∙ rw (longer c s p, strip_suffix?-append s p) refl

pub trim_suffix-append : (s p : String) → trim_suffix (s ⧺ p) p ≡ s
unfolding trim_suffix
trim_suffix-append s p = ap (or_same (s ⧺ p)) (strip_suffix?-append s p)

-- A separator splits a text into the pieces before it and the pieces behind it.
pub split-middle :
    (sep : ℕ) (c : Char) (s t : String)
    → code c ≡ sep
    → split sep (s ⧺ String.◌∷◌ c t) ≡ split sep s ++ split sep t
unfolding split
split-middle sep c String.[] t e = ap (split sep) (nil-⧺ (String.◌∷◌ c t)) ∙ ground arith
split-middle sep c (String.◌∷◌ x s) t e =
    let (p, ps, q) = split-cons sep s in
    ap (split sep) (cons-⧺ x s (String.◌∷◌ c t)) ∙ elim (Bool-cases (eqb (code x) sep)) [
      | inl h ↦ rw (h, split-middle sep c s t e) refl
      | inr h ↦ rw (h, split-middle sep c s t e, q) refl
    ]
