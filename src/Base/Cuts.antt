-- ===== src/Base/Cuts.antt =====
-- Texts cut at one separator, and what they begin with or hold.
use Prim.Native.Nat.{ℕ}
use Prim.Native.Char.{Char, code}
use Prim.Native.String.{String}
use mathlib.Core.Path.{◌≡◌, refl, ap}
use mathlib.Core.Bool.{Bool, true, false, ◌||◌}
use mathlib.Core.Logic.{inl, inr}
use mathlib.Core.Option.{Option, none, some}
use native.Mathlib.Omega.{arith}
use text.Mathlib.TextEquality.{Char-path}
use engine_ci.Base.Tests.{eqb, if◌then◌else◌, Bool-cases, Option-cases}
use engine_ci.Base.Texts.{◌⧺◌, nil-⧺, cons-⧺}
use engine_ci.Base.Texts.{has_char, strip_prefix?}

-- `strings.Cut(s, sep)` at a separator of one character.
unfoldable pub cut : ℕ → String → Option (String × String)
cut sep String.[] = none
cut sep (String.◌∷◌ c s) =
    let rest = cut sep s in
    if eqb (code c) sep
    then some ("", s)
    else elim rest [ none ↦ none | some (a, b) ↦ some (String.◌∷◌ c a, b) ]

pub cut-append :
    (sep : ℕ) (c : Char) (s t : String)
    → has_char sep s ≡ false
    → code c ≡ sep
    → cut sep (s ⧺ String.◌∷◌ c t) ≡ some (s, t)
unfolding cut has_char
cut-append sep c String.[] t h e = simp nil-⧺ (ground arith)
cut-append sep c (String.◌∷◌ x s) t h e = simp cons-⧺ (ground (arith, cut-append sep c s t))

-- What was cut apart is the text up to its first separator, and the text behind that.
pub cut-some :
    (sep : ℕ) (c : Char) (s a b : String)
    → code c ≡ sep
    → cut sep s ≡ some (a, b)
    → (s ≡ a ⧺ String.◌∷◌ c b) × (has_char sep a ≡ false)
unfolding cut has_char
cut-some sep c String.[] a b e h = cc
cut-some sep c (String.◌∷◌ x s) a b e h = elim (Bool-cases (eqb (code x) sep)) [
  | inl q ↦
      let same = Char-path x c (ground arith) in
      let first : a ≡ "" = ground arith in
      let last : b ≡ s = ground arith in
      rw (first, last, nil-⧺) (ap (λ k. String.◌∷◌ k s) same, refl)
  | inr q ↦ elim (Option-cases (cut sep s)) [
    | inl r ↦ absurd (ground arith)
    | inr ((a', b'), r) ↦
        let first : a ≡ String.◌∷◌ x a' = ground arith in
        let last : b ≡ b' = ground arith in
        let ih = cut-some sep c s a' b' e r in
        rw (first, last, cons-⧺) (ap (String.◌∷◌ x) ih.0, ground (arith, ih.1))
  ]
]

-- The text before and behind the last separator: `strings.LastIndex` and two slices.
unfoldable pub cut_last : ℕ → String → Option (String × String)
cut_last sep String.[] = none
cut_last sep (String.◌∷◌ c s) =
    let rest = cut_last sep s in
    elim rest [
      | some (a, b) ↦ some (String.◌∷◌ c a, b)
      | none ↦ if eqb (code c) sep then some ("", s) else none
    ]

pub cut_last-none : (sep : ℕ) (s : String) → has_char sep s ≡ false → cut_last sep s ≡ none
unfolding cut_last has_char
cut_last-none sep String.[] h = refl
cut_last-none sep (String.◌∷◌ c s) h = ground (arith, cut_last-none sep s)

pub cut_last-append :
    (sep : ℕ) (c : Char) (s t : String)
    → has_char sep t ≡ false
    → code c ≡ sep
    → cut_last sep (s ⧺ String.◌∷◌ c t) ≡ some (s, t)
unfolding cut_last
cut_last-append sep c String.[] t h e = simp nil-⧺ (ground (arith, cut_last-none sep t h))
cut_last-append sep c (String.◌∷◌ x s) t h e =
    simp cons-⧺ (ground (arith, cut_last-append sep c s t h e))

-- `strings.HasPrefix(s, p)`
unfoldable pub has_prefix : String → String → Bool
unfolding strip_prefix?
has_prefix s p = elim (strip_prefix? p s) [ none ↦ false | some r ↦ true ]

-- `strings.Contains(s, p)`
unfoldable pub has_text : String → String → Bool
unfolding has_prefix
has_text String.[] p = has_prefix "" p
has_text (String.◌∷◌ c s) p = has_prefix (String.◌∷◌ c s) p || has_text s p
