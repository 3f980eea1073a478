-- ===== src/Base/Texts.antt =====
-- Texts: what the source uses of Go's `strings`. Every separator and prefix in the program is ASCII,
-- so that a walk by characters finds what Go's walk by bytes finds.
use Prim.Native.Nat.{ℕ, suc, ◌+◌}
use Prim.Native.Char.{Char, code}
use Prim.Native.String.{String}
use Prim.Native.String
use mathlib.Core.Path.{◌≡◌, refl, ap, ◌∙◌}
use mathlib.Core.Bool.{Bool, false, ◌||◌}
use mathlib.Core.List.{List, [], ◌∷◌, ◌++◌}
use mathlib.Core.Logic.{inl, inr}
use mathlib.Core.Option.{Option, none, some}
use native.Mathlib.Omega.{arith}
use text.Mathlib.Text.{◌==◌}
use text.Mathlib.TextEquality.{eq_iff, Char-path}
use text.Mathlib.TextLemmas as Laws
use engine_ci.Base.Tests.{eqb, if◌then◌else◌, Bool-cases}
use engine_ci.Base.Lists.{All}

-- `s + t`
infixr 65 ◌⧺◌
abbrev pub ◌⧺◌ : String → String → String
s ⧺ t = String.◌++◌ s t

pub nil-⧺ : (s : String) → String.[] ⧺ s ≡ s
nil-⧺ s = Laws.nil-append s

pub cons-⧺ : (c : Char) (s t : String) → String.◌∷◌ c s ⧺ t ≡ String.◌∷◌ c (s ⧺ t)
cons-⧺ c s t = Laws.cons-append c s t

pub ⧺_assoc : (s t u : String) → (s ⧺ t) ⧺ u ≡ s ⧺ (t ⧺ u)
⧺_assoc s t u = Laws.append_assoc s t u

pub ⧺_nil : (s : String) → s ⧺ String.[] ≡ s
⧺_nil s = Laws.append-nil s

pub ruleset append_laws = (nil-⧺, cons-⧺, ⧺_assoc, ⧺_nil)

-- `strings.ContainsRune(s, c)` for a character given by its code.
unfoldable pub has_char : ℕ → String → Bool
has_char c String.[] = false
has_char c (String.◌∷◌ x s) = eqb (code x) c || has_char c s

-- `strings.Count(s, c)` for a character given by its code.
unfoldable pub count_char : ℕ → String → ℕ
count_char c String.[] = 0
count_char c (String.◌∷◌ x s) =
    let rest = count_char c s in if eqb (code x) c then suc rest else rest

-- Membership as the source's `for … if x == y` loops compute it.
abbrev pub contains : List String → String → Bool
contains [] s = false
contains (x ∷ xs) s = x == s || contains xs s

pub contains-append :
    (xs ys : List String) (s : String) → contains (xs ++ ys) s ≡ (contains xs s || contains ys s)
contains-append [] ys s = refl
contains-append (x ∷ xs) ys s = ground (arith, contains-append xs ys s)

pub eq_comm : (s t : String) → (s == t) ≡ (t == s)
eq_comm s t = ground (arith, eq_iff s t, eq_iff t s)

-- `strings.Join(parts, sep)`
unfoldable pub join : String → List String → String
join sep [] = ""
join sep (p ∷ []) = p
join sep (p ∷ q ∷ ps) = p ⧺ sep ⧺ join sep (q ∷ ps)

unfoldable pub push : Char → List String → List String
push c [] = String.◌∷◌ c "" ∷ []
push c (p ∷ ps) = String.◌∷◌ c p ∷ ps

-- `strings.Split(s, sep)` at a separator of one character, given by its code.
unfoldable pub split : ℕ → String → List String
unfolding push
split sep String.[] = "" ∷ []
split sep (String.◌∷◌ c s) =
    let rest = split sep s in if eqb (code c) sep then "" ∷ rest else push c rest

-- `strings.TrimPrefix(s, prefix)`, and whether the prefix was there.
unfoldable pub strip_prefix? : String → String → Option String
strip_prefix? String.[] s = some s
strip_prefix? (String.◌∷◌ p ps) String.[] = none
strip_prefix? (String.◌∷◌ p ps) (String.◌∷◌ c s) =
    let rest = strip_prefix? ps s in if eqb (code p) (code c) then rest else none

-- A text without the separator is one piece.
pub split-no_sep : (sep : ℕ) (s : String) → has_char sep s ≡ false → split sep s ≡ s ∷ []
unfolding split has_char
split-no_sep sep String.[] h = refl
split-no_sep sep (String.◌∷◌ c s) h = ground (arith, split-no_sep sep s)

-- The first piece ends at the first separator.
pub split-append :
    (sep : ℕ) (c : Char) (s t : String)
    → has_char sep s ≡ false
    → code c ≡ sep
    → split sep (s ⧺ String.◌∷◌ c t) ≡ s ∷ split sep t
unfolding split has_char
split-append sep c String.[] t h e = simp nil-⧺ (ground arith)
split-append sep c (String.◌∷◌ x s) t h e = simp cons-⧺ (ground (arith, split-append sep c s t))

pub strip_prefix?-append : (p s : String) → strip_prefix? p (p ⧺ s) ≡ some s
unfolding strip_prefix?
strip_prefix?-append String.[] s = ap some (nil-⧺ s)
strip_prefix?-append (String.◌∷◌ c p) s = simp cons-⧺ (ground (arith, strip_prefix?-append p s))

-- There is always a first piece.
pub split-cons : (sep : ℕ) (s : String) → (p : String) × (ps : List String) × (split sep s ≡ p ∷ ps)
unfolding split push
split-cons sep String.[] = ("", [], refl)
split-cons sep (String.◌∷◌ c s) = elim (Bool-cases (eqb (code c) sep)) [
  | inl e ↦ ("", split sep s, rw e)
  | inr e ↦ let (p, ps, q) = split-cons sep s in (String.◌∷◌ c p, ps, rw (e, q))
]

pub join-push :
    (c : Char) (sep p : String) (ps : List String)
    → join sep (push c (p ∷ ps)) ≡ String.◌∷◌ c (join sep (p ∷ ps))
unfolding join push
join-push c sep p [] = refl
join-push c sep p (q ∷ ps) = cons-⧺ c p (sep ⧺ join sep (q ∷ ps))

-- Joined by the separator, the pieces are the text.
pub join-split :
    (sep : ℕ) (c : Char) (s : String) → code c ≡ sep → join (String.◌∷◌ c "") (split sep s) ≡ s
unfolding split join
join-split sep c String.[] e = refl
join-split sep c (String.◌∷◌ x s) e =
    let (p, ps, q) = split-cons sep s in
    let ih = join-split sep c s e in
    elim (Bool-cases (eqb (code x) sep)) [
      | inl h ↦
          rw (h, q)
            (simp (nil-⧺, cons-⧺)
              (ground (arith, Char-path x c (ground arith), ap (join (String.◌∷◌ c "")) q, ih)))
      | inr h ↦ rw (h, q, join-push) (ap (String.◌∷◌ x) (rw q at ih))
    ]

-- No piece holds the separator.
pub split-has_char : (sep : ℕ) (s : String) → All (λ p. has_char sep p ≡ false) (split sep s)
unfolding split has_char
split-has_char sep String.[] = (refl, tt)
split-has_char sep (String.◌∷◌ c s) =
    let (p, ps, q) = split-cons sep s in
    let ih = rw q at (split-has_char sep s) in
    elim (Bool-cases (eqb (code c) sep)) [
      | inl h ↦ rw (h, q) (refl, ih)
      | inr h ↦ rw (h, q) (ground (arith, ih.0), ih.1)
    ]

-- A text with a character in it is not empty.
pub middle-ne-nil : (s t : String) (c : Char) → (s ⧺ String.◌∷◌ c t == "") ≡ false
middle-ne-nil s t c = elim (Bool-cases (s ⧺ String.◌∷◌ c t == "")) [
  | inl e ↦ absurd (Laws.append-ne-nil_of_right_ne-nil s (Laws.cons-ne-nil c t) ((eq_iff _ _).0 e))
  | inr e ↦ e
]

pub single-⧺ : (c : Char) (s : String) → String.◌∷◌ c "" ⧺ s ≡ String.◌∷◌ c s
single-⧺ c s = cons-⧺ c "" s ∙ ap (String.◌∷◌ c) (nil-⧺ s)

-- How often a text stands in a list.
unfoldable pub count : String → List String → ℕ
count a [] = 0
count a (x ∷ xs) = let rest = count a xs in if x == a then suc rest else rest

pub count-append : (a : String) (xs ys : List String) → count a (xs ++ ys) ≡ count a xs + count a ys
unfolding count
count-append a [] ys = omega arith
count-append a (x ∷ xs) ys = ground (arith, count-append a xs ys)

-- Two lists hold the same texts, each as often.
abbrev pub SameTexts : List String → List String → Type 0
SameTexts xs ys = (a : String) → count a xs ≡ count a ys
