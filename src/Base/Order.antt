-- ===== src/Base/Order.antt =====
-- `<` on texts, which Go decides by bytes: for UTF-8 that is the order of the characters' codes.
use Prim.Native.Nat.compare as compare_ℕ
use Prim.Native.Nat.{ℕ, zero, suc, Ordering, compare as compare_ℕ}
use Prim.Native.Char.{code}
use Prim.Native.String.{String, then}
use Prim.Native.String
use Prim.Native.String.compare
use mathlib.Core.Path.{◌≡◌, refl, sym, ap, ◌∙◌}
use mathlib.Core.Bool.{Bool, true, false}
use text.Mathlib.Text.{is_lt}

abbrev pub text_lt : String → String → Bool
text_lt s t = is_lt (String.compare s t)

-- The opposite answer of a comparison.
abbrev flip : Ordering → Ordering
flip Ordering.lt = Ordering.gt
flip Ordering.eq = Ordering.eq
flip Ordering.gt = Ordering.lt

flip-then : (o p : Ordering) → then (flip o) (flip p) ≡ flip (then o p)
flip-then Ordering.lt p = refl
flip-then Ordering.eq p = refl
flip-then Ordering.gt p = refl

flip-compare_ℕ : (m n : ℕ) → compare_ℕ n m ≡ flip (compare_ℕ m n)
flip-compare_ℕ zero zero = compare_ℕ.zero-zero ∙ sym (ap flip compare_ℕ.zero-zero)
flip-compare_ℕ zero (suc n) = compare_ℕ.suc-zero n ∙ sym (ap flip (compare_ℕ.zero-suc n))
flip-compare_ℕ (suc m) zero = compare_ℕ.zero-suc m ∙ sym (ap flip (compare_ℕ.suc-zero m))
flip-compare_ℕ (suc m) (suc n) =
    compare_ℕ.suc-suc n m ∙ flip-compare_ℕ m n ∙ sym (ap flip (compare_ℕ.suc-suc m n))

flip-compare : (s t : String) → String.compare t s ≡ flip (String.compare s t)
flip-compare String.[] String.[] = compare.nil-nil ∙ sym (ap flip compare.nil-nil)
flip-compare String.[] (String.◌∷◌ d t) =
    compare.cons-nil d t ∙ sym (ap flip (compare.nil-cons d t))
flip-compare (String.◌∷◌ c s) String.[] =
    compare.nil-cons c s ∙ sym (ap flip (compare.cons-nil c s))
flip-compare (String.◌∷◌ c s) (String.◌∷◌ d t) =
    compare.cons-cons d c t s
    ∙ ap (λ o. then o (String.compare t s)) (flip-compare_ℕ (code c) (code d))
    ∙ ap (then (flip (compare_ℕ (code c) (code d)))) (flip-compare s t)
    ∙ flip-then (compare_ℕ (code c) (code d)) (String.compare s t)
    ∙ sym (ap flip (compare.cons-cons c d s t))

not_both : (o : Ordering) → is_lt o ≡ true → is_lt (flip o) ≡ false
not_both Ordering.lt h = refl
not_both Ordering.eq h = refl
not_both Ordering.gt h = sym h

-- No two texts are each before the other.
pub text_lt-asym : (s t : String) → text_lt s t ≡ true → text_lt t s ≡ false
text_lt-asym s t h = ap is_lt (flip-compare s t) ∙ not_both (String.compare s t) h
