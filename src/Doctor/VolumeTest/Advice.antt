-- ===== src/Doctor/VolumeTest/Advice.antt =====
-- What is suggested for the errors of runVolumeTest.
use engine_ci.Base.{
  String, ◌⧺◌, true, ◌≡◌, refl, ap, ◌∙◌, has_text, has_prefix, strip_prefix?-append, ⧺_assoc, arith,
}
use engine_ci.Doctor.VolumeRun.{get_suggestions}

has_text-prefix : (s p : String) → has_prefix s p ≡ true → has_text s p ≡ true
unfolding has_text
has_text-prefix String.[] p h = h
has_text-prefix (String.◌∷◌ c s) p h = rw h refl

has_prefix-append : (p s : String) → has_prefix (p ⧺ s) p ≡ true
unfolding has_prefix
has_prefix-append p s = ground (arith, strip_prefix?-append p s)

has_text-append : (p s : String) → has_text (p ⧺ s) p ≡ true
has_text-append p s = has_text-prefix (p ⧺ s) p (has_prefix-append p s)

-- Whatever goes wrong with the pull, the advice is that for an image that is missing: the branch for
-- a failed pull is never taken.
pub get_suggestions-pull :
    (e : String)
    → get_suggestions ("image not found and pull failed: " ⧺ e) ≡ get_suggestions "image not found"
unfolding get_suggestions
get_suggestions-pull e =
    let found =
      ap (λ m. has_text m "image not found") (⧺_assoc "image not found" " and pull failed: " e)
      ∙ has_text-append "image not found" (" and pull failed: " ⧺ e) in
    ground (arith, found)
