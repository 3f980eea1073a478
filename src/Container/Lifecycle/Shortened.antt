-- ===== src/Container/Lifecycle/Shortened.antt =====
-- Texts cut short: `safeShort` against Go's slice `s[:n]`, which panics on a shorter text.
use engine_ci.Base.{ℕ, zero, suc, String, none, some, ◌≡◌, refl, ◌⊎◌, inl, inr}
use engine_ci.Container.Lifecycle.{slice_front, safe_short}

-- `safeShort` answers the slice where there is one, and a text that is too short for it as it is.
pub safe_short_lem :
    (s : String) (n : ℕ)
    → (slice_front n s ≡ some (safe_short s n)) ⊎ ((slice_front n s ≡ none) × (safe_short s n ≡ s))
unfolding slice_front safe_short
safe_short_lem String.[] zero = inl refl
safe_short_lem String.[] (suc n) = inr (refl, refl)
safe_short_lem (String.◌∷◌ c s) zero = inl refl
safe_short_lem (String.◌∷◌ c s) (suc n) = elim (safe_short_lem s n) [
  | inl e ↦ inl (rw e refl)
  | inr p ↦ inr ((rw p.0 refl), (rw p.1 refl))
]
