-- ===== src/Container/Build/Properties.antt =====
-- The accessors of the `Custom` properties.
use engine_ci.Base.{
  String, Bool, Option, none, some, List, [], ◌∷◌, ◌==◌, ◌≡◌, arith, lookup, join, ◌↔◌,
}
use engine_ci.Container.Build.{
  Custom, custom_string, custom_strings, custom_bool, build_custom_string,
}

-- What the four accessors answer for a key with one value, or without an entry.
pub record Reads (c : Custom) (key : String) (v : Option String) (d : Bool) : Type 0 where
  pub text : custom_string c key ≡ (elim v [ none ↦ "" | some x ↦ x ])
  pub texts : custom_strings c key ≡ (elim v [ none ↦ [] | some x ↦ x ∷ [] ])
  pub first : build_custom_string c key ≡ (elim v [ none ↦ "" | some x ↦ x ])
  pub flag : custom_bool c key d ≡ some (elim v [ none ↦ d | some x ↦ x == "true" ])

abbrev values : Option String → Option (List String)
values none = none
values (some x) = some (x ∷ [])

-- The four accessors of a property agree on a key that holds one value; a key that is not there reads as the
-- empty text, no values, and the caller's default.
pub custom-Reads :
    (c : Custom) (key : String) (v : Option String) (d : Bool)
    → lookup key c ≡ values v
    → Reads c key v d
unfolding custom_string custom_strings custom_bool build_custom_string join
custom-Reads c key none d h = record {
  text = rw (h, custom_string);
  texts = rw (h, custom_strings);
  first = rw (h, build_custom_string);
  flag = rw (h, custom_bool);
}
custom-Reads c key (some x) d h = record {
  text = rw (h, custom_string);
  texts = rw (h, custom_strings);
  first = rw (h, build_custom_string);
  flag = rw (h, custom_bool);
}

-- `Bool` panics exactly on a key whose list of values is empty.
pub custom_bool-panics :
    (c : Custom) (key : String) (d : Bool) → (custom_bool c key d ≡ none) ↔ (lookup key c ≡ some [])
unfolding custom_bool
custom_bool-panics c key d = (λ h. ground arith, λ h. rw (h, custom_bool))
