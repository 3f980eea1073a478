-- ===== src/Container/Secret.antt =====
-- pkg/container/secret.go: the secrets of a build. A value is resolved by utils.GetValue, once; as a
-- function of the world at that time it needs no memory. `none` is the end of the process in GetValue.
use engine_ci.Base.{
  String, ◌⧺◌, Bool, true, false, Option, none, some, List, [], ◌∷◌, ◌==◌, ◌≡◌, refl, arith,
  if◌then◌else◌, All, Dict, lookup, insert,
}
use engine_ci.Utils.Environment.{World, get_value_of}

-- `BuildSecret`, with the text of its EnvValue.
pub record BuildSecret : Type 0 where
  pub key : String
  pub value : String

-- `BuildSecrets.Get`; nil is none.
unfoldable pub get_secret : String → Dict BuildSecret → Option BuildSecret
get_secret key secrets = lookup key secrets

-- `BuildSecrets.Add` of a key and a value.
unfoldable pub add_secret : String → String → Dict BuildSecret → Dict BuildSecret
add_secret key value secrets = insert key (record { key = key; value = value }) secrets

-- `EnvValue.Get`
unfoldable pub resolved : World → BuildSecret → Option String
resolved w s = get_value_of w s.value "build"

-- The secrets whose value is empty, as `Available` lists them; in Go their order is open.
unfoldable pub required : World → Dict BuildSecret → Option (List String)
unfolding resolved
required w [] = some []
required w ((k, s) ∷ secrets) =
    let rest = required w secrets in
    elim (resolved w s) [
      | none ↦ none
      | some v ↦ elim rest [
        | none ↦ none
        | some names ↦ some (if v == "" then (s.key ⧺ "=" ⧺ s.value) ∷ names else names)
      ]
    ]

abbrev is_nil : List String → Bool
is_nil [] = true
is_nil (x ∷ xs) = false

-- `Available`: without any secret it answers no, and lists nothing.
unfoldable pub available : World → Dict BuildSecret → Option (Bool × List String)
available w [] = some (false, [])
available w (s ∷ secrets) = elim (required w (s ∷ secrets)) [
  | none ↦ none
  | some names ↦ some (is_nil names, names)
]

-- A resolved value that is not empty.
abbrev pub IsGiven : World → String × BuildSecret → Type 0
IsGiven w entry = (v : String) × (resolved w entry.1 ≡ some v) × ((v == "") ≡ false)

required-nil :
    (w : World) (secrets : Dict BuildSecret)
    → All (IsGiven w) secrets
    → required w secrets ≡ some []
unfolding required
required-nil w [] h = refl
required-nil w ((k, s) ∷ secrets) h = ground (arith, h.0.1, h.0.2, required-nil w secrets h.1)

-- Secrets of which there is at least one, and which all resolve to a text that is not empty, are
-- available, and none is listed as missing.
pub available-IsGiven :
    (w : World) (s : String × BuildSecret) (secrets : Dict BuildSecret)
    → All (IsGiven w) (s ∷ secrets)
    → available w (s ∷ secrets) ≡ some (true, [])
unfolding available
available-IsGiven w s secrets h = rw (required-nil w (s ∷ secrets) h, available) refl
