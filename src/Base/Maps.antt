-- ===== src/Base/Maps.antt =====
-- Go's `map[string]V` as an association list. Where the program ranges over a map, the order does not
-- matter, or the keys are sorted, or a comment says that Go leaves the order open.
use Prim.Native.String.{String}
use mathlib.Core.Path.{◌≡◌}
use mathlib.Core.List.{List, [], ◌∷◌}
use mathlib.Core.Option.{Option, none, some}
use native.Mathlib.Omega.{arith}
use text.Mathlib.Text.{◌==◌}
use text.Mathlib.TextEquality.{eq_iff}
use engine_ci.Base.Tests.{if◌then◌else◌}

abbrev pub Dict {ℓ} : Type ℓ → Type ℓ
Dict V = List (String × V)

module _ {ℓ} {V : Type ℓ} where
  -- `v, ok := m[k]`
  unfoldable pub lookup : String → Dict V → Option V
  lookup key [] = none
  lookup key (entry ∷ dict) =
      let behind = lookup key dict in if entry.0 == key then some entry.1 else behind

  -- `delete(m, k)`
  unfoldable pub erase : String → Dict V → Dict V
  erase key [] = []
  erase key (entry ∷ dict) =
      let behind = erase key dict in if entry.0 == key then behind else entry ∷ behind

  -- `m[k] = v`: no second entry for the key stays behind.
  unfoldable pub insert : String → V → Dict V → Dict V
  unfolding erase
  insert key value dict = (key, value) ∷ erase key dict

  unfoldable pub keys : Dict V → List String
  keys [] = []
  keys (entry ∷ dict) = entry.0 ∷ keys dict

  pub lookup-erase :
      (key other : String) (dict : Dict V)
      → lookup other (erase key dict) ≡ (if key == other then none else lookup other dict)
  unfolding lookup erase
  lookup-erase key other [] = ground arith
  lookup-erase key other (entry ∷ dict) = ground (
    arith,
    lookup-erase key other dict,
    eq_iff entry.0 other,
    eq_iff entry.0 key,
    eq_iff key other,
  )

  pub lookup-insert :
      (key other : String) (value : V) (dict : Dict V)
      → lookup other (insert key value dict)
        ≡ (if key == other then some value else lookup other dict)
  unfolding lookup insert
  lookup-insert key other value dict = ground (arith, lookup-erase key other dict)

pub ruleset dict_laws = (lookup-insert, lookup-erase)
