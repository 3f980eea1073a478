-- ===== src/Engine/Targets/Resolve.antt =====
-- What a target's name stands for.
use engine_ci.Base.{
  String, Option, none, some, List, [], ◌∷◌, ◌==◌, ◌≡◌, arith, if◌then◌else◌, Dict, lookup,
  lookup-insert, eq_iff,
}
use engine_ci.Pipeline.Step.{Context}
use engine_ci.Pipeline.Run.{BuildResult, continue}
use engine_ci.Engine.Targets.{
  Action, run_step, run_all, github_actions, docker_load, docker_save, list_targets, add_target,
  fits, register, register_fixed, targets_of, run_target, with_error,
}

abbrev or_else {ℓ} : {A : Type ℓ} → Option A → Option A → Option A
or_else none b = b
or_else (some a) b = some a

lookup-add_target :
    (k j : String) (act : Action) (m : Dict Action)
    → lookup j (add_target k act m) ≡ or_else (lookup j m) (if k == j then some act else none)
unfolding add_target
lookup-add_target k j act m = ground (arith, lookup-insert k j act m, eq_iff k j)

-- The name of the first step that the build's type fits and that has the alias.
abbrev pub first_alias : String → String → List Context → Option String
first_alias type alias [] = none
first_alias type alias (c ∷ cs) =
    let rest = first_alias type alias cs in
    if fits type c then (if c.step.alias == alias then some c.step.name else rest) else rest

abbrev pub fixed : String → Option Action
fixed target =
    if "all" == target
    then some run_all
    else if "github_actions" == target
    then some github_actions
    else if "docker_load" == target
    then some docker_load
    else if "docker_save" == target
    then some docker_save
    else if "list" == target
    then some list_targets
    else none

abbrev pub resolve : String → String → List Context → Option Action
resolve type target steps = elim (first_alias type target steps) [
  | some name ↦ some (run_step name)
  | none ↦ fixed target
]

abbrev as_run : Option String → Option Action
as_run none = none
as_run (some name) = some (run_step name)

lookup-register :
    (type target : String) (cs : List Context) (m : Dict Action)
    → lookup target (register type cs m)
      ≡ or_else (lookup target m) (as_run (first_alias type target cs))
unfolding register
lookup-register type target [] m = ground arith
lookup-register type target (c ∷ cs) m = ground (
  arith,
  lookup-register type target cs m,
  lookup-register type target cs (add_target c.step.alias (run_step c.step.name) m),
  lookup-add_target c.step.alias target (run_step c.step.name) m,
)

lookup-register_fixed :
    (target : String) (m : Dict Action)
    → lookup target (register_fixed m) ≡ or_else (lookup target m) (fixed target)
unfolding register_fixed
lookup-register_fixed target m = simp lookup-add_target (ground arith)

-- The action of a target: to run the steps by the name that the first step with that alias has among those
-- of the build's type; only if there is none, that of one of the five fixed targets, which a step's alias
-- thus overrides. Any other target performs nothing and reports no error.
pub run_target_lem :
    (perform : Action → BuildResult) (type target : String) (steps : List Context)
    → run_target perform (targets_of type steps) target ≡ (elim (resolve type target steps) [
      | none ↦ record { ids = []; loop = continue; error = none }
      | some act ↦ with_error (perform act)
    ])
unfolding run_target targets_of lookup
run_target_lem perform type target steps =
    let found = lookup-register_fixed target (register type steps []) in
    let own = lookup-register type target steps [] in ground (arith, found, own)
