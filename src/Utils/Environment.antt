-- ===== src/Utils/Environment.antt =====
-- pkg/utils/environment.go. Parameters: the process environment, in which a name that is not set reads
-- as the empty text, and the output of a shell command, none if it fails. The value of a text may come
-- from the environment, from a command or from the store of pkg/kv; `os.Exit` is none.
use engine_ci.Base.{
  String, ◌⧺◌, not, Option, none, some, List, [], ◌∷◌, ◌==◌, if◌then◌else◌, Dict, insert,
  strip_prefix?, trim_suffix,
}
use engine_ci.Kv.Store.{get_val}

pub record World : Type 0 where
  pub env : String → String
  pub output : String → Option String
  pub store : Dict String

-- `Getenv`
unfoldable pub getenv : World → String → String → String
getenv w key env_type =
    if env_type == "local"
    then w.env (key ⧺ "_LOCAL")
    else if env_type == "build"
    then w.env key
    else if env_type == "production"
    then w.env key
    else ""

-- `GetEnvWithDefault`, with a default that is not nil.
unfoldable pub get_env_with_default : World → String → String → String
get_env_with_default w key default_ = if w.env key == "" then default_ else w.env key

-- `GetEnvs`
unfoldable pub get_envs : World → List String → String → String
unfolding getenv
get_envs w [] env_type = ""
get_envs w (k ∷ ks) env_type =
    let rest = get_envs w ks env_type in
    let v = getenv w k env_type in if not (v == "") then v else rest

-- `RunCommand`
unfoldable pub run_command : World → String → Option String
run_command w cmd = elim (w.output cmd) [ none ↦ none | some out ↦ some (trim_suffix out "\n") ]

-- The branch of GetValue for `mem:`; for a missing key it reads the environment as well, but drops
-- what it finds.
mem_value : World → String → String
unfolding get_val
mem_value w key = elim (get_val key w.store) [ none ↦ "" | some v ↦ v ]

-- `GetValue`
unfoldable pub get_value_of : World → String → String → Option String
unfolding mem_value run_command getenv
get_value_of w value env_type = elim (strip_prefix? "env:" value) [
  | some key ↦ some (getenv w key env_type)
  | none ↦ elim (strip_prefix? "cmd:" value) [
    | some cmd ↦ run_command w cmd
    | none ↦ elim (strip_prefix? "mem:" value) [
      | some key ↦ some (mem_value w key)
      | none ↦ some value
    ]
  ]
]

-- `GetEnv`
unfoldable pub get_env : World → String → String → Option String
get_env w key env_type = get_value_of w (getenv w key env_type) env_type

-- The loop of `GetAllEnvs`, from the names that are still to be read.
unfoldable pub get_all_envs : World → List String → String → Option (Dict String)
unfolding get_env
get_all_envs w [] env_type = some []
get_all_envs w (k ∷ ks) env_type =
    let rest = get_all_envs w ks env_type in
    elim (get_env w k env_type) [
      | none ↦ none
      | some v ↦ elim rest [
        | none ↦ none
        | some envs ↦ some (if not (v == "") then insert k v envs else envs)
      ]
    ]
