-- ===== src/Container/Action.antt =====
-- pkg/container/container.go: what an operation of a Container works on. An operation is a function of
-- the container's own fields, the state of the runtime and the lines logged so far; it returns a value
-- or an error, ends the process, or panics. Contexts and their timeouts are left out.
use engine_ci.Base.{String, Bool, true, Option, none, some, List, [], ◌∷◌, ◌++◌, ℕ, ℤ}
use engine_ci.Cri.Manager.{Manager, Result, ok, err, crash, ContainerConfig}
use engine_ci.Container.Build.{Build}
use engine_ci.Logger.Message.{LogMessage, copy}
use engine_ci.Utils.Environment.{World}

-- What an operation ends with.
pub data Outcome {ℓ} (A : Type ℓ) : Type ℓ where
  returned : A → Outcome A
  failed : String → Outcome A
  exited : ℕ → Outcome A
  panicked : Outcome A

-- `Container`; its secrets, environment and verbosity are those of its build.
pub record Container : Type 0 where
  pub id : String
  pub name : String
  pub image : String
  pub prefix : String
  pub opts : ContainerConfig
  pub build : Build
  pub stream_logs : Bool

-- `streams` lists the containers whose logs a goroutine streams, with their prefixes.
pub record State (W : Type 0) : Type 0 where
  pub container : Container
  pub runtime : W
  pub log : List LogMessage
  pub streams : List (String × String)

-- `registry.AuthConfig`
pub record AuthConfig : Type 0 where
  pub username : String
  pub password : String
  pub server_address : String

-- What is outside of the package: the runtime, the environment, Go's platform constants, the base64 of
-- the JSON of credentials, whether a text holds a domain name, and `%d`.
pub record Outside (W : Type 0) : Type 0 where
  pub manager : Manager W
  pub world : World
  pub go_os : String
  pub go_arch : String
  pub encode_auth : AuthConfig → String
  pub contains_domain : String → Bool
  pub format_int : ℤ → String

abbrev pub Action : Type 0 → Type 0 → Type 0
Action W A = State W → Outcome A × State W

infixl 5 ◌>>=◌ ◌>>◌
abbrev pub ◌>>=◌ : {W A B : Type 0} → Action W A → (A → Action W B) → Action W B
◌>>=◌ m f s =
    let (r, s') = m s in
    elim r [
      | returned a ↦ f a s'
      | failed e ↦ (failed e, s')
      | exited n ↦ (exited n, s')
      | panicked ↦ (panicked, s')
    ]

abbrev pub ◌>>◌ : {W A B : Type 0} → Action W A → Action W B → Action W B
m >> k = m >>= λ _. k

module _ {W A : Type 0} where
  abbrev pub pure : A → Action W A
  pure a s = (returned a, s)

  abbrev pub fail : String → Action W A
  fail e s = (failed e, s)

  -- `os.Exit(1)`
  abbrev pub exit : Action W A
  exit s = (exited 1, s)

  abbrev pub panic : Action W A
  panic s = (panicked, s)

  abbrev pub gets : (State W → A) → Action W A
  gets f s = (returned (f s), s)

  abbrev pub or_panic : Option A → Action W A
  or_panic none = panic
  or_panic (some a) = pure a

  abbrev pub or_exit : Option A → Action W A
  or_exit none = exit
  or_exit (some a) = pure a

  abbrev pub with_runtime : Result A × W → State W → Outcome (Result A) × State W
  with_runtime (ok a, w) s = (returned (ok a), record s { runtime = w })
  with_runtime (err e, w) s = (returned (err e), record s { runtime = w })
  with_runtime (crash, w) s = (panicked, record s { runtime = w })

  -- A call of the runtime, with its error as a value.
  abbrev pub call : (W → Result A × W) → Action W (Result A)
  call f s = with_runtime (f s.runtime) s

  -- `if err != nil { return err }`
  abbrev pub or_fail : Result A → Action W A
  or_fail (ok a) = pure a
  or_fail (err e) = fail e
  or_fail crash = panic

  -- `if err != nil { os.Exit(1) }`
  abbrev pub or_end : Result A → Action W A
  or_end (ok a) = pure a
  or_end (err e) = exit
  or_end crash = panic

  -- The error of an operation as a value.
  abbrev pub attempt : Action W A → Action W (Result A)
  attempt m s =
      let (r, s') = m s in
      elim r [
        | returned a ↦ (returned (ok a), s')
        | failed e ↦ (returned (err e), s')
        | exited n ↦ (exited n, s')
        | panicked ↦ (panicked, s')
      ]

module _ {W : Type 0} where
  abbrev pub modify : (Container → Container) → Action W (Unit {0})
  modify f s = (returned tt, record s { container = f s.container })

  abbrev pub append_log : List LogMessage → Action W (Unit {0})
  append_log ms s = (returned tt, record s { log = s.log ++ ms })

  abbrev pub log_done : String → String → Bool → Action W (Unit {0})
  log_done routine message failed_ =
      append_log (
        record { routine_id = routine; message = message; is_done = true; is_failed = failed_ }
        ∷ [])

  abbrev error_or_done : Option String → Action W (Unit {0})
  error_or_done none = pure tt
  error_or_done (some e) = fail e

  -- `logger.GetLogAggregator().Copy(out)`
  abbrev pub copy_out : String → Action W (Unit {0})
  copy_out text = append_log (copy text).0 >> error_or_done (copy text).1
