-- ===== src/Container/Lifecycle.antt =====
-- pkg/container/container.go: Create, Start, Stop, Wait and the operations that hand a call on. A text
-- is cut by characters, where Go cuts it by bytes: identifiers and tags are ASCII.
pub mod Shortened
pub mod Created
pub mod Waited
pub mod Copied
use engine_ci.Base.{
  ℕ, zero, suc, String, ◌⧺◌, Bool, true, false, not, Option, none, some, List, [], ◌∷◌, ◌++◌, ◌==◌,
  ℤ, pos, negsuc, if◌then◌else◌, eqb, lookup, contains, split, has_char,
}
use engine_ci.Cri.Platform.{get_platform_spec, get_platforms}
use engine_ci.Cri.Manager.{
  Manager, Result, ok, err, crash, Listed, ContainerConfig, CommitOptions, PlatformChoice,
  no_platform, auto_platform, this_platform,
}
use engine_ci.Cri.Image.{parse_docker_image}
use engine_ci.Container.Build.{Build, Credentials}
use engine_ci.Utils.Environment.{get_value_of}
use engine_ci.Container.Action.{
  Container, State, Outside, Outcome, returned, AuthConfig, Action, ◌>>=◌, ◌>>◌, pure, fail, exit,
  panic, gets, or_panic, or_exit, call, or_fail, or_end, attempt, modify, log_done, copy_out,
}

-- The first n characters of a text, or none if it is shorter: `s[:n]`.
unfoldable pub slice_front : ℕ → String → Option String
slice_front zero s = some ""
slice_front (suc n) String.[] = none
slice_front (suc n) (String.◌∷◌ c s) = elim (slice_front n s) [
  | none ↦ none
  | some t ↦ some (String.◌∷◌ c t)
]

-- `safeShort`
unfoldable pub safe_short : String → ℕ → String
safe_short String.[] end = ""
safe_short (String.◌∷◌ c s) zero = ""
safe_short (String.◌∷◌ c s) (suc end) = String.◌∷◌ c (safe_short s end)

-- `ParseImageTag`, on the pieces between the colons.
abbrev pub first_two : List String → String × String
first_two [] = ("", "")
first_two (a ∷ []) = (a, "")
first_two (a ∷ b ∷ ps) = (a, b)

unfoldable pub parse_image_tag : String → String × String
parse_image_tag image_tag = first_two (split b':' image_tag)

-- The first container of the list that has the name.
unfoldable pub find_named : String → List Listed → Option Listed
find_named name [] = none
find_named name (c ∷ cs) =
    let rest = find_named name cs in if contains c.names ("/" ⧺ name) then some c else rest

-- The values of a property, if it is there.
abbrev pub property : String → Build → Option (List String)
property key b = lookup key b.custom

-- `v[0]`
abbrev pub first_value : List String → Option String
first_value [] = none
first_value (v ∷ vs) = some v

abbrev pub is_zero : ℤ → Bool
is_zero (pos n) = eqb n 0
is_zero (negsuc n) = false

abbrev pub described : ContainerConfig → String → Container → Container
described info short_id c =
    let (img, tag) = parse_image_tag info.image in
    record c {
      name = info.name;
      image = info.image;
      prefix = "[" ⧺ short_id ⧺ " (" ⧺ img ⧺ ":" ⧺ safe_short tag 8 ⧺ ")]";
    }

module _ {W : Type 0} (o : Outside W) where
  abbrev pub get_build : Action W Build
  get_build = gets (λ s. s.container.build)

  -- `getContainifyHost`
  unfoldable pub get_containify_host : Action W String
  get_containify_host = do
    b ← get_build
    elim (property "CONTAINIFYCI_HOST" b) [ none ↦ pure "" | some v ↦ or_panic (first_value v) ]

  abbrev auth_for : Credentials → String → Action W String
  auth_for reg server = do
    b ← get_build
    username ← or_exit (get_value_of o.world reg.username b.env)
    password ← or_exit (get_value_of o.world reg.password b.env)
    pure (
        o.encode_auth
          (record { username = username; password = password; server_address = server }))

  -- `registryAuthBase64`
  unfoldable pub registry_auth_base64 : String → Action W String
  registry_auth_base64 image_name = elim (parse_docker_image o.contains_domain image_name) [
    | none ↦ pure ""
    | some info ↦ do
      b ← get_build
      elim b.registries [
        | none ↦ pure ""
        | some registries ↦ elim (lookup info.server registries) [
          | none ↦ pure ""
          | some reg ↦ auth_for reg info.server
        ]
      ]
  ]

  -- What Create does once the identifier is known.
  unfoldable pub describe : Action W (Unit {0})
  unfolding slice_front safe_short
  describe = do
    id ← gets (λ s. s.container.id)
    info ← or_end (← call (o.manager.inspect_container id))
    modify (λ c. record c { name = info.name; image = info.image })
    short_id ← or_panic (slice_front 6 id)
    modify (described info short_id)

  abbrev resolved_platform : PlatformChoice → PlatformChoice
  resolved_platform no_platform = no_platform
  resolved_platform auto_platform = this_platform (get_platform_spec o.go_os o.go_arch)
  resolved_platform (this_platform p) = this_platform p

  abbrev with_env : String → String → ContainerConfig → ContainerConfig
  with_env host folder opts = record opts {
    env =
        opts.env
        ++ ((if host == "" then [] else ("CONTAINIFYCI_HOST=" ⧺ host) ∷ [])
            ++ ("CONTAINIFYCI_FOLDER=" ⧺ folder) ∷ []);
    platform = resolved_platform opts.platform;
  }

  unfoldable pub create_new : ContainerConfig → Action W (Unit {0})
  unfolding describe
  create_new opts = do
    host ← get_containify_host
    b ← get_build
    auth ← registry_auth_base64 opts.image
    id ← or_end (← call (o.manager.create_container (with_env host b.folder opts) auth))
    modify (λ c. record c { id = id })
    describe

  abbrev adopt : Listed → Action W (Unit {0})
  adopt l = modify (λ c. record c { id = l.id }) >> describe

  abbrev create_named : ContainerConfig → Action W (Unit {0})
  create_named opts = do
    containers ← or_end (← call (o.manager.container_list true))
    elim (find_named opts.name containers) [ some l ↦ adopt l | none ↦ create_new opts ]

  -- `Create`: a container of the name is taken over as it is.
  unfoldable pub create : ContainerConfig → Action W (Unit {0})
  create opts = do
    modify (λ c. record c { opts = opts })
    if opts.name == "" then create_new opts else create_named opts

  abbrev pub get_id : Action W String
  get_id = gets (λ s. s.container.id)

  abbrev or_error : String → Result (Unit {0}) → Action W (Unit {0})
  or_error message (ok a) = pure a
  or_error message (err e) = fail (message ⧺ e)
  or_error message crash = panic

  stream : Action W (Unit {0})
  stream s = (
    returned tt,
    if s.container.stream_logs
        then record s { streams = s.streams ++ (s.container.id, s.container.prefix) ∷ [] }
        else s,
  )

  -- `Start`
  unfoldable pub start : Action W (Unit {0})
  unfolding stream
  start = do
    id ← get_id
    or_error ("failed to start container " ⧺ id ⧺ ": ") (← call (o.manager.start_container id))
    stream

  unfoldable pub stop : Action W (Unit {0})
  stop = do id ← get_id; or_fail (← call (o.manager.stop_container id "SIGTERM"))

  unfoldable pub copy_content_to : String → String → Action W (Unit {0})
  copy_content_to content dest = do
    id ← get_id
    or_fail (← call (o.manager.copy_content_to id content dest))

  unfoldable pub copy_directory_to : String → String → Action W (Unit {0})
  copy_directory_to src dst = do
    id ← get_id
    or_fail (← call (o.manager.copy_directory_to id src dst))

  unfoldable pub copy_file_to : String → String → Action W (Unit {0})
  copy_file_to src dest = do id ← get_id; or_fail (← call (o.manager.copy_file_to id src dest))

  unfoldable pub copy_file_from_container : String → Action W String
  copy_file_from_container src = do id ← get_id; or_fail (← call (o.manager.copy_file_from id src))

  -- `Commit`
  unfoldable pub commit : String → String → List String → Action W String
  commit image_tag comment changes = do
    id ← get_id
    or_end
        (← call (
          o.manager.commit_container id
            (record { reference = image_tag; comment = comment; changes = changes })))

  -- `Exec`; writing what the command prints is left out.
  unfoldable pub exec : List String → Action W (Unit {0})
  exec cmd = do id ← get_id; out ← or_fail (← call (o.manager.exec_container id cmd true)); pure tt

  unfoldable pub inspect : Action W ContainerConfig
  inspect = do id ← get_id; or_fail (← call (o.manager.inspect_container id))

  -- The last branch of Wait: its deferred message is logged however the branch ends.
  abbrev exited_with : ℤ → Action W (Unit {0})
  exited_with code = do
    id ← get_id
    prefix ← gets (λ s. s.container.prefix)
    log_done prefix "Container exited with non 0" true
    info ← call (o.manager.inspect_container id)
    elim info [
      | ok i ↦ fail ("container " ⧺ i.image ⧺ " exited with status " ⧺ o.format_int code)
      | err e ↦ panic
      | crash ↦ panic
    ]

  abbrev by_status : Option ℤ → Action W (Unit {0})
  by_status none = fail "failed to wait for container: status code is nil"
  by_status (some code) =
      if is_zero code
      then (do
        prefix ← gets (λ s. s.container.prefix)
        log_done prefix "Container exited with status 0" false)
      else exited_with code

  -- `Wait`
  unfoldable pub wait : Action W (Unit {0})
  wait = do
    id ← get_id
    status ← call (o.manager.wait_container id "not-running")
    elim status [
      | ok code ↦ by_status code
      | err e ↦ fail ("failed to wait for container: " ⧺ e)
      | crash ↦ panic
    ]
