-- ===== src/Network/Address.antt =====
-- pkg/network/localhost.go. `parse_url` is what `url.Parse` makes of a text: its scheme and its port,
-- or none for an error.
use engine_ci.Base.{
  ℕ, String, ◌⧺◌, Option, none, some, ◌==◌, ◌≡◌, refl, ap, sym, ◌∙◌, if◌then◌else◌,
}

pub record Address : Type 0 where
  pub host : String
  pub internal_host : String
  pub secret : String
  pub port : ℕ

unfoldable pub hostname : String → String → String → String
hostname scheme host port =
    if scheme == ""
    then (if port == "" then host else host ⧺ ":" ⧺ port)
    else if port == ""
    then scheme ⧺ "://" ⧺ host
    else scheme ⧺ "://" ⧺ host ⧺ ":" ⧺ port

-- The name of the host inside a container: the switch of NewAddress.
unfoldable pub host_for : String → String → String
host_for os runtime =
    if os == "windows"
    then "host.docker.internal"
    else if os == "darwin"
    then (if runtime == "podman" then "host.containers.internal" else "host.docker.internal")
    else if os == "linux"
    then (if runtime == "podman" then "host.containers.internal" else "host.docker.internal")
    else "host.docker.internal"

module _ (parse_url : String → Option (String × String)) (os : String) where
  -- `NewAddress`, which leaves the address as it was if its URL cannot be parsed.
  unfoldable pub new_address : String → Address → Address
  new_address runtime a = elim (parse_url a.internal_host) [
    | none ↦ a
    | some (scheme, port) ↦ record a { internal_host = hostname scheme (host_for os runtime) port }
  ]

  -- `ForContainer`: the answer, and the address after it.
  unfoldable pub for_container : String → String → Address → String × Address
  for_container runtime env a =
      let a' = new_address runtime a in
      if env == "local" then (a'.internal_host, a') else (a'.host, a')

  -- `ForContainerDefault`
  unfoldable pub for_container_default : String → Address → String × Address
  for_container_default runtime a = ((new_address runtime a).internal_host, new_address runtime a)

  new_address-some :
      (runtime : String) (a : Address) (scheme port : String)
      → parse_url a.internal_host ≡ some (scheme, port)
      → new_address runtime a
        ≡ record a { internal_host = hostname scheme (host_for os runtime) port }
  unfolding new_address
  new_address-some runtime a scheme port h = rw (h, new_address) refl

  -- A second call changes nothing, if the URL that the first one wrote is parsed into the parts that
  -- it was written from.
  pub new_address_idem :
      (runtime : String) (a : Address) (scheme port : String)
      → parse_url a.internal_host ≡ some (scheme, port)
      → parse_url (hostname scheme (host_for os runtime) port) ≡ some (scheme, port)
      → new_address runtime (new_address runtime a) ≡ new_address runtime a
  new_address_idem runtime a scheme port h k =
      let once = new_address-some runtime a scheme port h in
      ap (new_address runtime) once
      ∙ new_address-some runtime
          (record a { internal_host = hostname scheme (host_for os runtime) port }) scheme port k
      ∙ sym once
