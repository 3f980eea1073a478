-- ===== src/Network/SshForward.antt =====
-- pkg/network/sshforward.go. An error is none, as is the panic on a platform without a host.
use engine_ci.Base.{
  String, ◌||◌, cons-⧺, nil-⧺, middle-ne-nil, ◌⧺◌, false, Option, none, some, [], ◌∷◌, ◌++◌, ◌==◌,
  ◌≡◌, inl, inr, refl, sym, ap, ◌∙◌, if◌then◌else◌, Bool-cases,
}
use engine_ci.Cri.Platform.{PlatformSpec, Platform}
use engine_ci.Cri.Manager.{Volume, ContainerConfig}

pub record Forward : Type 0 where
  pub volume : Option Volume
  pub source : String
  pub target : String
  pub env : String

abbrev add_volume : Option Volume → ContainerConfig → ContainerConfig
add_volume none opts = opts
add_volume (some v) opts = record opts { volumes = opts.volumes ++ v ∷ [] }

-- `Forward.Apply` on a pointer that may be nil.
unfoldable pub apply : Option Forward → ContainerConfig → ContainerConfig
apply none opts = opts
apply (some f) opts =
    add_volume f.volume (if f.env == "" then opts else record opts { env = opts.env ++ f.env ∷ [] })

-- `DARWIN_SSH_AUTH_SOCK`
abbrev pub darwin_ssh_auth_sock : String
darwin_ssh_auth_sock = "/run/host-services/ssh-auth.sock"

abbrev pub bind : String → Volume
bind socket = record { type = "bind"; source = socket; target = socket }

-- The Forward of either system.
abbrev pub forward_of : String → Forward
forward_of socket = record {
  volume = some (bind socket);
  source = socket;
  target = socket;
  env = "SSH_AUTH_SOCK=" ⧺ socket;
}

-- The cases of SSHForward.
unfoldable pub forward_for : (String → String) → String → String → Option (Option Forward)
forward_for env runtime os =
    if os == "linux"
    then (if env "SSH_AUTH_SOCK" == ""
        then some none
        else some (some (forward_of (env "SSH_AUTH_SOCK"))))
    else if os == "darwin"
    then (if runtime == "podman" then some none else some (some (forward_of darwin_ssh_auth_sock)))
    else none

-- `SSHForward`
unfoldable pub ssh_forward : (String → String) → String → Platform → Option (Option Forward)
unfolding forward_for
ssh_forward env runtime p = elim p.host [ none ↦ none | some h ↦ forward_for env runtime h.os ]

-- The socket that is forwarded, if any.
abbrev pub socket_for : (String → String) → String → String → String
socket_for env runtime os =
    if os == "linux"
    then env "SSH_AUTH_SOCK"
    else if runtime == "podman"
    then ""
    else darwin_ssh_auth_sock

abbrev pub with_socket : String → ContainerConfig → ContainerConfig
with_socket socket opts = if socket == "" then opts else record opts {
  env = opts.env ++ ("SSH_AUTH_SOCK=" ⧺ socket) ∷ [];
  volumes = opts.volumes ++ bind socket ∷ [];
}

-- The configuration after SSHForward and Apply.
abbrev pub forwarded : Option (Option Forward) → ContainerConfig → Option ContainerConfig
forwarded none opts = none
forwarded (some f) opts = some (apply f opts)

env-ne-nil : (s : String) → ("SSH_AUTH_SOCK=" ⧺ s == "") ≡ false
env-ne-nil s =
    let tail = "SH_AUTH_SOCK=" ⧺ s in
    ap (λ t. t == "") (cons-⧺ "S" "SH_AUTH_SOCK=" s ∙ sym (nil-⧺ (String.◌∷◌ "S" tail)))
    ∙ middle-ne-nil "" tail "S"

apply-forward_of :
    (socket : String) (opts : ContainerConfig)
    → apply (some (forward_of socket)) opts ≡ record opts {
      env = opts.env ++ ("SSH_AUTH_SOCK=" ⧺ socket) ∷ [];
      volumes = opts.volumes ++ bind socket ∷ [];
    }
unfolding apply
apply-forward_of socket opts = rw (env-ne-nil socket) refl

-- SSHForward and Apply give a container on Linux the socket of the environment, and on macOS the
-- host's own socket unless the runtime is podman, each as a variable and as a bind mount; without a
-- socket the configuration stays as it is, and on every other system there is an error.
pub ssh_forward-apply :
    (env : String → String) (runtime : String) (h : PlatformSpec) (c : Option PlatformSpec)
    (opts : ContainerConfig)
    → forwarded (ssh_forward env runtime (record { host = some h; container = c })) opts ≡ (
        if h.os == "linux" || h.os == "darwin"
        then some (with_socket (socket_for env runtime h.os) opts)
        else none)
unfolding ssh_forward apply
ssh_forward-apply env runtime h c opts = elim (Bool-cases (h.os == "linux")) [
  | inl e ↦ elim (Bool-cases (env "SSH_AUTH_SOCK" == "")) [
    | inl f ↦ rw (e, f) refl
    | inr f ↦ rw (e, f) (ap some (apply-forward_of (env "SSH_AUTH_SOCK") opts))
  ]
  | inr e ↦ elim (Bool-cases (h.os == "darwin")) [
    | inl d ↦ elim (Bool-cases (runtime == "podman")) [
      | inl r ↦ rw (e, d, r) refl
      | inr r ↦ rw (e, d, r) (ap some (apply-forward_of darwin_ssh_auth_sock opts))
    ]
    | inr d ↦ rw (e, d) refl
  ]
]
