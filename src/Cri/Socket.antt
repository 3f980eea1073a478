-- ===== src/Cri/Socket.antt =====
-- pkg/cri/utils/socket.go. `podman_info` is what `podman info` prints for the path of its socket, none if
-- podman is not there or fails.
use engine_ci.Base.{
  String, Option, none, some, [], ◌∷◌, ◌++◌, ◌==◌, if◌then◌else◌, strip_prefix?, trim_space,
  or_same,
}
use engine_ci.Cri.Manager.{ContainerConfig, Volume}

pub record ContainerSocket : Type 0 where
  pub runtime_type : String
  pub source : String
  pub target : String

-- `DockerSocket`
unfoldable pub docker_socket : ContainerSocket
docker_socket = record {
  runtime_type = "docker";
  source = "/var/run/docker.sock";
  target = "/var/run/docker.sock";
}

-- `PodmanSocket`; none is its error.
unfoldable pub podman_socket : Option String → Option ContainerSocket
unfolding strip_prefix? trim_space
podman_socket none = none
podman_socket (some out) = some (record {
  runtime_type = "podman";
  source = trim_space (or_same out (strip_prefix? "unix://" out));
  target = "/var/run/podman.sock";
})

-- `Socket`
unfoldable pub socket : Option String → String → Option ContainerSocket
unfolding docker_socket podman_socket
socket podman_info runtime =
    if runtime == "docker"
    then some docker_socket
    else if runtime == "podman"
    then podman_socket podman_info
    else none

abbrev pub mount_of : ContainerSocket → Volume
mount_of s = record { type = "bind"; source = s.source; target = s.target }

-- `ApplySocket`
unfoldable pub apply_socket : Option String → String → ContainerConfig → ContainerConfig
unfolding socket
apply_socket podman_info runtime opts = elim (socket podman_info runtime) [
  | none ↦ opts
  | some s ↦ record opts { volumes = opts.volumes ++ mount_of s ∷ [] }
]
