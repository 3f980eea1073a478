-- ===== src/Tests/MavenTests.antt =====
-- The configuration of a Maven build under podman that does not say where its socket is.
use engine_ci.Base.{String, true, none, some, List, [], ◌∷◌, ◌≡◌, refl, contains}
use engine_ci.Cri.Manager.{Volume}
use engine_ci.Cri.Platform.{spec}
use engine_ci.Maven.{MavenProject, build_opts, cache_folder}
use engine_ci.Utils.Environment.{get_envs}
use engine_ci.Tests.Samples.{build, world}

abbrev project : MavenProject
project = record {
  dockerfile = "FROM maven";
  checksum = λ s. "abc";
  home = some "/home/user";
  absolute = λ s. "/work";
  parse_url = λ s. some ("", "");
  podman_info = none;
  source = none;
}

abbrev targets : List Volume → List String
targets [] = []
targets (v ∷ vs) = v.target ∷ targets vs

-- No socket is mounted, but the environment names it.
podman_test :
    (targets
        (build_opts project "linux"
          (record build { runtime = "podman" })
          none
          (spec "linux" "amd64")
          "/m2"
          "").volumes
      ≡ "/src" ∷ "/root/.m2/" ∷ [])
    × (contains
          (build_opts project "linux"
            (record build { runtime = "podman" })
            none
            (spec "linux" "amd64")
            "/m2"
            "").env
          "DOCKER_HOST=unix://var/run/podman.sock"
        ≡ true)
unfolding build_opts
podman_test = (refl, refl)

docker_test :
    targets (build_opts project "linux" build none (spec "linux" "amd64") "/m2" "").volumes
    ≡ "/src" ∷ "/root/.m2/" ∷ "/var/run/docker.sock" ∷ []
unfolding build_opts
docker_test = refl

cache_test : cache_folder project world ≡ some "/home/user/.m2"
unfolding cache_folder get_envs
cache_test = refl
