-- ===== src/Tests/OperationsTests.antt =====
-- The operations of a container, on the runtime in memory.
use engine_ci.Base.{none, some, [], ◌∷◌, ◌≡◌, ◌↔◌, refl, pos, lookup, insert}
use engine_ci.Cri.Manager.{ok, blank, ContainerConfig, no_platform, Listed}
use engine_ci.Cri.Mock.{MockRuntime, MockContainer, new_mock, mock_list, mock_inspect}
use engine_ci.Cri.Mock.Runtime.{mock_manager, mock_create}
use engine_ci.Container.Action.{Outside, State, returned, panicked}
use engine_ci.Container.Lifecycle.{find_named, slice_front, wait}
use engine_ci.Container.Lifecycle.Waited.{wait-returned_iff, wait-status, waited}
use engine_ci.Tests.Samples.{outside, ids, idle}

abbrev opts : ContainerConfig
opts = record blank { name = "web"; image = "alpine:3.20" }

-- A container with the name under which docker lists one.
abbrev runtime : MockRuntime
runtime = (mock_create ids no_platform (record opts { name = "/web" }) new_mock).1

abbrev state : State MockRuntime
state = record idle { runtime = runtime }

abbrev web : Listed
web = record { id = "abcdef"; image = "alpine:3.20"; image_id = "abcdef"; names = "/web" ∷ [] }

-- The runtime lists the container, and describes it as it was created.
web_listed :
    (mock_list runtime.containers ≡ web ∷ [])
    × (find_named "web" (web ∷ []) ≡ some web)
    × (mock_inspect "abcdef" runtime ≡ (ok (record opts { name = "/web" }), runtime))
    × (slice_front 6 "abcdef" ≡ some "abcdef")
unfolding mock_list mock_create insert find_named mock_inspect lookup slice_front
web_listed = (refl, refl, refl, refl)

wait-returned_iff_example :
    ((wait outside state).0 ≡ returned tt) ↔ ((waited outside state).0 ≡ ok (some (pos 0)))
wait-returned_iff_example = wait-returned_iff outside state

-- A runtime in which the container ends with the status 2.
abbrev failing : Outside MockRuntime
failing = record outside {
  manager = record (mock_manager ids no_platform) {
    wait_container = λ id condition m. (ok (some (pos 2)), m);
  };
}

-- A container that is gone when Wait asks for its image: the process panics.
wait_panics : (wait failing state).0 ≡ panicked
unfolding mock_create mock_inspect lookup insert
wait_panics = (wait-status failing state (pos 2) state.runtime refl refl).0

abbrev in_web : State MockRuntime
in_web = record state { container = record state.container { id = "abcdef" } }

abbrev web_container : MockContainer
web_container = record {
  id = "abcdef";
  opts = record opts { name = "/web" };
  volume = none;
  state = "created";
}

web_found : lookup "abcdef" runtime.containers ≡ some web_container
unfolding lookup mock_create insert
web_found = refl
