-- ===== src/Container/Lifecycle/Copied.antt =====
-- Copies into a container and out of it, on the runtime in memory of pkg/cri/critest.
use engine_ci.Base.{ℕ, String, some, ◌≡◌, arith, lookup, lookup-insert, eq_refl}
use engine_ci.Cri.Manager.{PlatformChoice}
use engine_ci.Cri.Mock.{MockRuntime, MockContainer, mock_copy, mock_copy_from}
use engine_ci.Cri.Mock.Runtime.{mock_manager}
use engine_ci.Container.Action.{Outside, State, returned}
use engine_ci.Container.Lifecycle.{copy_content_to, copy_file_from_container}

module _ (o : Outside MockRuntime) (rand_string : ℕ → String) (host : PlatformChoice) where
  -- The outside with the runtime in memory.
  abbrev pub mocked : Outside MockRuntime
  mocked = record o { manager = mock_manager rand_string host }

  -- What is copied into a container is what is read from it.
  pub copy_content_to-copy_file_from :
      (content dest src : String) (s : State MockRuntime) (con : MockContainer)
      → lookup s.container.id s.runtime.containers ≡ some con
      → let copied = copy_content_to mocked content dest s in
        (copied.0 ≡ returned tt)
        × ((copy_file_from_container mocked src copied.1).0 ≡ returned content)
  unfolding copy_content_to copy_file_from_container mock_copy mock_copy_from
  copy_content_to-copy_file_from content dest src s con h =
      let id = s.container.id in
      let after : MockContainer = record con {
        volume = some (record { content = content; src_path = ""; dst_path = dest });
      } in
      (
        ground (arith, h),
        ground (arith, h, lookup-insert id id after s.runtime.containers, eq_refl id),
      )
