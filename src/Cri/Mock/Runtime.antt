-- ===== src/Cri/Mock/Runtime.antt =====
-- pkg/cri/critest/critest.go: the operations that draw an identifier, and MockContainerManager as an
-- implementation of the interface to a runtime.
use engine_ci.Base.{
  ℕ, suc, String, ◌⧺◌, none, some, List, [], ◌∷◌, ◌++◌, pos, lookup, insert, erase,
}
use engine_ci.Cri.Platform.{parse_platform}
use engine_ci.Cri.Manager.{
  Manager, Result, ok, err, ContainerConfig, PlatformChoice, no_platform, auto_platform,
  this_platform,
}
use engine_ci.Cri.Mock.{
  MockRuntime, MockContainer, no_build, mock_start, mock_stop, mock_copy, mock_copy_from,
  mock_inspect, mock_list, mock_logs, mock_list_image, mock_inspect_image, mock_tag,
}

module _ (rand_string : ℕ → String) where
  abbrev or_host : PlatformChoice → PlatformChoice → PlatformChoice
  or_host host no_platform = host
  or_host host auto_platform = auto_platform
  or_host host (this_platform p) = this_platform p

  -- `CreateContainer`; `host` is what GetPlatformSpec answers.
  unfoldable pub mock_create :
      PlatformChoice → ContainerConfig → MockRuntime → Result String × MockRuntime
  mock_create host opts m =
      let id = rand_string m.drawn in
      let con : MockContainer = record {
        id = id;
        opts = record opts { platform = or_host host opts.platform };
        volume = none;
        state = "created";
      } in
      (ok id, record m { containers = insert id con m.containers; id = id; drawn = suc m.drawn })

  -- `BuildImage`
  unfoldable pub mock_build : String → String → String → MockRuntime → MockRuntime
  mock_build dockerfile image platform m =
      let id = rand_string m.drawn in
      record m {
        images =
            insert image
              (record {
                id = id;
                opts = record { id = id; platform = parse_platform platform };
                build_info = record { id = id; name = image; dockerfile = dockerfile };
              })
              m.images;
        drawn = suc m.drawn;
      }

  -- The loop of `BuildMultiArchImage`
  unfoldable pub mock_build_all : String → String → List String → MockRuntime → MockRuntime
  mock_build_all dockerfile image [] m = m
  mock_build_all dockerfile image (p ∷ ps) m =
      mock_build_all dockerfile image ps (mock_build dockerfile (image ⧺ "-" ⧺ p) p m)

  -- `PullImage`
  unfoldable pub mock_pull : String → MockRuntime → Result String × MockRuntime
  mock_pull image m =
      let id = rand_string m.drawn in
      elim (lookup image m.errors) [
        | some e ↦ (err e, m)
        | none ↦ (
          ok (image ⧺ " pulled"),
          record m {
            images =
                insert image
                  (record {
                    id = id;
                    opts = record { id = id; platform = none };
                    build_info = no_build;
                  })
                  m.images;
            images_log = m.images_log ++ (image ⧺ " pulled") ∷ [];
            drawn = suc m.drawn;
          },
        )
      ]

  abbrev pub mock_manager : PlatformChoice → Manager MockRuntime
  mock_manager host = record {
    create_container = λ opts auth m. mock_create host opts m;
    start_container = mock_start;
    stop_container = λ id signal m. mock_stop id m;
    commit_container = λ id opts m. (ok id, m);
    remove_container = λ id m. (ok tt, record m { containers = erase id m.containers });
    container_list = λ all m. (ok (mock_list m.containers), m);
    container_logs = mock_logs;
    copy_content_to = λ id content dest m.
        mock_copy (record { content = content; src_path = ""; dst_path = dest }) id m;
    copy_directory_to =
        λ id src dst m. mock_copy (record { content = ""; src_path = src; dst_path = dst }) id m;
    copy_file_to =
        λ id src dst m. mock_copy (record { content = ""; src_path = src; dst_path = dst }) id m;
    copy_file_from = λ id src m. mock_copy_from id m;
    exec_container = λ id cmd attach m. (ok "mock_exec_output", m);
    inspect_container = mock_inspect;
    wait_container = λ id condition m. (ok (some (pos 0)), m);
    build_image = λ dockerfile image platform m.
        (ok "mock_build_output", mock_build dockerfile image platform m);
    build_multi_arch_image = λ dockerfile archive image platforms auth m. (
      ok ("mock_multiarch_build_output", platforms),
      mock_build_all dockerfile image platforms m,
    );
    list_image = λ image m. (ok (mock_list_image image m.images), m);
    pull_image = λ image auth platform m. mock_pull image m;
    tag_image = mock_tag;
    push_image = λ target auth m. (ok "mock_push_output", m);
    remove_image = λ target m. (ok tt, record m { images = erase target m.images });
    inspect_image = mock_inspect_image;
  }
