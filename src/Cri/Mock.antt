-- ===== src/Cri/Mock.antt =====
-- pkg/cri/critest/critest.go: MockContainerManager, a runtime that lives in memory. A random identifier is
-- the next of a sequence that is a parameter. Where the source ranges over a map, the order is that of the
-- entries here, one of those that Go may choose.
pub mod Runtime
use engine_ci.Base.{
  ℕ, suc, String, ◌⧺◌, Option, none, some, List, [], ◌∷◌, ◌++◌, ◌==◌, pos, if◌then◌else◌, Dict,
  lookup, insert, erase, join,
}
use engine_ci.Cri.Platform.{parse_platform}
use engine_ci.Cri.Manager.{
  Manager, Result, ok, err, crash, Listed, ContainerConfig, PlatformChoice, no_platform,
  auto_platform, this_platform, ImageInfo,
}

-- `MockContainerVolume`
pub record MockVolume : Type 0 where
  pub content : String
  pub src_path : String
  pub dst_path : String

-- `MockContainerLifecycle`
pub record MockContainer : Type 0 where
  pub id : String
  pub opts : ContainerConfig
  pub volume : Option MockVolume
  pub state : String

pub record MockBuildInfo : Type 0 where
  pub id : String
  pub name : String
  pub dockerfile : String

-- `MockImageLifecycle`
pub record MockImage : Type 0 where
  pub id : String
  pub opts : ImageInfo
  pub build_info : MockBuildInfo

-- `MockContainerManager`, with the number of identifiers that were drawn.
pub record MockRuntime : Type 0 where
  pub containers : Dict MockContainer
  pub container_logs : Dict (List String)
  pub images : Dict MockImage
  pub errors : Dict String
  pub id : String
  pub images_log : List String
  pub drawn : ℕ

-- `NewMockContainerManager`
abbrev pub new_mock : MockRuntime
new_mock = record {
  containers = [];
  container_logs = [];
  images = [];
  errors = [];
  id = "";
  images_log = [];
  drawn = 0;
}

abbrev pub no_build : MockBuildInfo
no_build = record { id = ""; name = ""; dockerfile = "" }

abbrev not_found : String
not_found = "container not found"

-- `GetContainerByImage`
unfoldable pub get_container_by_image : String → Dict MockContainer → Option MockContainer
get_container_by_image image [] = none
get_container_by_image image ((id, con) ∷ cons) =
    let rest = get_container_by_image image cons in
    if con.opts.image == image then some con else rest

abbrev entries_or_nil : Option (List String) → List String
entries_or_nil none = []
entries_or_nil (some entries) = entries

-- `StartContainer`
unfoldable pub mock_start : String → MockRuntime → Result (Unit {0}) × MockRuntime
mock_start id m = elim (lookup id m.containers) [
  | none ↦ (err not_found, m)
  | some con ↦ (
    ok tt,
    record m {
      containers = insert id (record con { state = "started" }) m.containers;
      container_logs =
          insert con.opts.image ("container starting" ∷ "container running" ∷ []) m.container_logs;
    },
  )
]

-- `StopContainer`
unfoldable pub mock_stop : String → MockRuntime → Result (Unit {0}) × MockRuntime
mock_stop id m = elim (lookup id m.containers) [
  | none ↦ (err not_found, m)
  | some con ↦ (
    ok tt,
    record m {
      containers = insert id (record con { state = "stopped" }) m.containers;
      container_logs =
          insert con.opts.image
            (entries_or_nil (lookup con.opts.image m.container_logs) ++ "container stopped" ∷ [])
            m.container_logs;
    },
  )
]

-- The three operations that copy into a container: without one, a nil pointer is written through.
unfoldable pub mock_copy : MockVolume → String → MockRuntime → Result (Unit {0}) × MockRuntime
mock_copy volume id m = elim (lookup id m.containers) [
  | none ↦ (crash, m)
  | some con ↦ (
    ok tt,
    record m { containers = insert id (record con { volume = some volume }) m.containers },
  )
]

abbrev content_of : Option MockVolume → Result String
content_of none = crash
content_of (some v) = ok v.content

-- `CopyFileFromContainer`
unfoldable pub mock_copy_from : String → MockRuntime → Result String × MockRuntime
mock_copy_from id m = elim (lookup id m.containers) [
  | none ↦ (crash, m)
  | some con ↦ (content_of con.volume, m)
]

-- `InspectContainer`
unfoldable pub mock_inspect : String → MockRuntime → Result ContainerConfig × MockRuntime
mock_inspect id m = elim (lookup id m.containers) [
  | none ↦ (err not_found, m)
  | some con ↦ (ok con.opts, m)
]

-- `ContainerList`
unfoldable pub mock_list : Dict MockContainer → List Listed
mock_list [] = []
mock_list ((id, con) ∷ cons) =
    record { id = id; image = con.opts.image; image_id = id; names = con.opts.name ∷ [] }
    ∷ mock_list cons

-- `ContainerLogs`
unfoldable pub mock_logs : String → MockRuntime → Result String × MockRuntime
mock_logs id m = elim (lookup id m.containers) [
  | none ↦ (err not_found, m)
  | some con ↦ elim (lookup con.opts.image m.container_logs) [
    | none ↦ (err not_found, m)
    | some lines ↦ (ok (join "\n" lines), m)
  ]
]

-- `ListImage`, which looks at the name under which an image was built.
unfoldable pub mock_list_image : String → Dict MockImage → List String
mock_list_image image [] = []
mock_list_image image ((key, img) ∷ imgs) =
    let rest = mock_list_image image imgs in
    if img.build_info.name == image then img.build_info.name ∷ rest else rest

-- `InspectImage`
unfoldable pub mock_inspect_image : String → MockRuntime → Result ImageInfo × MockRuntime
mock_inspect_image image m = elim (lookup image m.images) [
  | none ↦ (err "image not found", m)
  | some img ↦ (ok img.opts, m)
]

-- `TagImage`
unfoldable pub mock_tag : String → String → MockRuntime → Result (Unit {0}) × MockRuntime
mock_tag source target m = elim (lookup source m.images) [
  | none ↦ (ok tt, m)
  | some img ↦ (ok tt, record m { images = insert target img m.images })
]
