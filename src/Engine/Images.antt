-- ===== src/Engine/Images.antt =====
-- cmd/images.go: CollectImages and parseImageURI. Over texts, `sort.Slice` by `<` of the URIs is an
-- insertion sort: no two URIs are equal, so that no two sorted lists differ.
pub mod Sorted
pub mod Uri
use engine_ci.Base.{
  ℕ, String, ◌⧺◌, Bool, true, false, ◌||◌, not, Option, none, some, List, [], ◌∷◌, ◌++◌, map,
  if◌then◌else◌, contains, cut_last, has_text, text_lt,
}
use engine_ci.Container.Build.{Build}
use engine_ci.Pipeline.Step.{BuildStep, Context, IntermediateImage}

pub record ImageInfo : Type 0 where
  pub uri : String
  pub name : String
  pub tag : String
  pub registry : String
  pub dockerfile : String
  pub context : String
  pub build_step : String

-- The second half of `parseImageURI`, on what is left once the tag is cut off.
split_registry : String → String × String
split_registry uri = elim (cut_last b'/' uri) [ none ↦ ("", uri) | some p ↦ p ]

-- `parseImageURI`; `dir` is `path.Dir`.
unfoldable pub parse_image_uri : (String → String) → String → String → String → ImageInfo
unfolding split_registry
parse_image_uri dir uri dockerfile build_step = elim (cut_last b':' uri) [
  | none ↦ record {
    uri = uri;
    name = (split_registry uri).1;
    tag = "";
    registry = (split_registry uri).0;
    dockerfile = dockerfile;
    context = dir dockerfile;
    build_step = build_step;
  }
  | some (front, tag) ↦ record {
    uri = uri;
    name = (split_registry front).1;
    tag = tag;
    registry = (split_registry front).0;
    dockerfile = dockerfile;
    context = dir dockerfile;
    build_step = build_step;
  }
]

-- The intermediate images of the steps, each with the name of its step.
pub intermediate : Build → List Context → List (String × IntermediateImage)
intermediate b [] = []
intermediate b (c ∷ cs) =
    map (λ i. (c.step.name, i)) (c.step.intermediate_images b) ++ intermediate b cs

-- The inner loop: an image of another registry, or one that was seen, is passed over.
collect : (String → String) → List String → List (String × IntermediateImage) → List ImageInfo
collect dir seen [] = []
collect dir seen ((step, i) ∷ rest) =
    let skipped = collect dir seen rest in
    let taken = collect dir (i.uri ∷ seen) rest in
    if not (has_text i.uri "containifyci/") || contains seen i.uri
    then skipped
    else parse_image_uri dir i.uri i.dockerfile step ∷ taken

insert_by_uri : ImageInfo → List ImageInfo → List ImageInfo
insert_by_uri x [] = x ∷ []
insert_by_uri x (y ∷ ys) =
    let rest = insert_by_uri x ys in if text_lt y.uri x.uri then y ∷ rest else x ∷ y ∷ ys

sort_by_uri : List ImageInfo → List ImageInfo
sort_by_uri [] = []
sort_by_uri (x ∷ xs) = insert_by_uri x (sort_by_uri xs)

-- `CollectImages` over the pipeline, for the synthetic build.
unfoldable pub collect_images : (String → String) → Build → List Context → List ImageInfo
unfolding intermediate collect sort_by_uri insert_by_uri
collect_images dir b steps = sort_by_uri (collect dir [] (intermediate b steps))
