-- ===== src/Cri/Image.antt =====
-- pkg/cri/utils/image.go. The regular expression of ParseDockerImage takes as registry the longest
-- front that ends before a slash, has no empty segment, and leaves a name and a tag behind it.
-- `contains_domain` is the regular expression for domain names.
use engine_ci.Base.{
  String, ◌⧺◌, Bool, ◌&&◌, not, Option, none, some, List, [], ◌∷◌, ◌++◌, ◌==◌, if◌then◌else◌, cut,
  has_char, split, join, contains,
}

pub record DockerImage : Type 0 where
  pub server : String
  pub registry : String
  pub image : String
  pub tag : String

-- `(?P<image>[^:]+)(?::(?P<tag>.+))?$`
unfoldable pub name_and_tag : String → Option (String × String)
name_and_tag s = elim (cut b':' s) [
  | none ↦ if s == "" then none else some (s, "")
  | some (name, tag) ↦
      if not (name == "") && not (tag == "") && not (has_char 10 tag)
      then some (name, tag)
      else none
]

-- The segments of a front, as many as possible, and the rest: `front` holds the segments so far.
unfoldable pub match_from : List String → List String → Option (String × (String × String))
match_from front [] = none
match_from front (p ∷ ps) =
    let longer = match_from (front ++ p ∷ []) ps in
    let here = name_and_tag (join "/" (p ∷ ps)) in
    elim (if contains front "" then none else longer) [
      | some m ↦ some m
      | none ↦
          if contains front ""
          then none
          else elim here [ none ↦ none | some nt ↦ some (join "/" front, nt) ]
    ]

abbrev pub head_or_empty : List String → String
head_or_empty [] = ""
head_or_empty (x ∷ xs) = x

module _ (contains_domain : String → Bool) where
  abbrev pub server_of : String → String
  server_of registry =
      let srv = head_or_empty (split b'/' registry) in
      if registry == "" then "docker.io" else if contains_domain srv then srv else "docker.io"

  -- `ParseDockerImage`
  unfoldable pub parse_docker_image : String → Option DockerImage
  unfolding match_from name_and_tag
  parse_docker_image image = elim (match_from [] (split b'/' image)) [
    | none ↦ none
    | some (registry, (name, tag)) ↦ some (record {
      server = server_of registry;
      registry = registry;
      image = name;
      tag = if tag == "" then "latest" else tag;
    })
  ]

-- `ImageURI`
unfoldable pub image_uri_of : String → String → String → String
image_uri_of registry image tag = registry ⧺ "/" ⧺ image ⧺ ":" ⧺ tag
