-- ===== src/Cri/Platform/Parse.antt =====
-- `ParsePlatform` and `String` undo one another.
use engine_ci.Base.{
  String, some, List, [], ◌∷◌, ◌≡◌, refl, arith, false, split, has_char, split-append, split-no_sep,
  join, join-split, split-has_char, middle-ne-nil, single-⧺,
}
use engine_ci.Cri.Platform.{PlatformSpec, spec, to_string, of_parts, parse_platform}

-- A printed platform of two parts, neither with a slash, is read back.
pub parse_platform-to_string :
    (os arch : String)
    → has_char b'/' os ≡ false
    → has_char b'/' arch ≡ false
    → parse_platform (to_string (spec os arch)) ≡ some (spec os arch)
unfolding parse_platform to_string
parse_platform-to_string os arch ho ha = rw (
  single-⧺ "/" arch,
  middle-ne-nil os arch "/",
  split-append b'/' "/" os arch ho refl,
  split-no_sep b'/' arch ha,
)

of_parts-some :
    (ps : List String) (s : PlatformSpec) → of_parts ps ≡ some s → ps ≡ s.os ∷ s.architecture ∷ []
unfolding of_parts
of_parts-some [] s h = cc
of_parts-some (a ∷ []) s h = cc
of_parts-some (a ∷ b ∷ []) s h = ground arith
of_parts-some (a ∷ b ∷ c ∷ ps) s h = cc

-- What ParsePlatform reads has no variant and no slash in its parts, and prints as the text that was read.
pub to_string-parse_platform :
    (text : String) (s : PlatformSpec)
    → parse_platform text ≡ some s
    → (to_string s ≡ text)
      × (s.variant ≡ "")
      × (has_char b'/' s.os ≡ false)
      × (has_char b'/' s.architecture ≡ false)
unfolding parse_platform to_string join
to_string-parse_platform text s h =
    let parts = of_parts-some (split b'/' text) s (ground arith) in
    let pieces = rw parts at (split-has_char b'/' text) in
    let joined = rw parts at (join-split b'/' "/" text refl) in
    let v : s.variant ≡ "" = ground arith in (rw v joined, v, pieces.0, pieces.1.0)
