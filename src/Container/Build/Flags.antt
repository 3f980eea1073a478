-- ===== src/Container/Build/Flags.antt =====
-- The command line that `AsFlags` prints.
use engine_ci.Base.{
  ℕ, ◌+◌, ◌*◌, String, List, [], ◌∷◌, ◌≡◌, arith, length, length-append, if◌then◌else◌,
}
use engine_ci.Container.Build.{Build, flag_each, as_flags}

-- The capacity that `AsFlags` reserves before it appends.
abbrev pub estimated_capacity : Build → ℕ
estimated_capacity b =
    (if b.verbose then 17 else 16) + 2 * (length b.source_packages + length b.source_files)

length-flag_each : (flag : String) (xs : List String) → length (flag_each flag xs) ≡ 2 * length xs
unfolding flag_each
length-flag_each flag [] = omega arith
length-flag_each flag (x ∷ xs) = omega (arith, length-flag_each flag xs)

-- The capacity that AsFlags reserves is exactly the number of words, so that no append reallocates.
pub length-as_flags : (b : Build) → length (as_flags b) ≡ estimated_capacity b
unfolding as_flags
length-as_flags b =
    let packages = flag_each "--protobuf-packages" b.source_packages in
    let files = flag_each "--protobuf-files" b.source_files in
    ground (
      arith,
      length-append packages files,
      length-flag_each "--protobuf-packages" b.source_packages,
      length-flag_each "--protobuf-files" b.source_files,
    )
