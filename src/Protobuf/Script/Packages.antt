-- ===== src/Protobuf/Script/Packages.antt =====
-- The script for the packages and files that NewServiceBuild collects.
use engine_ci.Base.{
  suc, ◌≤◌, ◌⧺◌, join, ⧺_assoc, if◌then◌else◌, true, String, Bool, false, some, List, [], ◌∷◌, ◌≡◌,
  refl, arith, length, dir, contains, Bool-cases, inl, inr, ap, ◌∙◌,
}
use engine_ci.Container.Service.{packages_from, service_build_of}
use engine_ci.Container.Action.{returned}
use engine_ci.Protobuf.Script.{render, protoc_commands, script}
use engine_ci.Utils.Files.{FileSystem}

protoc_commands-enough :
    (http tag : Bool) (pkgs files : List String)
    → length pkgs ≤ length files
    → (cmds : List String) × (protoc_commands http tag pkgs files ≡ some cmds)
      × (length cmds ≡ length pkgs)
unfolding protoc_commands
protoc_commands-enough http tag [] files h = ([], refl, refl)
protoc_commands-enough http tag (p ∷ ps) [] h = absurd (ground arith)
protoc_commands-enough http tag (p ∷ ps) (f ∷ fs) h =
    let (cmds, e, l) = protoc_commands-enough http tag ps fs (ground arith) in
    (render http tag p f ∷ cmds, rw e refl, ap suc l)

length-packages_from-le :
    (seen files : List String) → length (packages_from seen files) ≤ length files
unfolding packages_from
length-packages_from-le seen [] = omega arith
length-packages_from-le seen (f ∷ fs) = elim (Bool-cases (contains seen (dir f))) [
  | inl b ↦ rw b (ground (arith, length-packages_from-le seen fs))
  | inr b ↦ rw b (ground (arith, length-packages_from-le (dir f ∷ seen) fs))
]

-- For a build that NewServiceBuild describes, the loop over the packages never reads past the end of the
-- list of files, whatever files were found, and renders one text for each package.
pub service_build-protoc_commands :
    (fs : FileSystem) (app type_ : String) (files : List String) (http tag : Bool)
    → (cmds : List String) × (protoc_commands http tag
          (service_build_of fs app type_ files).source_packages
          (service_build_of fs app type_ files).source_files
        ≡ some cmds)
      × (length cmds ≡ length (service_build_of fs app type_ files).source_packages)
unfolding service_build_of
service_build-protoc_commands fs app type_ files http tag =
    protoc_commands-enough http tag (packages_from [] files) files
      (length-packages_from-le [] files)

abbrev pub dirs_of : List String → List String
dirs_of [] = []
dirs_of (f ∷ fs) = dir f ∷ dirs_of fs

-- What protoc is told about a file, each of its outputs the directory of that file.
abbrev pub file_command : Bool → Bool → String → String → String
file_command http tag directory file =
    let run = "protoc -I=/src/" ⧺ directory ⧺ " --go-grpc_out=/src/" ⧺ directory in
    let input = " /src/" ⧺ file in
    let http_out = if http then " --gohttp_out=/src/" ⧺ directory else "" in
    let tagged =
      run ⧺ (" --plugin=grpc --gotag_out=outdir=./" ⧺ directory) ⧺ (":./ /src/" ⧺ file) ⧺ " " in
    run
    ⧺ (" --plugin=grpc --go_out=/src/" ⧺ directory)
    ⧺ http_out
    ⧺ input
    ⧺ "\n"
    ⧺ (if tag then tagged else "")

-- The commands for each file, with its own directory for all that is written.
abbrev pub one_each : Bool → Bool → List String → List String
one_each http tag [] = []
one_each http tag (f ∷ fs) = file_command http tag (dir f) f ∷ one_each http tag fs

render-file_command :
    (http tag : Bool) (file : String)
    → render http tag (dir file) file ≡ file_command http tag (dir file) file
unfolding render
render-file_command true true file = simp ⧺_assoc refl
render-file_command true false file = simp ⧺_assoc refl
render-file_command false true file = simp ⧺_assoc refl
render-file_command false false file = simp ⧺_assoc refl

one_each-protoc_commands :
    (http tag : Bool) (files : List String)
    → protoc_commands http tag (dirs_of files) files ≡ some (one_each http tag files)
unfolding protoc_commands
one_each-protoc_commands http tag [] = refl
one_each-protoc_commands http tag (f ∷ fs) =
    rw (one_each-protoc_commands http tag fs)
      (ap (λ c. some (c ∷ one_each http tag fs)) (render-file_command http tag f))

-- No file lies in a directory of another file before it, or in one that was seen.
abbrev pub HasOwnDirs : List String → List String → Type 0
HasOwnDirs seen [] = Unit
HasOwnDirs seen (f ∷ fs) = (contains seen (dir f) ≡ false) × HasOwnDirs (dir f ∷ seen) fs

packages_from-dirs_of :
    (seen files : List String) → HasOwnDirs seen files → packages_from seen files ≡ dirs_of files
unfolding packages_from
packages_from-dirs_of seen [] h = refl
packages_from-dirs_of seen (f ∷ fs) h =
    rw h.0 (ap (◌∷◌ (dir f)) (packages_from-dirs_of (dir f ∷ seen) fs h.1))

-- For a build that NewServiceBuild describes from files of which no two share a directory, the script of
-- the protoc command is the commands for every file, each with its own directory for all that is written.
pub service_build-one_each :
    (fs : FileSystem) (app type_ : String) (files : List String) (http tag : Bool)
    → HasOwnDirs [] files
    → script (record {
      command = "protoc";
      target_packages = (service_build_of fs app type_ files).source_packages;
      source_files = (service_build_of fs app type_ files).source_files;
      with_http = http;
      with_tag = tag;
    })
      ≡ returned ("#!/bin/sh\nset -x\n" ⧺ join "\n" (one_each http tag files) ⧺ "\n")
unfolding service_build_of script
service_build-one_each fs app type_ files http tag h =
    rw
      (ap (λ pkgs. protoc_commands http tag pkgs files) (packages_from-dirs_of [] files h)
        ∙ one_each-protoc_commands http tag files)
      refl
