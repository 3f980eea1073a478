-- ===== src/Protobuf/Script.antt =====
-- pkg/protobuf/buildscript.go: the commands that generate the code. What the template writes is written
-- out.
pub mod Packages
use engine_ci.Base.{
  String, ◌⧺◌, Bool, Option, none, some, List, [], ◌∷◌, ◌==◌, if◌then◌else◌, join, dir,
}
use engine_ci.Container.Action.{Outcome, returned, exited, panicked}

-- `BuildScript`
pub record BuildScript : Type 0 where
  pub command : String
  pub target_packages : List String
  pub source_files : List String
  pub with_http : Bool
  pub with_tag : Bool

-- The commands for one package and one file.
unfoldable pub render : Bool → Bool → String → String → String
unfolding dir
render http tag pkg file =
    "protoc -I=/src/"
    ⧺ dir file
    ⧺ " --go-grpc_out=/src/"
    ⧺ pkg
    ⧺ " --plugin=grpc --go_out=/src/"
    ⧺ pkg
    ⧺ (if http then " --gohttp_out=/src/" ⧺ pkg else "")
    ⧺ " /src/"
    ⧺ file
    ⧺ "\n"
    ⧺ (if tag
        then "protoc -I=/src/"
          ⧺ dir file
          ⧺ " --go-grpc_out=/src/"
          ⧺ pkg
          ⧺ " --plugin=grpc --gotag_out=outdir=./"
          ⧺ pkg
          ⧺ ":./ /src/"
          ⧺ file
          ⧺ " "
        else "")

-- The loop over the packages, each with the file at its index; none is the panic on an index out of
-- range.
unfoldable pub protoc_commands : Bool → Bool → List String → List String → Option (List String)
unfolding render
protoc_commands http tag [] files = some []
protoc_commands http tag (pkg ∷ pkgs) [] = none
protoc_commands http tag (pkg ∷ pkgs) (file ∷ files) = elim (protoc_commands http tag pkgs files) [
  | none ↦ none
  | some cmds ↦ some (render http tag pkg file ∷ cmds)
]

abbrev script_of : List String → Outcome String
script_of cmds = returned ("#!/bin/sh\nset -x\n" ⧺ join "\n" cmds ⧺ "\n")

-- `script`
unfoldable pub script : BuildScript → Outcome String
unfolding protoc_commands
script bs =
    if bs.command == "protoc"
    then elim (protoc_commands bs.with_http bs.with_tag bs.target_packages bs.source_files) [
      | none ↦ panicked
      | some cmds ↦ script_of cmds
    ]
    else if bs.command == "buf"
    then script_of ("buf generate" ∷ [])
    else exited 1
