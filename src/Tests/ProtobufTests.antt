-- ===== src/Tests/ProtobufTests.antt =====
-- Protobuf files with a directory of their own each, and two in one directory.
use engine_ci.Base.{String, ◌⧺◌, join, true, false, some, List, [], ◌∷◌, ◌≡◌, refl, length, dir}
use engine_ci.Container.Action.{exited, returned}
use engine_ci.Container.Service.{service_build_of}
use engine_ci.Protobuf.Script.{render, protoc_commands, script}
use engine_ci.Protobuf.Script.Packages.{
  one_each, service_build-one_each, service_build-protoc_commands,
}
use engine_ci.Tests.DiscoveryTests.{files}

abbrev apart_files : List String
apart_files = "a/x.proto" ∷ "b/y.proto" ∷ []

abbrev shared_files : List String
shared_files = "a/x.proto" ∷ "a/y.proto" ∷ "b/z.proto" ∷ []

service_build-one_each_example :
    script (record {
      command = "protoc";
      target_packages = (service_build_of files "svc" "GoLang" apart_files).source_packages;
      source_files = (service_build_of files "svc" "GoLang" apart_files).source_files;
      with_http = false;
      with_tag = true;
    })
    ≡ returned ("#!/bin/sh\nset -x\n" ⧺ join "\n" (one_each false true apart_files) ⧺ "\n")
unfolding dir
service_build-one_each_example =
    service_build-one_each files "svc" "GoLang" apart_files false true (refl, (refl, tt))

service_build-protoc_commands_example :
    (cmds : List String) × (protoc_commands true true
        (service_build_of files "svc" "GoLang" shared_files).source_packages
        (service_build_of files "svc" "GoLang" shared_files).source_files
      ≡ some cmds)
    × (length cmds ≡ length (service_build_of files "svc" "GoLang" shared_files).source_packages)
service_build-protoc_commands_example =
    service_build-protoc_commands files "svc" "GoLang" shared_files true true

-- The second file of a directory is generated into the next package, and the last file not at all.
shared_test :
    protoc_commands false false
      (service_build_of files "svc" "GoLang" shared_files).source_packages
      (service_build_of files "svc" "GoLang" shared_files).source_files
    ≡ some (render false false "a" "a/x.proto" ∷ render false false "b" "a/y.proto" ∷ [])
unfolding service_build_of protoc_commands
shared_test = refl

command_test :
    script (record {
      command = "make";
      target_packages = [];
      source_files = [];
      with_http = false;
      with_tag = false;
    })
    ≡ exited 1
unfolding script
command_test = refl
