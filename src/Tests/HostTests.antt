-- ===== src/Tests/HostTests.antt =====
-- The host and its repository.
use engine_ci.Base.{
  String, ◌⧺◌, ◌==◌, true, false, Option, none, some, [], ◌∷◌, ◌≡◌, refl, if◌then◌else◌, Dict,
  insert, strip_prefix?, strip_suffix?, trim_suffix, has_char,
}
use engine_ci.Utils.Environment.{
  World, getenv, get_env, get_env_with_default, get_envs, get_value_of, get_all_envs, run_command,
}
use engine_ci.Svc.Git.{
  GitCommand, parse_remote, set_git_info, commander, current_tag, pr_number_of, full_repo,
  is_unknown, set_unknown_git_info,
}
use engine_ci.Svc.Git.Remote.{parse_remote_lem}
use engine_ci.Svc.Git.Cached.{kept_or, set_git_info_lem}
use engine_ci.Network.Address.{Address, for_container, new_address, host_for, hostname}
use engine_ci.Cri.Manager.{ContainerConfig, blank}

abbrev variable : String → String
variable key =
    if key == "TOKEN"
    then "abc"
    else if key == "ALIAS"
    then "env:TOKEN"
    else if key == "GITHUB_REF"
    then "refs/tags/v1"
    else if key == "GITHUB_REF_NAME"
    then "42/merge"
    else ""

abbrev world : World
world = record { env = variable; output = λ cmd. some "out\n"; store = ("k", "v") ∷ [] }

indirect : get_env world "ALIAS" "build" ≡ some "abc"
unfolding get_env get_value_of getenv strip_prefix?
indirect = refl

from_command : get_value_of world "cmd:date" "build" ≡ some "out"
unfolding get_value_of run_command strip_prefix? trim_suffix
from_command = refl

by_default : get_env_with_default world "NAME" "x" ≡ "x"
unfolding get_env_with_default
by_default = refl

abbrev token_only : Dict String
token_only = ("TOKEN", "abc") ∷ []

all_read : get_all_envs world ("TOKEN" ∷ "NONE" ∷ []) "build" ≡ some token_only
unfolding get_all_envs get_env get_value_of getenv strip_prefix? insert
all_read = refl

token_read : get_env world "TOKEN" "build" ≡ some "abc"
unfolding get_env get_value_of getenv strip_prefix?
token_read = refl

parse_remote_example :
    (parse_remote ("http" ⧺ "s://github.com" ⧺ "/" ⧺ "containifyci" ⧺ "/" ⧺ "engine-ci" ⧺ ".git")
      ≡ ("containifyci", "engine-ci"))
    × (parse_remote ("git@" ⧺ "github.com" ⧺ ":" ⧺ "containifyci" ⧺ "/" ⧺ "engine-ci" ⧺ ".git")
        ≡ ("containifyci", "engine-ci"))
unfolding has_char
parse_remote_example =
    parse_remote_lem "s://github.com" "github.com" "containifyci" "engine-ci" refl refl refl refl
      refl

abbrev unset_env : String → Option String
unset_env key = none

abbrev found : GitCommand
found = commander world true (some "https://github.com/containifyci/engine-ci.git") (some "main")

abbrev missing : GitCommand
missing = commander world false none none

on_tag : current_tag world ≡ "v1"
unfolding current_tag get_envs getenv strip_prefix?
on_tag = refl

of_pr : pr_number_of variable ≡ "42"
unfolding pr_number_of strip_suffix?
of_pr = refl

nothing_known : is_unknown (some set_unknown_git_info) ≡ true
unfolding is_unknown set_unknown_git_info
nothing_known = refl

whole_name :
    full_repo (record { owner = "a"; repo = "b"; branch = ""; tag = ""; pr_num = "" }) ≡ "a/b"
unfolding full_repo
whole_name = refl

set_git_info_example :
    (let (answer, after) = set_git_info unset_env found none in
      (after ≡ answer)
      × (set_git_info unset_env missing after
          ≡ kept_or (set_git_info unset_env missing none) answer))
set_git_info_example = set_git_info_lem unset_env unset_env found missing none

abbrev plain : ContainerConfig
plain = blank

abbrev with_agent : String → String
with_agent key = if key == "SSH_AUTH_SOCK" then "/tmp/agent" else ""

abbrev local_address : Address
local_address = record {
  host = "localhost";
  internal_host = "http://localhost:80";
  secret = "";
  port = 80;
}

seen_inside :
    (for_container (λ url. some ("http", "80")) "linux" "podman" "local" local_address).0
    ≡ "http://host.containers.internal:80"
unfolding for_container hostname new_address host_for
seen_inside = refl
