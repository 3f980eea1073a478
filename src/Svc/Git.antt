-- ===== src/Svc/Git.antt =====
-- pkg/svc/git.go. The package's variable `git` is an explicit state, nil as none; an error is none.
-- Parameters: the environment and what the git commands print, without surrounding white space.
pub mod Remote
pub mod Cached
use engine_ci.Base.{
  String, ◌⧺◌, Bool, true, false, not, Option, none, some, List, [], ◌∷◌, ◌==◌, if◌then◌else◌,
  has_prefix, strip_prefix?, strip_suffix?, trim_suffix, or_same, split,
}
use engine_ci.Utils.Environment.{World, get_envs}

pub record Git : Type 0 where
  pub owner : String
  pub repo : String
  pub branch : String
  pub tag : String
  pub pr_num : String

unfoldable pub is_unknown : Option Git → Bool
is_unknown none = true
is_unknown (some g) = g.owner == "unknown"

abbrev pub is_pr : Git → Bool
is_pr g = not (g.pr_num == "")

abbrev pub is_tag : Git → Bool
is_tag g = not (g.tag == "")

unfoldable pub full_repo : Git → String
full_repo g = g.owner ⧺ "/" ⧺ g.repo

-- `GitCommand`
pub record GitCommand : Type 0 where
  pub exists_ : Bool
  pub remote_url : Option String
  pub branch : Option String
  pub tag : Option String
  pub pr_number : Option String

-- `GitCommander.Branch`, on what `git rev-parse` prints.
unfoldable pub current_branch : (String → String) → Option String → Option String
current_branch env rev_parse =
    if not (env "GITHUB_HEAD_REF" == "")
    then some (env "GITHUB_HEAD_REF")
    else if not (env "GITHUB_REF_NAME" == "")
    then some (env "GITHUB_REF_NAME")
    else rev_parse

-- `GitCommander.Tag`
unfoldable pub current_tag : World → String
current_tag w =
    elim (strip_prefix? "refs/tags/"
      (get_envs w ("CONTAINIFYCI_GITHUB_REF" ∷ "GITHUB_REF" ∷ []) "build")) [
        | none ↦ ""
        | some tag ↦ tag
      ]

-- `GitCommander.PrNumber`
unfoldable pub pr_number_of : (String → String) → String
pr_number_of env = elim (strip_suffix? "/merge" (env "GITHUB_REF_NAME")) [ none ↦ "" | some n ↦ n ]

unfoldable pub commander : World → Bool → Option String → Option String → GitCommand
unfolding current_branch current_tag pr_number_of
commander w found config rev_parse = record {
  exists_ = found;
  remote_url = config;
  branch = current_branch w.env rev_parse;
  tag = some (current_tag w);
  pr_number = some (pr_number_of w.env);
}

-- `parts[len(parts)-2]` and the last part without `.git`, if there are two parts or more.
last_two : List String → String × String
last_two [] = ("", "")
last_two (a ∷ []) = ("", "")
last_two (a ∷ b ∷ []) = (a, trim_suffix b ".git")
last_two (a ∷ b ∷ c ∷ ps) = last_two (b ∷ c ∷ ps)

-- The path of an SSH URL must have exactly two parts.
ssh_path : List String → String × String
ssh_path (owner ∷ repo ∷ []) = (owner, trim_suffix repo ".git")
ssh_path parts = ("", "")

ssh_parts : List String → String × String
unfolding ssh_path
ssh_parts (host ∷ path ∷ []) = ssh_path (split b'/' path)
ssh_parts parts = ("", "")

-- The owner and the repository of a remote URL, as setGitInfo parses it.
unfoldable pub parse_remote : String → String × String
unfolding last_two ssh_parts
parse_remote url =
    if has_prefix url "http"
    then last_two (split b'/' url)
    else if has_prefix url "git@"
    then ssh_parts (split b':' url)
    else ("", "")

-- `GitInfoFromEnv`, on `os.LookupEnv`: all four variables must be set.
unfoldable pub git_info_from_env : (String → Option String) → Option Git
git_info_from_env look = elim (look "GITHUB_REPOSITORY_OWNER") [
  | none ↦ none
  | some owner ↦ elim (look "GITHUB_REPOSITORY_NAME") [
    | none ↦ none
    | some repo ↦ elim (look "GITHUB_HEAD_REF") [
      | none ↦ none
      | some branch ↦ elim (look "GITHUB_REF") [
        | none ↦ none
        | some ref ↦ some (record {
          owner = owner;
          repo = repo;
          branch = or_same branch (strip_prefix? "refs/heads/" branch);
          tag = or_same ref (strip_prefix? "refs/tags/" ref);
          pr_num = "";
        })
      ]
    ]
  ]
]

-- The reading of the commands, in the order of setGitInfo.
git_info_from_commands : GitCommand → Option Git
unfolding parse_remote
git_info_from_commands cmd = elim cmd.remote_url [
  | none ↦ none
  | some url ↦ elim cmd.branch [
    | none ↦ none
    | some branch ↦ elim cmd.pr_number [
      | none ↦ none
      | some pr ↦ elim cmd.tag [
        | none ↦ none
        | some tag ↦ some (record {
          owner = (parse_remote url).0;
          repo = (parse_remote url).1;
          branch = branch;
          tag = tag;
          pr_num = pr;
        })
      ]
    ]
  ]
]

-- A value that was found becomes the state.
abbrev pub remember : Option Git → Option Git × Option Git
remember found = (found, found)

-- `setGitInfo`: what it answers, and the state after it.
unfoldable pub set_git_info :
    (String → Option String) → GitCommand → Option Git → Option Git × Option Git
unfolding git_info_from_commands git_info_from_env
set_git_info look cmd (some g) = (some g, some g)
set_git_info look cmd none =
    if not cmd.exists_
    then remember (git_info_from_env look)
    else remember (git_info_from_commands cmd)

-- `SetUnknowGitInfo`
unfoldable pub set_unknown_git_info : Git
set_unknown_git_info = record {
  owner = "unknown";
  repo = "unknown";
  branch = "unknown";
  tag = "";
  pr_num = "";
}
