-- ===== src/Python/Builder.antt =====
-- pkg/python/builder.go and buildscript.go. The files of the project are what is read and what exists in
-- the folder; `upper` is strings.ToUpper.
pub mod Planned
use engine_ci.Base.{
  String, ◌⧺◌, Bool, true, false, not, ◌&&◌, ◌||◌, Option, none, some, List, [], ◌∷◌, ◌++◌, ◌==◌,
  if◌then◌else◌, join, split, has_text, map,
}

-- What Analyze and Build look at.
pub record Files : Type 0 where
  -- the content of pyproject.toml, empty if it cannot be read
  pub pyproject_content : String
  pub has_pyproject : Bool
  pub has_requirements : Bool
  pub has_poetry_lock : Bool
  pub has_uv_lock : Bool

-- `Tool`, as the text of the constant.
abbrev pub tool_uv : String
tool_uv = "uv"

abbrev pub tool_poetry : String
tool_poetry = "poetry"

abbrev pub tool_pip : String
tool_pip = "pip"

-- `containsSection`
unfoldable pub contains_section : String → String → Bool
contains_section toml dotted =
    has_text toml ("[" ⧺ dotted ⧺ "]") || has_text toml ("[" ⧺ dotted ⧺ ".")

-- `Analyze`
unfoldable pub analyze : Files → String
analyze f =
    if contains_section f.pyproject_content "tool.uv"
      || f.has_uv_lock
      || has_text f.pyproject_content "[dependency-groups]"
    then tool_uv
    else if contains_section f.pyproject_content "tool.poetry" || f.has_poetry_lock
    then tool_poetry
    else if f.has_requirements
        || (f.has_pyproject && not (contains_section f.pyproject_content "tool.poetry"))
    then tool_pip
    else tool_uv

abbrev pub Commands : Type 0
Commands = List (List String)

-- `Commands.String`
unfoldable pub commands_text : Commands → String
commands_text cs = join "\n" (map (join " ") cs)

abbrev uv_plan : Files → Commands
uv_plan f = ("uv" ∷ "sync" ∷ []) ∷ (if f.has_pyproject then ("uv" ∷ "build" ∷ []) ∷ [] else [])

abbrev pip_plan : Files → Option Commands
pip_plan f =
    if f.has_requirements
    then some (("python3" ∷ "-m" ∷ "pip" ∷ "install" ∷ "-r" ∷ "requirements.txt" ∷ []) ∷ [])
    else if f.has_pyproject
    then some (
        ("python3" ∷ "-m" ∷ "pip" ∷ "install" ∷ "--upgrade" ∷ "pip" ∷ "build" ∷ [])
        ∷ ("python3" ∷ "-m" ∷ "build" ∷ "--wheel" ∷ "--sdist" ∷ [])
        ∷ [])
    else none

-- `Build`, for the tool that was chosen; an error is none.
unfoldable pub build_plan : String → Files → Option Commands
build_plan tool f =
    if tool == tool_uv
    then some (uv_plan f)
    else if tool == tool_poetry
    then some (("poetry" ∷ "install" ∷ "--no-interaction" ∷ []) ∷ ("poetry" ∷ "build" ∷ []) ∷ [])
    else if tool == tool_pip
    then pip_plan f
    else none

abbrev install_with : String → Option Commands
install_with command =
    some (("ls" ∷ "-lha" ∷ "/app/dist/" ∷ []) ∷ ("bash" ∷ "-c" ∷ command ∷ []) ∷ [])

-- `Install`
unfoldable pub install_plan : String → Option Commands
install_plan tool =
    if tool == tool_uv
    then install_with "uv run pip install --no-cache /app/dist/*.whl"
    else if tool == tool_poetry
    then install_with "poetry run pip install --no-cache /app/dist/*.whl"
    else if tool == tool_pip
    then install_with "pip install --no-cache /app/dist/*.whl"
    else none

module _ (upper : String → String) where
  -- `PrivateIndex.String`
  unfoldable pub index_name : String → String
  index_name pi = join "_" (split b'-' (upper pi))

  unfoldable pub index_username : String → String
  index_username pi =
      if pi == "" then "" else "UV_INDEX_" ⧺ index_name pi ⧺ "_USERNAME=oauth2accesstoken"

  unfoldable pub index_environ : String → String
  index_environ pi =
      if pi == ""
      then ""
      else "export UV_INDEX_"
        ⧺ index_name pi
        ⧺ "_PASSWORD=\"$(curl -fsS -H \"Authorization: Bearer ${CONTAINIFYCI_AUTH}\" \"${CONTAINIFYCI_HOST}/mem/accesstoken\")\""

  -- `Script`, which is the same whether it is verbose or not.
  unfoldable pub build_script : String → String → Commands → String
  build_script folder private_index commands =
      "#!/bin/sh\nset -e\n"
      ⧺ index_environ private_index
      ⧺ "\nset -xe\ncd "
      ⧺ folder
      ⧺ "\n"
      ⧺ commands_text commands
      ⧺ "\n"
