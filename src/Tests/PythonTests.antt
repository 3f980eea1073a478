-- ===== src/Tests/PythonTests.antt =====
-- Python projects.
use engine_ci.Base.{true, false, none, ◌≡◌, ◌≢◌, refl, has_text}
use engine_ci.Python.Builder.{Files, analyze, build_plan, install_plan, contains_section}
use engine_ci.Python.Builder.Planned.{analyze-plans}

-- A project with both lock files.
abbrev two_locks : Files
two_locks = record {
  pyproject_content = "[tool.poetry]";
  has_pyproject = true;
  has_requirements = false;
  has_poetry_lock = true;
  has_uv_lock = true;
}

-- uv comes before poetry.
uv_first : analyze two_locks ≡ "uv"
unfolding analyze contains_section has_text
uv_first = refl

analyze-plans_example :
    (build_plan (analyze two_locks) two_locks ≢ none) × (install_plan (analyze two_locks) ≢ none)
analyze-plans_example = analyze-plans two_locks
