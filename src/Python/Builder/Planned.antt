-- ===== src/Python/Builder/Planned.antt =====
-- The plan for the tool that Analyze chooses.
use engine_ci.Base.{
  true, not, ◌&&◌, ◌||◌, none, ◌≡◌, ◌≢◌, ◌⊎◌, arith, has_text, Bool-cases, inl, inr,
}
use engine_ci.Python.Builder.{
  Files, analyze, build_plan, install_plan, contains_section, tool_uv, tool_poetry, tool_pip,
}

-- pip is only chosen for a project with requirements.txt or pyproject.toml.
analyze-cases :
    (f : Files)
    → (analyze f ≡ tool_uv)
      ⊎ ((analyze f ≡ tool_poetry)
          ⊎ ((analyze f ≡ tool_pip) × ((f.has_requirements || f.has_pyproject) ≡ true)))
unfolding analyze
analyze-cases f =
    elim (Bool-cases (
      contains_section f.pyproject_content "tool.uv"
      || f.has_uv_lock
      || has_text f.pyproject_content "[dependency-groups]")) [
        | inl e ↦ inl (ground (arith, e))
        | inr e ↦
            elim (Bool-cases
              (contains_section f.pyproject_content "tool.poetry" || f.has_poetry_lock)) [
                | inl d ↦ inr (inl (ground (arith, e, d)))
                | inr d ↦
                    elim (Bool-cases (
                      f.has_requirements
                      || (f.has_pyproject
                          && not (contains_section f.pyproject_content "tool.poetry")))) [
                            | inl c ↦ inr (inr (ground (arith, e, d, c), ground (arith, c)))
                            | inr c ↦ inl (ground (arith, e, d, c))
                          ]
              ]
      ]

build_plan-pip :
    (f : Files) → (f.has_requirements || f.has_pyproject) ≡ true → build_plan tool_pip f ≢ none
unfolding build_plan
build_plan-pip f h e = ground (arith, h, e)

-- Build and Install both have a plan for the tool that Analyze has chosen, whatever the files are: neither
-- of their errors can come up.
pub analyze-plans :
    (f : Files) → (build_plan (analyze f) f ≢ none) × (install_plan (analyze f) ≢ none)
unfolding build_plan install_plan
analyze-plans f = elim (analyze-cases f) [
  | inl e ↦ rw e (λ h. ground (arith, h), λ h. ground (arith, h))
  | inr (inl e) ↦ rw e (λ h. ground (arith, h), λ h. ground (arith, h))
  | inr (inr (e, r)) ↦ rw e (build_plan-pip f r, λ h. ground (arith, h))
]
