-- ===== src/Golang/Script/Artifacts.antt =====
-- The artifacts of a build script: the files that its commands write.
use engine_ci.Base.{
  String, ◌⧺◌, Bool, true, false, List, [], ◌∷◌, ◌++◌, ◌==◌, ◌≡◌, refl, arith, ap, sym, ◌∙◌,
  if◌then◌else◌, map, Bool-cases, inl, inr, append_assoc, append-nil,
}
use engine_ci.Cri.Platform.{PlatformSpec}
use engine_ci.Golang.Script.{
  BuildScript, new_build_script, file_name, compiled, compile_all, go_build_cmds, script,
}

compiled-output :
    (p : PlatformSpec) (bs : BuildScript)
    → bs.has_output ≡ true
    → compiled p bs ≡ record bs { artifacts = bs.artifacts ++ file_name bs p ∷ [] }
unfolding compiled
compiled-output p bs h = ground (arith, h)

compile_all-artifacts :
    (ps : List PlatformSpec) (bs : BuildScript)
    → bs.has_output ≡ true
    → (compile_all ps bs).1.artifacts ≡ bs.artifacts ++ map (file_name bs) ps
unfolding compile_all compiled file_name
compile_all-artifacts [] bs h = sym (append-nil bs.artifacts)
compile_all-artifacts (p ∷ ps) bs h =
    let next : BuildScript = record bs { artifacts = bs.artifacts ++ file_name bs p ∷ [] } in
    ap (λ b. (compile_all ps b).1.artifacts) (compiled-output p bs h)
    ∙ compile_all-artifacts ps next h
    ∙ append_assoc bs.artifacts (file_name bs p ∷ []) (map (file_name bs) ps)

compile_all-none :
    (ps : List PlatformSpec) (bs : BuildScript) → bs.has_output ≡ false → (compile_all ps bs).1 ≡ bs
unfolding compile_all compiled
compile_all-none [] bs h = refl
compile_all-none (p ∷ ps) bs h = ground (arith, h, compile_all-none ps bs h)

-- A script names one artifact for each platform, in their order, and none if there is no main file.
pub script-artifacts :
    (detect : String → Bool) (app main_file folder : String) (tags : List String)
    (verbose no_coverage : Bool) (coverage_mode mode : String) (ps : List PlatformSpec)
    → (script (
        new_build_script detect app main_file folder tags verbose no_coverage coverage_mode mode
          ps)).1.artifacts
      ≡ (if main_file == "" then [] else map (λ p. app ⧺ "-" ⧺ p.os ⧺ "-" ⧺ p.architecture) ps)
unfolding script go_build_cmds new_build_script file_name
script-artifacts detect app main_file folder tags verbose no_coverage coverage_mode mode ps =
    let bs =
      new_build_script detect app main_file folder tags verbose no_coverage coverage_mode mode ps in
    elim (Bool-cases (main_file == "")) [
      | inl e ↦
          ap (λ b. b.artifacts) (compile_all-none ps bs (ground (arith, e))) ∙ ground (arith, e)
      | inr e ↦ compile_all-artifacts ps bs (ground (arith, e)) ∙ ground (arith, e)
    ]
