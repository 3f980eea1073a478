-- ===== src/Utils/Values.antt =====
-- What the functions that read several names answer.
use engine_ci.Base.{
  String, ◌&&◌, not, none, some, List, [], ◌∷◌, ◌==◌, ◌≡◌, sym, ap, ◌∙◌, arith, Bool-cases,
  contains, eq_iff, Option-cases, inl, inr, if◌then◌else◌, Dict, lookup, lookup-insert,
}
use engine_ci.Utils.Environment.{World, get_env, get_all_envs}

-- GetAllEnvs holds a name exactly if it was asked for and its value is not empty, and then with the
-- value that GetEnv answers for it.
pub get_all_envs_lem :
    (w : World) (ks : List String) (env_type : String) (envs : Dict String) (k v : String)
    → get_all_envs w ks env_type ≡ some envs
    → get_env w k env_type ≡ some v
    → lookup k envs ≡ (if contains ks k && not (v == "") then some v else none)
unfolding get_all_envs lookup
get_all_envs_lem w [] env_type envs k v h e = ground arith
get_all_envs_lem w (j ∷ ks) env_type envs k v h e = elim (Option-cases (get_env w j env_type)) [
  | inl q ↦ absurd (ground arith)
  | inr (u, q) ↦ elim (Option-cases (get_all_envs w ks env_type)) [
    | inl r ↦ absurd (ground arith)
    | inr (rest, r) ↦
        let ih = get_all_envs_lem w ks env_type rest k v r e in
        elim (Bool-cases (j == k)) [
          | inl s ↦
              let same = ap (λ i. get_env w i env_type) ((eq_iff j k).0 s) in
              let value : some u ≡ some v = sym q ∙ same ∙ e in
              ground (arith, ih, value, lookup-insert j k u rest, s)
          | inr s ↦ ground (arith, ih, lookup-insert j k u rest, s)
        ]
  ]
]
