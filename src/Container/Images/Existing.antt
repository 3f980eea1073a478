-- ===== src/Container/Images/Existing.antt =====
-- ImageExists: for which platforms an image can be there.
use engine_ci.Base.{
  String, true, false, Option, none, some, List, [], ◌∷◌, ◌==◌, ◌≡◌, ◌≢◌, refl, arith, sym, subst,
  ◌∙◌, contains, Bool-cases, inl, inr, eq_iff, Option-cases,
}
use engine_ci.Cri.Manager.{Result, ok, err, crash, ImageInfo, Result-cases}
use engine_ci.Container.Action.{Outside, State, returned}
use engine_ci.Container.Images.{image_exists, exists_loop, all_found, mark, platform_text}

-- An image is shown with a platform, or the loop ends with its inspection.
data Shown (r : Result ImageInfo) : Type 0 where
  with_platform :
      (j : ImageInfo) (t : String) → r ≡ ok j → platform_text j.platform ≡ some t → Shown r
  without : (j : ImageInfo) → r ≡ ok j → platform_text j.platform ≡ none → Shown r
  refused : (e : String) → r ≡ err e → Shown r
  broken : r ≡ crash → Shown r

info-Shown : (r : Result ImageInfo) → Shown r
info-Shown (ok j) = elim (Option-cases (platform_text j.platform)) [
  | inl e ↦ without j refl e
  | inr (t, e) ↦ with_platform j t refl e
]
info-Shown (err e) = refused e refl
info-Shown crash = broken refl

abbrev or_empty : Option String → String
or_empty none = ""
or_empty (some t) = t

abbrev shown : Result ImageInfo → String
shown (ok j) = or_empty (platform_text j.platform)
shown (err e) = ""
shown crash = ""

abbrev Only : String → List String → Type 0
Only p found = (q : String) → contains found q ≡ true → q ≡ p

mark-Only :
    (p : String) (platforms found : List String) → Only p found → Only p (mark p platforms found)
mark-Only p platforms found h q m = ground (arith, h q, eq_iff q p, eq_iff p q)

all_found-Only :
    (p : String) (platforms found : List String) (q : String)
    → Only p found
    → all_found platforms found ≡ true
    → contains platforms q ≡ true
    → q ≡ p
all_found-Only p [] found q h a m = ground (arith, m)
all_found-Only p (x ∷ xs) found q h a m =
    ground (arith, all_found-Only p xs found q h, h q, eq_iff q x, eq_iff x q)

module _ {W : Type 0} (o : Outside W) (image : String) (info : Result ImageInfo)
    (inspected : (w : W) → o.manager.inspect_image image w ≡ (info, w)) where
  abbrev Shows : String → Type 0
  Shows p = (i : ImageInfo) (t : String) → info ≡ ok i → platform_text i.platform ≡ some t → t ≡ p

  exists_loop-Only :
      (p : String) (platforms found images : List String) (s : State W) (q : String)
      → Shows p
      → Only p found
      → (exists_loop o image platforms found images s).0 ≡ returned true
      → contains platforms q ≡ true
      → q ≡ p
  unfolding exists_loop
  exists_loop-Only p platforms found [] s q k h e m =
      all_found-Only p platforms found q h (ground (arith, e)) m
  exists_loop-Only p [] found (i ∷ is) s q k h e m = ground (arith, m)
  exists_loop-Only p (x ∷ xs) found (i ∷ is) s q k h e m = elim (Bool-cases (i == image)) [
    | inr f ↦ exists_loop-Only p (x ∷ xs) found is s q k h (ground (arith, e, f)) m
    | inl f ↦ elim (info-Shown info) [
      | with_platform j t a b ↦
          exists_loop-Only p (x ∷ xs) (mark t (x ∷ xs) found) is s q k
            (subst (λ u. Only p (mark u (x ∷ xs) found)) (sym (k j t a b))
              (mark-Only p (x ∷ xs) found h))
            (ground (arith, e, f, inspected s.runtime)) m
      | without j a b ↦ absurd (ground (arith, e, f, inspected s.runtime))
      | refused e' a ↦ absurd (ground (arith, e, f, inspected s.runtime))
      | broken a ↦ absurd (ground (arith, e, f, inspected s.runtime))
    ]
  ]

  nothing : Only (shown info) []
  nothing q m = ground (arith, m)

  shown-Shows : Shows (shown info)
  shown-Shows j t e k = ground (arith, e, k)

  one_platform :
      (platforms : List String) (s : State W) (p q : String)
      → (image_exists o image platforms s).0 ≡ returned true
      → contains platforms p ≡ true
      → contains platforms q ≡ true
      → p ≡ q
  unfolding image_exists
  one_platform platforms s p q e mp mq =
      let listed = o.manager.list_image image s.runtime in
      let s' : State W = record s { runtime = listed.1 } in
      elim (Result-cases listed.0) [
        | inl (images, l) ↦
            let only : (q : String) → contains platforms q ≡ true → q ≡ shown info = λ q m.
              exists_loop-Only (shown info) platforms [] images s' q shown-Shows nothing
                (ground (arith, e, l)) m in
            only p mp ∙ sym (only q mq)
        | inr r ↦ absurd (ground (arith, e, r))
      ]

  -- If inspecting the image always gives the same answer, then ImageExists never answers true for a list
  -- with two different platforms, whatever the runtime holds.
  pub image_exists-two_platforms :
      (platforms : List String) (s : State W) (p q : String)
      → contains platforms p ≡ true
      → contains platforms q ≡ true
      → (p == q) ≡ false
      → (image_exists o image platforms s).0 ≢ returned true
  image_exists-two_platforms platforms s p q mp mq d e =
      ground (arith, one_platform platforms s p q e mp mq, d, eq_iff p q)
