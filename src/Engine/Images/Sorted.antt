-- ===== src/Engine/Images/Sorted.antt =====
-- Which images are collected, and in which order.
use engine_ci.Base.{
  String, Bool, false, ◌&&◌, ◌||◌, not, List, [], ◌∷◌, ◌==◌, ◌≡◌, refl, ◌∙◌, arith, if◌then◌else◌,
  contains, has_text, count, eq_iff, text_lt, text_lt-asym, Bool-cases, inl, inr,
}
use engine_ci.Container.Build.{Build}
use engine_ci.Pipeline.Step.{Context, IntermediateImage}
use engine_ci.Engine.Images.{
  ImageInfo, parse_image_uri, intermediate, collect, insert_by_uri, sort_by_uri, collect_images,
}

abbrev pub uris : List ImageInfo → List String
uris [] = []
uris (x ∷ xs) = x.uri ∷ uris xs

count-insert_by_uri :
    (a : String) (x : ImageInfo) (xs : List ImageInfo)
    → count a (uris (insert_by_uri x xs)) ≡ count a (x.uri ∷ uris xs)
unfolding insert_by_uri count
count-insert_by_uri a x [] = refl
count-insert_by_uri a x (y ∷ ys) = ground (arith, count-insert_by_uri a x ys)

count-sort_by_uri :
    (a : String) (xs : List ImageInfo) → count a (uris (sort_by_uri xs)) ≡ count a (uris xs)
unfolding sort_by_uri count
count-sort_by_uri a [] = refl
count-sort_by_uri a (x ∷ xs) =
    ground (arith, count-insert_by_uri a x (sort_by_uri xs), count-sort_by_uri a xs)

uri-parse_image_uri :
    (dir : String → String) (uri dockerfile step : String)
    → (parse_image_uri dir uri dockerfile step).uri ≡ uri
unfolding parse_image_uri
uri-parse_image_uri dir uri dockerfile step = ground arith

-- Some step names the image, whose URI is of the registry that the engine pushes to.
abbrev pub named : String → List (String × IntermediateImage) → Bool
named a [] = false
named a ((step, i) ∷ rest) = i.uri == a || named a rest

count-collect :
    (dir : String → String) (a : String) (seen : List String)
    (xs : List (String × IntermediateImage))
    → count a (uris (collect dir seen xs))
      ≡ (if has_text a "containifyci/" && not (contains seen a) && named a xs then 1 else 0)
unfolding collect count
count-collect dir a seen [] = ground arith
count-collect dir a seen ((step, i) ∷ xs) = ground (
  arith,
  eq_iff i.uri a,
  uri-parse_image_uri dir i.uri i.dockerfile step,
  count-collect dir a seen xs,
  count-collect dir a (i.uri ∷ seen) xs,
)

abbrev Precedes : ImageInfo → List ImageInfo → Type 0
Precedes x [] = Unit
Precedes x (y ∷ ys) = text_lt y.uri x.uri ≡ false

-- No image stands behind one with a greater URI.
abbrev pub IsSorted : List ImageInfo → Type 0
IsSorted [] = Unit
IsSorted (x ∷ xs) = Precedes x xs × IsSorted xs

insert_by_uri-Precedes :
    (x y : ImageInfo) (ys : List ImageInfo)
    → text_lt x.uri y.uri ≡ false
    → Precedes y ys
    → Precedes y (insert_by_uri x ys)
unfolding insert_by_uri
insert_by_uri-Precedes x y [] e h = e
insert_by_uri-Precedes x y (z ∷ ys) e h = elim (Bool-cases (text_lt z.uri x.uri)) [
  | inl f ↦ rw f h
  | inr f ↦ rw f e
]

insert_by_uri-IsSorted :
    (x : ImageInfo) (xs : List ImageInfo) → IsSorted xs → IsSorted (insert_by_uri x xs)
unfolding insert_by_uri
insert_by_uri-IsSorted x [] h = (tt, tt)
insert_by_uri-IsSorted x (y ∷ ys) h = elim (Bool-cases (text_lt y.uri x.uri)) [
  | inl e ↦ rw e (
    insert_by_uri-Precedes x y ys (text_lt-asym y.uri x.uri e) h.0,
    insert_by_uri-IsSorted x ys h.1,
  )
  | inr e ↦ rw e (e, h)
]

sort_by_uri-IsSorted : (xs : List ImageInfo) → IsSorted (sort_by_uri xs)
unfolding sort_by_uri
sort_by_uri-IsSorted [] = tt
sort_by_uri-IsSorted (x ∷ xs) = insert_by_uri-IsSorted x (sort_by_uri xs) (sort_by_uri-IsSorted xs)

count-collect_images :
    (dir : String → String) (b : Build) (steps : List Context) (a : String)
    → count a (uris (collect_images dir b steps))
      ≡ (if has_text a "containifyci/" && named a (intermediate b steps) then 1 else 0)
unfolding collect_images
count-collect_images dir b steps a =
    count-sort_by_uri a (collect dir [] (intermediate b steps))
    ∙ count-collect dir a [] (intermediate b steps)
    ∙ ground arith

-- The collection is sorted by URI, and lists the URI of an image exactly once if it holds the registry
-- of the intermediate images and some step of the pipeline names it, and otherwise not at all.
pub collect_images_lem :
    (dir : String → String) (b : Build) (steps : List Context) (a : String)
    → IsSorted (collect_images dir b steps)
      × (count a (uris (collect_images dir b steps))
          ≡ (if has_text a "containifyci/" && named a (intermediate b steps) then 1 else 0))
unfolding collect_images
collect_images_lem dir b steps a = (
  sort_by_uri-IsSorted (collect dir [] (intermediate b steps)),
  count-collect_images dir b steps a,
)
