-- ===== src/Engine/Images/Uri.antt =====
-- The parts of an image's URI.
use engine_ci.Base.{
  String, ◌⧺◌, false, ◌≡◌, refl, ap, ◌∙◌, sym, has_char, cut_last-append, single-⧺, cons-⧺, ⧺_assoc,
}
use engine_ci.Engine.Images.{split_registry, parse_image_uri}

uri_text :
    (registry name tag : String)
    → registry ⧺ "/" ⧺ name ⧺ ":" ⧺ tag ≡ (registry ⧺ String.◌∷◌ "/" name) ⧺ String.◌∷◌ ":" tag
uri_text registry name tag =
    rw (single-⧺ "/" (name ⧺ ":" ⧺ tag), single-⧺ ":" tag)
      (sym (
        ⧺_assoc registry (String.◌∷◌ "/" name) (String.◌∷◌ ":" tag)
        ∙ ap (λ s. registry ⧺ s) (cons-⧺ "/" name (String.◌∷◌ ":" tag))))

-- A URI of a registry, a name without a slash and a tag without a colon is taken apart into these
-- three, also if the registry holds slashes and colons; the other fields are the step's.
pub parse_image_uri_lem :
    (dir : String → String) (registry name tag dockerfile step : String)
    → has_char b'/' name ≡ false
    → has_char b':' tag ≡ false
    → parse_image_uri dir (registry ⧺ "/" ⧺ name ⧺ ":" ⧺ tag) dockerfile step ≡ record {
      uri = registry ⧺ "/" ⧺ name ⧺ ":" ⧺ tag;
      name = name;
      tag = tag;
      registry = registry;
      dockerfile = dockerfile;
      context = dir dockerfile;
      build_step = step;
    }
unfolding parse_image_uri split_registry
parse_image_uri_lem dir registry name tag dockerfile step hn ht = rw (uri_text registry name tag) (
    rw (cut_last-append b':' ":" (registry ⧺ String.◌∷◌ "/" name) tag ht refl, parse_image_uri)
      (rw (cut_last-append b'/' "/" registry name hn refl, split_registry)))
