-- ===== src/Svc/Git/Remote.antt =====
-- The owner and the repository of a remote URL.
use Prim.Native.Char.{Char, code}
use engine_ci.Base.{
  ℕ, String, ◌⧺◌, false, true, List, [], ◌∷◌, ◌++◌, ◌≡◌, refl, ap, ◌∙◌, sym, arith, ◌||◌, has_char,
  split, split-append, split-no_sep, split-middle, single-⧺, nil-⧺, cons-⧺, Option, none, some,
  split-cons, ⧺_assoc, has_prefix, strip_prefix?, strip_prefix?-append, trim_suffix,
  trim_suffix-append,
}
use engine_ci.Svc.Git.{last_two, ssh_path, ssh_parts, parse_remote}

last_two-append :
    (x : String) (xs : List String) (a b : String)
    → last_two (x ∷ (xs ++ a ∷ b ∷ [])) ≡ (a, trim_suffix b ".git")
unfolding last_two
last_two-append x [] a b = refl
last_two-append x (y ∷ []) a b = refl
last_two-append x (y ∷ z ∷ zs) a b = last_two-append y (z ∷ zs) a b

has_char-append : (c : ℕ) (s t : String) → has_char c (s ⧺ t) ≡ (has_char c s || has_char c t)
unfolding has_char
has_char-append c String.[] t = ap (has_char c) (nil-⧺ t)
has_char-append c (String.◌∷◌ x s) t =
    ap (has_char c) (cons-⧺ x s t) ∙ ground (arith, has_char-append c s t)

-- The path of a repository, split at its separator.
split-path :
    (owner file : String)
    → has_char b'/' owner ≡ false
    → has_char b'/' file ≡ false
    → split b'/' (owner ⧺ String.◌∷◌ "/" file) ≡ owner ∷ file ∷ []
split-path owner file h k =
    split-append b'/' "/" owner file h refl ∙ ap (◌∷◌ owner) (split-no_sep b'/' file k)

has_prefix-append : (p rest : String) → has_prefix (p ⧺ rest) p ≡ true
unfolding has_prefix
has_prefix-append p rest =
    ap (λ (o : Option String). elim o [ none ↦ false | some r ↦ true ])
      (strip_prefix?-append p rest)

git_not_http : (rest : String) → has_prefix ("git@" ⧺ rest) "http" ≡ false
unfolding has_prefix strip_prefix?
git_not_http rest = ap (λ s. has_prefix s "http") (cons-⧺ "g" "it@" rest)

-- The two tests with which the parsing begins.
parse_remote-http :
    (rest : String) → parse_remote ("http" ⧺ rest) ≡ last_two (split b'/' ("http" ⧺ rest))
unfolding parse_remote
parse_remote-http rest = rw (has_prefix-append "http" rest) refl

parse_remote-ssh :
    (rest : String) → parse_remote ("git@" ⧺ rest) ≡ ssh_parts (split b':' ("git@" ⧺ rest))
unfolding parse_remote
parse_remote-ssh rest = rw (git_not_http rest, has_prefix-append "git@" rest) refl

-- A front, a separator and the rest, as one split reads them.
split-front :
    (sep : ℕ) (c : Char) (p front rest : String)
    → code c ≡ sep
    → split sep (p ⧺ front ⧺ String.◌∷◌ c rest) ≡ split sep (p ⧺ front) ++ split sep rest
split-front sep c p front rest e =
    ap (split sep) (sym (⧺_assoc p front (String.◌∷◌ c rest)))
    ∙ split-middle sep c (p ⧺ front) rest e

parse-http :
    (base owner repo : String)
    → has_char b'/' owner ≡ false
    → has_char b'/' (repo ⧺ ".git") ≡ false
    → parse_remote ("http" ⧺ base ⧺ "/" ⧺ owner ⧺ "/" ⧺ repo ⧺ ".git") ≡ (owner, repo)
parse-http base owner repo h k =
    let file = repo ⧺ ".git" in
    let path = owner ⧺ String.◌∷◌ "/" file in
    let (p, ps, q) = split-cons b'/' ("http" ⧺ base) in
    rw (single-⧺ "/" file, single-⧺ "/" path)
      (parse_remote-http (base ⧺ String.◌∷◌ "/" path)
        ∙ ap last_two (
            split-front b'/' "/" "http" base path refl
            ∙ ap (λ xs. xs ++ split b'/' path) q
            ∙ ap (λ xs. p ∷ (ps ++ xs)) (split-path owner file h k))
        ∙ last_two-append p ps owner file
        ∙ ap (λ r. (owner, r)) (trim_suffix-append repo ".git"))

parse-ssh :
    (host owner repo : String)
    → has_char b':' host ≡ false
    → has_char b'/' owner ≡ false
    → has_char b':' owner ≡ false
    → has_char b'/' (repo ⧺ ".git") ≡ false
    → has_char b':' (repo ⧺ ".git") ≡ false
    → parse_remote ("git@" ⧺ host ⧺ ":" ⧺ owner ⧺ "/" ⧺ repo ⧺ ".git") ≡ (owner, repo)
unfolding ssh_parts ssh_path has_char
parse-ssh host owner repo h1 h2 h3 h4 h5 =
    let file = repo ⧺ ".git" in
    let path = owner ⧺ String.◌∷◌ "/" file in
    let front = split-no_sep b':' ("git@" ⧺ host) (has_char-append b':' "git@" host ∙ h1) in
    let back =
      split-no_sep b':' path
        (has_char-append b':' owner (String.◌∷◌ "/" file) ∙ ground (arith, h3, h5)) in
    rw (single-⧺ "/" file, single-⧺ ":" path)
      (parse_remote-ssh (host ⧺ String.◌∷◌ ":" path)
        ∙ ap ssh_parts (
            split-front b':' ":" "git@" host path refl
            ∙ ap (λ xs. xs ++ split b':' path) front
            ∙ ap (λ xs. ("git@" ⧺ host) ∷ xs) back)
        ∙ ap ssh_path (split-path owner file h2 h4)
        ∙ ap (λ r. (owner, r)) (trim_suffix-append repo ".git"))

-- The HTTP URL and the SSH URL of a repository, both ending in .git, name the same owner and repository,
-- if the SSH host holds no colon and neither the owner nor the repository a slash or a colon.
pub parse_remote_lem :
    (base host owner repo : String)
    → has_char b':' host ≡ false
    → has_char b'/' owner ≡ false
    → has_char b':' owner ≡ false
    → has_char b'/' (repo ⧺ ".git") ≡ false
    → has_char b':' (repo ⧺ ".git") ≡ false
    → (parse_remote ("http" ⧺ base ⧺ "/" ⧺ owner ⧺ "/" ⧺ repo ⧺ ".git") ≡ (owner, repo))
      × (parse_remote ("git@" ⧺ host ⧺ ":" ⧺ owner ⧺ "/" ⧺ repo ⧺ ".git") ≡ (owner, repo))
parse_remote_lem base host owner repo h1 h2 h3 h4 h5 =
    (parse-http base owner repo h2 h4, parse-ssh host owner repo h1 h2 h3 h4 h5)
