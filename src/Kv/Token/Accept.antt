-- ===== src/Kv/Token/Accept.antt =====
-- Which tokens are accepted, and for how long.
use Prim.Native.Char.{Char, code}
use engine_ci.Base.{
  ℕ, zero, suc, ◌+◌, ◌*◌, ◌/◌, String, ◌⧺◌, true, false, some, List, [], ◌∷◌, ◌≡◌, ◌↔◌, refl, ap,
  ◌∙◌, arith, ltb, eqb, not, cut, cut-append, cut-some, has_char, single-⧺, ⧺_assoc, ℤ, pos, negsuc,
  eq_refl, eq_iff, Option-cases, Bool-cases, inl, inr, ◌⊎◌, ◌<◌, ◌≤◌,
}
use engine_ci.Kv.Token.{
  Primitives, letters, char_at, random_string, payload, generate_token, is_expired, check_signed,
  check_parts, validate_token,
}

-- What is relied on of Go's decimal notation, for the numbers of an int64.
pub record IsDecimal (p : Primitives) : Type 0 where
  pub parse_format :
      (n : ℕ) → n < 9223372036854775808 → p.parse_int (p.format_int (pos n)) ≡ some (pos n)
  pub no_dot : (n : ℕ) → has_char b'.' (p.format_int (pos n)) ≡ false

-- The numbers that `rand.Int` draws for a nonce.
abbrev pub AreDraws : List ℕ → Type 0
AreDraws [] = Unit
AreDraws (d ∷ ds) = (d < 62) × AreDraws ds

char_at-no_dot :
    (i : ℕ) (s : String) (c : Char)
    → has_char b'.' s ≡ false
    → char_at i s ≡ some c
    → eqb (code c) b'.' ≡ false
unfolding char_at has_char
char_at-no_dot i String.[] c h e = cc
char_at-no_dot zero (String.◌∷◌ x s) c h e = ground arith
char_at-no_dot (suc i) (String.◌∷◌ x s) c h e = char_at-no_dot i s c (ground arith) e

abbrev count_chars : String → ℕ
count_chars String.[] = 0
count_chars (String.◌∷◌ c s) = suc (count_chars s)

char_at-below : (i : ℕ) (s : String) → i < count_chars s → (c : Char) × (char_at i s ≡ some c)
unfolding char_at
char_at-below i String.[] h = absurd (omega arith)
char_at-below zero (String.◌∷◌ c s) h = (c, refl)
char_at-below (suc i) (String.◌∷◌ c s) h = char_at-below i s (ground arith)

random_string-no_dot :
    (ds : List ℕ)
    → AreDraws ds
    → (nonce : String) × (random_string ds ≡ some nonce) × (has_char b'.' nonce ≡ false)
unfolding random_string has_char
random_string-no_dot [] h = ("", refl, refl)
random_string-no_dot (d ∷ ds) h =
    let (c, e) = char_at-below d letters h.0 in
    let (rest, r, n) = random_string-no_dot ds h.1 in
    (
      String.◌∷◌ c rest,
      rw (e, r, random_string) refl,
      ground (arith, char_at-no_dot d letters c refl e),
    )

module _ (p : Primitives) where
  cut_token :
      (timestamp nonce sig secret : String) (max_age now : ℕ)
      → has_char b'.' timestamp ≡ false
      → has_char b'.' nonce ≡ false
      → validate_token p (timestamp ⧺ "." ⧺ nonce ⧺ "." ⧺ sig) secret max_age now
        ≡ check_parts p timestamp nonce sig secret max_age now
  unfolding validate_token
  cut_token timestamp nonce sig secret max_age now ht hn =
      rw (single-⧺ "." (nonce ⧺ "." ⧺ sig), single-⧺ "." sig)
        (rw (cut-append b'.' "." timestamp (nonce ⧺ String.◌∷◌ "." sig) ht refl, validate_token)
          (rw (cut-append b'.' "." nonce sig hn refl, validate_token)))

module _ (p : Primitives) (decimal : IsDecimal p) where
  generated_text :
      (t : ℤ) (nonce sig : String)
      → payload p t nonce ⧺ "." ⧺ sig ≡ p.format_int t ⧺ "." ⧺ nonce ⧺ "." ⧺ sig
  unfolding payload
  generated_text t nonce sig =
      ⧺_assoc (p.format_int t) ("." ⧺ nonce) ("." ⧺ sig)
      ∙ ap (λ s. p.format_int t ⧺ s) (⧺_assoc "." nonce ("." ⧺ sig))

  -- Within the range of an int64, the nonce's draws each below 62 and the age below 2^63 - 1, a token is
  -- generated, and it is accepted up to the end of its age, counted from the second in which it was
  -- generated, and refused from then on.
  pub validate-generate :
      (secret : String) (draws : List ℕ) (generated max_age now : ℕ)
      → AreDraws draws
      → generated / 1000000000 < 9223371974719179008
      → max_age < 9223372036854775807
      → (token : String) × (generate_token p secret generated draws ≡ some token)
        × (validate_token p token secret max_age now
            ≡ not (ltb (generated / 1000000000 * 1000000000 + max_age) now))
  unfolding generate_token check_parts check_signed is_expired
  validate-generate secret draws generated max_age now drawn soon brief =
      let t = pos (generated / 1000000000) in
      let (nonce, e, n) = random_string-no_dot draws drawn in
      let signed = payload p t nonce in
      let sig = p.sign secret signed in
      let decoded = decimal.parse_format (generated / 1000000000) (omega arith) in
      (
        signed ⧺ "." ⧺ sig,
        rw (e, generate_token) refl,
        ap (λ token. validate_token p token secret max_age now) (generated_text t nonce sig)
            ∙ cut_token p (p.format_int t) nonce sig secret max_age now
                (decimal.no_dot (generated / 1000000000)) n
            ∙ ground (arith, decoded, eq_refl sig),
      )

-- A token's time is not past: it never is on the longest age, and otherwise its timestamp is one that
-- Go's clock can hold, and the age is not over.
abbrev pub InTime : ℤ → ℕ → ℕ → Type 0
InTime (pos n) max_age now =
    (9223372036854775807 ≤ max_age) ⊎ ((n < 9223371974719179008) × (now ≤ n * 1000000000 + max_age))
InTime (negsuc n) max_age now =
    (9223372036854775807 ≤ max_age) ⊎ (now + suc n * 1000000000 ≤ max_age)

InTime-of_is_expired :
    (t : ℤ) (max_age now : ℕ) → is_expired t max_age now ≡ false → InTime t max_age now
unfolding is_expired
InTime-of_is_expired (pos n) max_age now h = elim (Bool-cases (ltb max_age 9223372036854775807)) [
  | inl y ↦ inr (ground arith, ground arith)
  | inr y ↦ inl (ground arith)
]
InTime-of_is_expired (negsuc n) max_age now h =
    elim (Bool-cases (ltb max_age 9223372036854775807)) [
      | inl y ↦ inr (ground arith)
      | inr y ↦ inl (ground arith)
    ]

is_expired-of_InTime :
    (t : ℤ) (max_age now : ℕ) → InTime t max_age now → is_expired t max_age now ≡ false
unfolding is_expired
is_expired-of_InTime (pos n) max_age now (inl h) = ground arith
is_expired-of_InTime (pos n) max_age now (inr h) = ground arith
is_expired-of_InTime (negsuc n) max_age now (inl h) = ground arith
is_expired-of_InTime (negsuc n) max_age now (inr h) = ground arith

-- A token is accepted exactly if it reads `timestamp.nonce.signature`, neither of the first two with
-- a dot, where the timestamp is a number, its age is not past, and the signature is the keyed hash
-- of that number, a dot and the nonce.
pub record IsSigned (p : Primitives) (token secret : String) (max_age now : ℕ) : Type 0 where
  pub timestamp : String
  pub nonce : String
  pub t : ℤ
  pub text : token ≡ timestamp ⧺ "." ⧺ nonce ⧺ "." ⧺ p.sign secret (p.format_int t ⧺ "." ⧺ nonce)
  pub timestamp_no_dot : has_char b'.' timestamp ≡ false
  pub nonce_no_dot : has_char b'.' nonce ≡ false
  pub number : p.parse_int timestamp ≡ some t
  pub in_time : InTime t max_age now

IsSigned-of_validate :
    (p : Primitives) (token secret : String) (max_age now : ℕ)
    → validate_token p token secret max_age now ≡ true
    → IsSigned p token secret max_age now
unfolding validate_token check_parts check_signed payload
IsSigned-of_validate p token secret max_age now h = elim (Option-cases (cut b'.' token)) [
  | inl e ↦ absurd (ground arith)
  | inr ((timestamp, more), e) ↦ elim (Option-cases (cut b'.' more)) [
    | inl f ↦ absurd (ground arith)
    | inr ((nonce, provided), f) ↦ elim (Option-cases (p.parse_int timestamp)) [
      | inl g ↦ absurd (ground arith)
      | inr (t, g) ↦
          let outer = cut-some b'.' "." token timestamp more refl e in
          let inner = cut-some b'.' "." more nonce provided refl f in
          let signature : provided ≡ p.sign secret (p.format_int t ⧺ "." ⧺ nonce) =
            ground (arith, eq_iff provided (p.sign secret (p.format_int t ⧺ "." ⧺ nonce))) in
          record {
            timestamp = timestamp;
            nonce = nonce;
            t = t;
            text =
                rw
                  (
                    single-⧺ "." (nonce ⧺ "." ⧺ p.sign secret (p.format_int t ⧺ "." ⧺ nonce)),
                    single-⧺ "." (p.sign secret (p.format_int t ⧺ "." ⧺ nonce)),
                    ← signature,
                  )
                  (rw inner.0 at outer.0);
            timestamp_no_dot = outer.1;
            nonce_no_dot = inner.1;
            number = g;
            in_time = InTime-of_is_expired t max_age now (ground arith);
          }
    ]
  ]
]

validate-of_IsSigned :
    (p : Primitives) (token secret : String) (max_age now : ℕ)
    → IsSigned p token secret max_age now
    → validate_token p token secret max_age now ≡ true
unfolding check_parts check_signed payload
validate-of_IsSigned p token secret max_age now s =
    let sig = p.sign secret (p.format_int s.t ⧺ "." ⧺ s.nonce) in
    ap (λ x. validate_token p x secret max_age now) s.text
    ∙ cut_token p s.timestamp s.nonce sig secret max_age now s.timestamp_no_dot s.nonce_no_dot
    ∙ ground (arith, s.number, is_expired-of_InTime s.t max_age now s.in_time, eq_refl sig)

-- ValidateToken accepts exactly the tokens that read `timestamp.nonce.signature`, where the timestamp is a
-- number, the signature is the keyed hash of that number, a dot and the nonce, and the time is not past.
pub validate_iff :
    (p : Primitives) (token secret : String) (max_age now : ℕ)
    → (validate_token p token secret max_age now ≡ true) ↔ IsSigned p token secret max_age now
validate_iff p token secret max_age now = (
  IsSigned-of_validate p token secret max_age now,
  validate-of_IsSigned p token secret max_age now,
)
