-- ===== src/Kv/Token.antt =====
-- pkg/kv/api.go: randomString, GenerateToken and ValidateToken. Parameters: `sign` is HMAC-SHA256 in
-- unpadded base64url, `format_int` is `%d` and `parse_int` is `strconv.ParseInt(s, 10, 64)`. The
-- clock is in nanoseconds since 1970, an age in nanoseconds; the timestamp of a token is in seconds.
pub mod Accept
use Prim.Native.Char.{Char}
use engine_ci.Base.{
  ℕ, zero, suc, ◌/◌, String, ◌⧺◌, Bool, true, false, Option, none, some, List, [], ◌∷◌, ◌==◌,
  if◌then◌else◌, cut, ℤ, pos, negsuc, elapsed_before, leb, ltb, ◌&&◌, ◌||◌,
}

pub record Primitives : Type 0 where
  pub sign : String → String → String
  pub format_int : ℤ → String
  pub parse_int : String → Option ℤ

-- `letters` of randomString
abbrev letters : String
letters = "abcdefghijklmnopqrstuvwxyzABCDEFGHIJKLMNOPQRSTUVWXYZ0123456789"

char_at : ℕ → String → Option Char
char_at i String.[] = none
char_at zero (String.◌∷◌ c s) = some c
char_at (suc i) (String.◌∷◌ c s) = char_at i s

-- `randomString` on the numbers drawn by `rand.Int`; none is the panic of an index out of range.
unfoldable pub random_string : List ℕ → Option String
unfolding char_at
random_string [] = some ""
random_string (d ∷ ds) = elim (char_at d letters) [
  | none ↦ none
  | some c ↦ elim (random_string ds) [ none ↦ none | some rest ↦ some (String.◌∷◌ c rest) ]
]

-- `time.Unix(timestamp, 0)` adds 62135596800 seconds to a timestamp below 2^63, and the sum wraps to a
-- time long past if the timestamp is not below 2^63 - 62135596800.
abbrev wraps : ℤ → Bool
wraps (pos n) = leb 9223371974719179008 n
wraps (negsuc n) = false

-- `time.Since(tokenTime) > maxAge`, where an age is at most 2^63 - 1 nanoseconds.
unfoldable is_expired : ℤ → ℕ → ℕ → Bool
is_expired t max_age now =
    ltb max_age 9223372036854775807 && (wraps t || elapsed_before t max_age now)

module _ (p : Primitives) where
  -- `fmt.Sprintf("%d.%s", timestamp, nonce)`
  pub payload : ℤ → String → String
  payload t nonce = p.format_int t ⧺ "." ⧺ nonce

  -- `GenerateToken` at a time, with the numbers drawn for the nonce.
  unfoldable pub generate_token : String → ℕ → List ℕ → Option String
  unfolding payload
  generate_token secret now draws = elim (random_string draws) [
    | none ↦ none
    | some nonce ↦
        let signed = payload (pos (now / 1000000000)) nonce in
        some (signed ⧺ "." ⧺ p.sign secret signed)
  ]

  check_signed : ℤ → String → String → String → ℕ → ℕ → Bool
  unfolding payload is_expired
  check_signed t nonce provided secret max_age now =
      if is_expired t max_age now then false else provided == p.sign secret (payload t nonce)

  check_parts : String → String → String → String → ℕ → ℕ → Bool
  unfolding check_signed
  check_parts timestamp nonce provided secret max_age now = elim (p.parse_int timestamp) [
    | none ↦ false
    | some t ↦ check_signed t nonce provided secret max_age now
  ]

  -- `ValidateToken` at a time. `SplitN(token, ".", 3)` has three parts if two cuts succeed, and the
  -- third part may hold further dots.
  unfoldable pub validate_token : String → String → ℕ → ℕ → Bool
  unfolding check_parts
  validate_token token secret max_age now = elim (cut b'.' token) [
    | none ↦ false
    | some (timestamp, more) ↦ elim (cut b'.' more) [
      | none ↦ false
      | some (nonce, provided) ↦ check_parts timestamp nonce provided secret max_age now
    ]
  ]
