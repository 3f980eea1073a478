-- ===== src/Tests/KvTests.antt =====
-- The store's server with a toy notation of numbers and a toy signature, which meet what the
-- theorems rely on.
use engine_ci.Base.{
  ℕ, zero, suc, String, ◌⧺◌, ◌==◌, true, false, not, ltb, Option, ◌⊎◌, ◌<◌, none, some, [], ◌∷◌,
  ◌≡◌, ◌≢◌, ◌↔◌, refl, ap, arith, ◌/◌, ◌*◌, ◌+◌, strip_prefix?, eq_iff, if◌then◌else◌, has_char,
  Dict, lookup, ℤ, pos, negsuc, inr,
}
use engine_ci.Kv.Store.{Response, get, set}
use engine_ci.Kv.Token.{Primitives, generate_token, validate_token}
use engine_ci.Kv.Token.Accept.{IsDecimal, IsSigned, validate-generate, validate_iff}
use engine_ci.Kv.Server.{Request, Server, Route, mem_get, mem_set, unmatched, serve}
use engine_ci.Kv.Server.Access.{IsAuthorized, serve-unauthorized, get-set, set-refused}
use engine_ci.Kv.Client.{ok, set_request, get_value, set_value}
use engine_ci.Kv.Client.RoundTrip.{
  IsPlain, connect, or_empty, get_value-connect, set_value-get_value,
}

-- A stroke for each unit.
abbrev strokes : ℕ → String
strokes zero = ""
strokes (suc n) = String.◌∷◌ "1" (strokes n)

abbrev count_strokes : String → ℕ
count_strokes String.[] = zero
count_strokes (String.◌∷◌ c s) = suc (count_strokes s)

abbrev format : ℤ → String
format (pos n) = String.◌∷◌ "+" (strokes n)
format (negsuc n) = String.◌∷◌ "-" (strokes n)

abbrev parse : String → Option ℤ
parse String.[] = none
parse (String.◌∷◌ c s) =
    let n = count_strokes s in
    if not (ltb n 9223372036854775808)
    then none
    else if has_char b'+' (String.◌∷◌ c String.[])
    then some (pos n)
    else if has_char b'-' (String.◌∷◌ c String.[])
    then some (negsuc n)
    else none

abbrev toy : Primitives
toy = record { sign = λ key s. key ⧺ s; format_int = format; parse_int = parse }

count-strokes : (n : ℕ) → count_strokes (strokes n) ≡ n
count-strokes zero = refl
count-strokes (suc n) = ap suc (count-strokes n)

strokes-no_dot : (n : ℕ) → has_char b'.' (strokes n) ≡ false
unfolding has_char
strokes-no_dot zero = refl
strokes-no_dot (suc n) = strokes-no_dot n

parse-format : (n : ℕ) → n < 9223372036854775808 → parse (format (pos n)) ≡ some (pos n)
unfolding has_char
parse-format n h = ground (arith, count-strokes n)

toy-IsDecimal : IsDecimal toy
unfolding has_char
toy-IsDecimal = record { parse_format = parse-format; no_dot = strokes-no_dot }

validate-generate_example :
    (token : String) × (generate_token toy "secret" 5000000007 (0 ∷ 61 ∷ []) ≡ some token)
    × (validate_token toy token "secret" 100 5000000100
        ≡ not (ltb (5000000007 / 1000000000 * 1000000000 + 100) 5000000100))
validate-generate_example =
    validate-generate toy toy-IsDecimal "secret" (0 ∷ 61 ∷ []) 5000000007 100 5000000100
      (omega arith, (omega arith, tt)) (omega arith) (omega arith)

abbrev auth : String
auth = or_empty (generate_token toy "secret" 5000000007 (0 ∷ 61 ∷ []))

validate_iff_example :
    (validate_token toy auth "secret" 100 5000000100 ≡ true)
    ↔ IsSigned toy auth "secret" 100 5000000100
validate_iff_example = validate_iff toy auth "secret" 100 5000000100

abbrev route : String → Option String → Route
route method none = unmatched 404
route method (some key) = if method == "GET" then mem_get key else mem_set key

abbrev moved : Response
moved = record { status = 307; body = "" }

abbrev server : Server
server = record {
  outer_mux = λ method path. if path == "/mem//" then some moved else none;
  mux = λ method path. route method (strip_prefix? "/mem/" path);
  primitives = toy;
  signing_key = "secret";
  max_age = 100;
}

abbrev colors : Dict String
colors = ("color", "red") ∷ []

auth-valid : validate_token toy auth "secret" 100 5000000100 ≡ true
auth-valid = let (token, e, valid) = validate-generate_example in rw e valid

color-IsPlain : IsPlain server "color"
unfolding strip_prefix?
color-IsPlain = record { clean_get = refl; clean_post = refl; on_get = refl; on_post = refl }

shape-IsPlain : IsPlain server "shape"
unfolding strip_prefix?
shape-IsPlain = record { clean_get = refl; clean_post = refl; on_get = refl; on_post = refl }

abbrev anonymous : Request
anonymous = record {
  method = "POST";
  path = "/mem/color";
  authorization = "Basic x";
  body = some "blue";
}

anonymous-unauthorized : ¬ IsAuthorized server 5000000100 "Basic x"
unfolding strip_prefix?
anonymous-unauthorized (token, e, valid) = cc

serve-unauthorized_example :
    ((answer : Response) × (server.outer_mux "POST" "/mem/color" ≡ some answer)
      × (serve server 5000000100 anonymous colors ≡ (answer, colors)))
    ⊎ ((server.outer_mux "POST" "/mem/color" ≡ none)
        × ((serve server 5000000100 anonymous colors).0.status ≡ 401)
        × ((serve server 5000000100 anonymous colors).1 ≡ colors))
serve-unauthorized_example =
    serve-unauthorized server 5000000100 anonymous colors anonymous-unauthorized

abbrev blue : String
blue = "blue"

blue-full : blue ≢ ""
blue-full h = absurd (ground (arith, eq_iff blue ""))

get-set_example :
    get "shape" (set "color" (some "blue") colors).1
    ≡ (if "color" == "shape" then record { status = 200; body = "blue" } else get "shape" colors)
get-set_example = get-set "color" "shape" "blue" colors blue-full

set-refused_example :
    ((set "color" (some "") colors).0.status ≡ 400) × ((set "color" (some "") colors).1 ≡ colors)
set-refused_example = set-refused "color" (some "") colors (inr refl)

get_value-connect_example :
    get_value (connect server 5000000100 colors) auth "color"
    ≡ ok (or_empty (lookup "color" colors))
get_value-connect_example =
    get_value-connect server 5000000100 auth auth-valid "color" colors color-IsPlain

set_value-get_value_example :
    (set_value (connect server 5000000100 colors) auth "color" "blue" ≡ ok tt)
    × (get_value
          (connect server 5000000100
            (serve server 5000000100 (set_request auth "color" "blue") colors).1)
          auth
          "shape"
        ≡ (if "color" == "shape"
            then ok "blue"
            else get_value (connect server 5000000100 colors) auth "shape"))
set_value-get_value_example =
    set_value-get_value server 5000000100 auth auth-valid "color" "shape" "blue" colors
      color-IsPlain shape-IsPlain blue-full
