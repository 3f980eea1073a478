-- ===== src/Kv/Client/RoundTrip.antt =====
-- The client against the server of the same package.
use engine_ci.Base.{
  ℕ, String, ◌⧺◌, true, Option, none, some, ◌==◌, ◌≡◌, ◌≢◌, refl, ◌∙◌, arith, if◌then◌else◌, Dict,
  lookup, lookup-insert, eq_iff,
}
use engine_ci.Kv.Store.{Response, get, set, get_val, set_val}
use engine_ci.Kv.Token.{validate_token}
use engine_ci.Kv.Server.{Request, Server, mem_get, mem_set, dispatch, serve}
use engine_ci.Kv.Server.Access.{serve-authorized}
use engine_ci.Kv.Client.{ok, get_request, set_request, get_value, set_value}

-- net/http's ServeMux on the two patterns of the store: this key needs no escape in a path, and the
-- path is clean, so that the outer mux passes it on.
pub record IsPlain (s : Server) (key : String) : Type 0 where
  pub clean_get : s.outer_mux "GET" ("/mem/" ⧺ key) ≡ none
  pub clean_post : s.outer_mux "POST" ("/mem/" ⧺ key) ≡ none
  pub on_get : s.mux "GET" ("/mem/" ⧺ key) ≡ mem_get key
  pub on_post : s.mux "POST" ("/mem/" ⧺ key) ≡ mem_set key

-- A connection to a server whose store is in the given state.
abbrev pub connect : Server → ℕ → Dict String → Request → Option Response
connect s now store r = some (serve s now r store).0

abbrev pub or_empty : Option String → String
or_empty none = ""
or_empty (some v) = v

module _ (s : Server) (now : ℕ) (auth : String)
    (valid : validate_token s.primitives auth s.signing_key s.max_age now ≡ true) where
  serve-get :
      (key : String) (store : Dict String)
      → IsPlain s key
      → serve s now (get_request auth key) store ≡ (get key store, store)
  unfolding dispatch
  serve-get key store plain =
      serve-authorized s now auth (get_request auth key) store plain.clean_get refl valid
      ∙ rw (plain.on_get)

  serve-set :
      (key value : String) (store : Dict String)
      → IsPlain s key
      → serve s now (set_request auth key value) store ≡ set key (some value) store
  unfolding dispatch
  serve-set key value store plain =
      serve-authorized s now auth (set_request auth key value) store plain.clean_post refl valid
      ∙ rw (plain.on_post)

  -- With a valid token GetValue answers the value of the key, and the empty text for a key that is
  -- not there.
  pub get_value-connect :
      (key : String) (store : Dict String)
      → IsPlain s key
      → get_value (connect s now store) auth key ≡ ok (or_empty (lookup key store))
  unfolding get_value get get_val
  get_value-connect key store plain = let reply = serve-get key store plain in ground (arith, reply)

  -- SetValue of a value that is not empty succeeds, the value is what GetValue then answers for that
  -- key, and for every other key GetValue answers what it answered before.
  pub set_value-get_value :
      (key j value : String) (store : Dict String)
      → IsPlain s key
      → IsPlain s j
      → value ≢ ""
      → (set_value (connect s now store) auth key value ≡ ok tt)
        × (get_value (connect s now (serve s now (set_request auth key value) store).1) auth j
            ≡ (if key == j then ok value else get_value (connect s now store) auth j))
  unfolding set_value set set_val
  set_value-get_value key j value store plain plain_j ne = (
    ground (arith, serve-set key value store plain, eq_iff value ""),
    rw
        (
          get_value-connect j (serve s now (set_request auth key value) store).1 plain_j,
          get_value-connect j store plain_j,
        )
        (ground (
          arith,
          serve-set key value store plain,
          eq_iff value "",
          lookup-insert key j value store,
        )),
  )
