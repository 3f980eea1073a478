-- ===== src/Kv/Server.antt =====
-- pkg/kv/api.go: StartHttpServer's handler chain. `outer_mux` is what net/http answers itself before
-- the outer ServeMux passes a request on to the middleware, such as the redirect of a path that is not
-- clean. `mux` is what the inner ServeMux makes of a method and a path under the three patterns that
-- the source registers.
pub mod Access
use engine_ci.Base.{
  ℕ, String, ◌⧺◌, Bool, true, false, Option, none, some, List, [], ◌∷◌, ◌==◌, if◌then◌else◌, Dict,
  strip_prefix?,
}
use engine_ci.Kv.Store.{Response, http_error, get, set}
use engine_ci.Kv.Token.{Primitives, validate_token}

pub data Route : Type 0 where
  health : Route
  mem_get mem_set : String → Route
  unmatched : ℕ → Route

-- A header that is not there reads as the empty text; a body that cannot be read is none.
pub record Request : Type 0 where
  pub method : String
  pub path : String
  pub authorization : String
  pub body : Option String

pub record Server : Type 0 where
  pub outer_mux : String → String → Option Response
  pub mux : String → String → Route
  pub primitives : Primitives
  pub signing_key : String
  pub max_age : ℕ

-- The handlers behind the inner ServeMux.
unfoldable pub dispatch : Route → Option String → Dict String → Response × Dict String
dispatch health body store = (record { status = 200; body = "okay\n" }, store)
dispatch (mem_get key) body store = (get key store, store)
dispatch (mem_set key) body store = set key body store
dispatch (unmatched status) body store = (record { status = status; body = "" }, store)

-- `authMiddleware`: the header's first seven bytes must be the prefix.
auth_middleware :
    Server → ℕ → String → Response × Dict String → Dict String → Response × Dict String
auth_middleware s now header next store = elim (strip_prefix? "Bearer " header) [
  | none ↦ (http_error "missing auth" 401, store)
  | some token ↦
      if validate_token s.primitives token s.signing_key s.max_age now
      then next
      else (http_error "invalid auth" 401, store)
]

unfoldable pub serve : Server → ℕ → Request → Dict String → Response × Dict String
unfolding auth_middleware dispatch
serve s now r store = elim (s.outer_mux r.method r.path) [
  | some answer ↦ (answer, store)
  | none ↦
      auth_middleware s now r.authorization (dispatch (s.mux r.method r.path) r.body store) store
]
