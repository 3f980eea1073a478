-- ===== src/Kv/Store.antt =====
-- pkg/kv/api.go: KeyValueStore and its two handlers. The lock makes each operation atomic, so that
-- an operation is a function of the map.
use engine_ci.Base.{
  ℕ, String, ◌⧺◌, Option, none, some, [], ◌==◌, if◌then◌else◌, Dict, lookup, insert,
}

-- A response: the status and the body. `http.Error` ends its message with a newline.
pub record Response : Type 0 where
  pub status : ℕ
  pub body : String

abbrev pub http_error : String → ℕ → Response
http_error message status = record { status = status; body = message ⧺ "\n" }

unfoldable pub get_val : String → Dict String → Option String
get_val key store = lookup key store

unfoldable pub set_val : String → String → Dict String → Dict String
set_val key val store = insert key val store

-- `Clear`
unfoldable pub clear : Dict String → Dict String
clear store = []

-- The handler `Get`. Writing to a connection that is gone is left out.
unfoldable pub get : String → Dict String → Response
unfolding get_val
get key store = elim (get_val key store) [
  | none ↦ http_error "Key not found" 404
  | some value ↦ record { status = 200; body = value }
]

-- The handler `Set`; a body that cannot be read is none.
unfoldable pub set : String → Option String → Dict String → Response × Dict String
unfolding set_val
set key none store = (http_error "Invalid request payload" 400, store)
set key (some value) store =
    if value == ""
    then (http_error "Invalid request payload" 400, store)
    else (record { status = 200; body = "" }, set_val key value store)
