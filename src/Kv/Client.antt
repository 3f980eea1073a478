-- ===== src/Kv/Client.antt =====
-- pkg/kv/client.go. `send` is `http.DefaultClient.Do` against a host: the response, or none if the
-- request fails. A body that breaks off while it is read is left out.
pub mod RoundTrip
use engine_ci.Base.{ℕ, String, ◌⧺◌, Option, none, some, if◌then◌else◌, eqb}
use engine_ci.Kv.Store.{Response}
use engine_ci.Kv.Server.{Request}

pub data Failure : Type 0 where
  not_sent : Failure
  bad_status : ℕ → Failure

pub data Result {ℓ} (A : Type ℓ) : Type ℓ where
  ok : A → Result A
  err : Failure → Result A

abbrev pub get_request : String → String → Request
get_request auth key = record {
  method = "GET";
  path = "/mem/" ⧺ key;
  authorization = "Bearer " ⧺ auth;
  body = some "";
}

abbrev pub set_request : String → String → String → Request
set_request auth key value = record {
  method = "POST";
  path = "/mem/" ⧺ key;
  authorization = "Bearer " ⧺ auth;
  body = some value;
}

read_value : Response → Result String
read_value r =
    if eqb r.status 404
    then ok ""
    else if eqb r.status 200
    then ok r.body
    else err (bad_status r.status)

-- `GetValue`
unfoldable pub get_value : (Request → Option Response) → String → String → Result String
unfolding read_value
get_value send auth key = elim (send (get_request auth key)) [
  | none ↦ err not_sent
  | some r ↦ read_value r
]

-- `SetValue`
unfoldable pub set_value :
    (Request → Option Response) → String → String → String → Result (Unit {0})
set_value send auth key value = elim (send (set_request auth key value)) [
  | none ↦ err not_sent
  | some r ↦ if eqb r.status 200 then ok tt else err (bad_status r.status)
]
