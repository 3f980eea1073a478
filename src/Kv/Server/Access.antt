-- ===== src/Kv/Server/Access.antt =====
-- Who may read and change the store over HTTP.
use engine_ci.Base.{
  ℕ, String, ◌⧺◌, true, Option, none, some, ◌==◌, ◌≡◌, ◌≢◌, ◌⊎◌, inl, inr, refl, ap, ◌∙◌, arith,
  if◌then◌else◌, Dict, strip_prefix?, strip_prefix?-append, Option-cases, Bool-cases, lookup-insert,
  eq_iff,
}
use engine_ci.Kv.Store.{Response, get, set, get_val, set_val}
use engine_ci.Kv.Token.{validate_token}
use engine_ci.Kv.Server.{Request, Server, dispatch, auth_middleware, serve}

-- The header carries a token that the server's key accepts at this time.
abbrev pub IsAuthorized : Server → ℕ → String → Type 0
IsAuthorized s now header =
    (token : String) × (strip_prefix? "Bearer " header ≡ some token)
    × (validate_token s.primitives token s.signing_key s.max_age now ≡ true)

auth_middleware-unauthorized :
    (s : Server) (now : ℕ) (header : String) (next : Response × Dict String) (store : Dict String)
    → ¬ IsAuthorized s now header
    → ((auth_middleware s now header next store).0.status ≡ 401)
      × ((auth_middleware s now header next store).1 ≡ store)
unfolding auth_middleware
auth_middleware-unauthorized s now header next store h =
    elim (Option-cases (strip_prefix? "Bearer " header)) [
      | inl e ↦ (rw (e, auth_middleware), rw (e, auth_middleware))
      | inr (token, e) ↦
          elim (Bool-cases (validate_token s.primitives token s.signing_key s.max_age now)) [
            | inl valid ↦ absurd (h (token, e, valid))
            | inr invalid ↦
                (rw (e, auth_middleware) (rw invalid), rw (e, auth_middleware) (rw invalid))
          ]
    ]

-- A request without a valid token changes nothing, whatever it asks for: it gets the answer that the
-- outer ServeMux gives itself, such as a redirect, and if that gives none it gets status 401.
pub serve-unauthorized :
    (s : Server) (now : ℕ) (r : Request) (store : Dict String)
    → ¬ IsAuthorized s now r.authorization
    → ((answer : Response) × (s.outer_mux r.method r.path ≡ some answer)
        × (serve s now r store ≡ (answer, store)))
      ⊎ ((s.outer_mux r.method r.path ≡ none)
          × ((serve s now r store).0.status ≡ 401)
          × ((serve s now r store).1 ≡ store))
unfolding serve
serve-unauthorized s now r store h = elim (Option-cases (s.outer_mux r.method r.path)) [
  | inr (answer, e) ↦ inl (answer, e, rw (e, serve) refl)
  | inl e ↦
      let refused =
        auth_middleware-unauthorized s now r.authorization
          (dispatch (s.mux r.method r.path) r.body store) store h in
      inr (e, rw (e, serve) refused.0, rw (e, serve) refused.1)
]

-- A request with a valid token that the outer ServeMux passes on is answered by the handler of its route.
pub serve-authorized :
    (s : Server) (now : ℕ) (token : String) (r : Request) (store : Dict String)
    → s.outer_mux r.method r.path ≡ none
    → r.authorization ≡ "Bearer " ⧺ token
    → validate_token s.primitives token s.signing_key s.max_age now ≡ true
    → serve s now r store ≡ dispatch (s.mux r.method r.path) r.body store
unfolding serve
serve-authorized s now token r store passed e valid =
    rw (passed, serve)
      (rw (ap (strip_prefix? "Bearer ") e ∙ strip_prefix?-append "Bearer " token, auth_middleware)
        (rw valid))

-- A value once stored is what its key answers, and every other key answers what it answered before.
pub get-set :
    (key j value : String) (store : Dict String)
    → value ≢ ""
    → get j (set key (some value) store).1
      ≡ (if key == j then record { status = 200; body = value } else get j store)
unfolding get set get_val set_val
get-set key j value store h = ground (arith, eq_iff value "", lookup-insert key j value store)

-- An empty or unreadable body is refused with status 400 and stores nothing.
pub set-refused :
    (key : String) (body : Option String) (store : Dict String)
    → (body ≡ none) ⊎ (body ≡ some "")
    → ((set key body store).0.status ≡ 400) × ((set key body store).1 ≡ store)
unfolding set
set-refused key body store (inl e) = ground arith
set-refused key body store (inr e) = rw e (refl, refl)
