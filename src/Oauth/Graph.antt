-- ===== src/Oauth/Graph.antt =====
-- oauth/instagram.rs: how an answer of the Graph API is read. The HTTP exchange is a parameter, by
-- what it ended with; printing a number or a value is the standard library's and serde's.
use Prim.Native.String.{◌++◌ as append}
use chatbridge.Prelude.{
  ◌≡◌, inl, inr, refl, ℕ, String, Bool, true, false, Option, none, some, List, [], ◌∷◌, arith,
  and_then, map_option, unwrap_or, leb, ltb, ◌&&◌, Option-cases, Bool-cases, if◌then◌else◌,
}
use chatbridge.Prelude.Json.{
  Json, Items, nil, cons, get, as_str, as_bool, as_i64, as_array, is_object,
}
use chatbridge.Prelude.Results.{Result, ok, err}
use chatbridge.Oauth.{Profile}

-- `a.or_else(|| b)`
abbrev pub or_else : {A : Type 0} → Option A → Option A → Option A
or_else (some a) b = some a
or_else none b = b

-- What an exchange ends with: no response, a body that is not JSON, or a status and a body.
pub data Response : Type 0 where
  unreachable : (reason : String) → Response
  unreadable : (status : ℕ) (reason : String) → Response
  answered : (status : ℕ) (body : Json) → Response

module _ (print_int : ℕ → String) where
  abbrev with_subcode : String → Option ℕ → String
  with_subcode message none = message
  with_subcode message (some code) =
      append message (append " (subcode " (append (print_int code) ")"))

  -- `envelope_error`
  unfoldable pub envelope_error : Json → Option String
  envelope_error json = elim (get "error" json) [
    | none ↦ none
    | some error ↦ some (
        with_subcode
          (unwrap_or (and_then (get "message" error) as_str) "unknown Instagram API error")
          (and_then (get "error_subcode" error) as_i64))
  ]

  -- `status.is_client_error() || status.is_server_error()`
  abbrev pub is_failure : ℕ → Bool
  is_failure status = leb 400 status && ltb status 600

  -- `call`
  unfoldable pub call : Response → Result String Json
  unfolding envelope_error
  call (unreachable reason) = err (append "HTTP request failed: " reason)
  call (unreadable status reason) =
      err
        (append "failed to parse response (HTTP " (append (print_int status) (append "): " reason)))
  call (answered status json) = elim (envelope_error json) [
    | some message ↦ err message
    | none ↦
        if is_failure status
        then err (append "HTTP " (append (print_int status) " with no error envelope"))
        else ok json
  ]

  -- `parse_profile`
  unfoldable pub parse_profile : Json → Result String Profile
  parse_profile json =
      let user_id = or_else (and_then (get "user_id" json) as_str) (
        or_else (map_option print_int (and_then (get "user_id" json) as_i64)) (
          or_else (and_then (get "id" json) as_str)
            (map_option print_int (and_then (get "id" json) as_i64)))) in
      elim user_id [
        | none ↦ err "profile response carries no user_id"
        | some id ↦ ok (record { user_id = id; username = and_then (get "username" json) as_str })
      ]

-- `unwrap_envelope`
unfoldable pub unwrap_envelope : Json → Json
unwrap_envelope json = elim (and_then (get "data" json) as_array) [
  | none ↦ json
  | some nil ↦ json
  | some (cons item nil) ↦ if is_object item then item else json
  | some (cons _ (cons _ _)) ↦ json
]

-- `confirm_success`
unfoldable pub confirm_success : (Json → String) → Json → String → Result String (Unit {0})
confirm_success print_json json context = elim (and_then (get "success" json) as_bool) [
  | some true ↦ ok tt
  | some false ↦ err (append context (append ": " (print_json json)))
  | none ↦ err (append context (append ": " (print_json json)))
]

-- A field by its name, as text or as an object.
abbrev field_name : Json → Option String
field_name f = or_else (as_str f) (and_then (get "name" f) as_str)

abbrev listed : Option String → List String → List String
listed none names = names
listed (some name) names = name ∷ names

unfoldable pub names_of : Items → List String
names_of nil = []
names_of (cons f fs) = listed (field_name f) (names_of fs)

abbrev first_of : Json → Option Json
first_of json = elim (as_array json) [
  | none ↦ none
  | some nil ↦ none
  | some (cons item _) ↦ some item
]

-- `parse_subscribed_fields`
unfoldable pub parse_subscribed_fields : Json → List String
unfolding names_of
parse_subscribed_fields json =
    elim (and_then (and_then (and_then (get "data" json) first_of) (get "subscribed_fields"))
      as_array) [ none ↦ [] | some items ↦ names_of items ]

module _ (print_int : ℕ → String) (print_json : Json → String) where
  abbrev confirmed : String → Result String Json → Result String (Unit {0})
  confirmed context (err e) = err e
  confirmed context (ok json) = confirm_success print_json json context

  -- `subscribe`
  unfoldable pub subscribe : Response → Result String (Unit {0})
  unfolding call confirm_success
  subscribe response =
      confirmed "subscription to fields was not confirmed" (call print_int response)

  -- `unsubscribe`
  unfoldable pub unsubscribe : Response → Result String (Unit {0})
  unfolding call confirm_success
  unsubscribe response = confirmed "unsubscription was not confirmed" (call print_int response)

  abbrev read_profile : Result String Json → Result String Profile
  read_profile (err e) = err e
  read_profile (ok json) = parse_profile print_int (unwrap_envelope json)

  -- `fetch_profile`
  unfoldable pub fetch_profile : Response → Result String Profile
  unfolding call
  fetch_profile response = read_profile (call print_int response)

  abbrev read_fields : Result String Json → Result String (List String)
  read_fields (err e) = err e
  read_fields (ok json) = ok (parse_subscribed_fields json)

  -- `subscribed_fields`
  unfoldable pub subscribed_fields : Response → Result String (List String)
  unfolding call
  subscribed_fields response = read_fields (call print_int response)

  -- A subscription counts as taken only if Meta answered with a body that says so and has no error
  -- envelope, under a status that is no failure.
  pub subscribe-confirmed :
      (response : Response)
      → subscribe response ≡ ok tt
      → (status : ℕ) × (body : Json) × (response ≡ answered status body)
        × (is_failure print_int status ≡ false)
        × (get "error" body ≡ none)
        × (and_then (get "success" body) as_bool ≡ some true)
  unfolding subscribe call envelope_error confirm_success
  subscribe-confirmed (unreachable reason) h = absurd (ground arith)
  subscribe-confirmed (unreadable status reason) h = absurd (ground arith)
  subscribe-confirmed (answered status body) h = elim (Option-cases (get "error" body)) [
    | inr (e, k) ↦ absurd (ground arith)
    | inl k ↦ elim (Bool-cases (is_failure print_int status)) [
      | inl k' ↦ absurd (ground arith)
      | inr k' ↦ elim (Option-cases (and_then (get "success" body) as_bool)) [
        | inl k'' ↦ absurd (ground arith)
        | inr (true, k'') ↦ (status, body, refl, k', k, k'')
        | inr (false, k'') ↦ absurd (ground arith)
      ]
    ]
  ]
