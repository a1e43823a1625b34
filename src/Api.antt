-- ===== src/Api.antt =====
-- The client of the management API: web/src/api.ts. Its validators, its two fields
-- `unauthorizedNotified` and `csrfToken`, and the operations that read or write them. What a
-- method is asked and what it checks stands in Endpoints.
pub mod Endpoints
pub mod Validation
pub mod Config
pub mod Headers
pub mod Unauthorized
mod Tests
use relay_lifeline.Prelude.{
  ℕ, zero, suc, ◌≡◌, Bool, true, false, not, ◌&&◌, ◌||◌, List, [], ◌∷◌, ◌++◌, Option, none, some,
  String, Outcome, ok, throw, ◌>>=◌, ◌>>◌, nat_eq, if◌then◌else◌, ◌==◌, String_keys, show, ◌<>◌,
}
use relay_lifeline.Json.{
  num, Value, null, bool, str, arr, obj, Items, nil, cons, Fields, end, field, Thrown, api_error,
  type_error, error, lookup, put, get_prop, truthy, or_value, or_default, spread,
}
use relay_lifeline.Numbers.{Number, num_eq, whole}

abbrev pub invalid_response : String → Thrown
invalid_response message =
    api_error (record { code = str "INVALID_API_RESPONSE"; message = str message; details = none })

unfoldable pub expect_object : Option Value → String → Outcome Thrown Fields
expect_object (some (obj fields)) label = ok fields
expect_object _ label = throw (invalid_response (label <> ": expected object"))

unfoldable pub expect_array : Option Value → String → Outcome Thrown Items
expect_array (some (arr items)) label = ok items
expect_array _ label = throw (invalid_response (label <> ": expected array"))

-- `fields.forEach(…)`.
unfoldable pub expect_arrays : Fields → String → List String → Outcome Thrown (Unit {0})
unfolding expect_array
expect_arrays object label [] = ok tt
expect_arrays object label (name ∷ rest) =
    expect_array (lookup name object) (label <> "." <> name) >> expect_arrays object label rest

unfoldable pub expect_object_arrays : Option Value → String → List String → Outcome Thrown Fields
unfolding expect_object expect_arrays
expect_object_arrays value label fields = do
  object ← expect_object value label
  expect_arrays object label fields
  ok object

-- `{ ...section, k: section.k ?? [] }` for each of the keys.
unfoldable pub default_lists : Option Value → List String → Fields → Outcome Thrown Fields
unfolding get_prop
default_lists section [] result = ok result
default_lists section (key ∷ keys) result = do
  value ← get_prop section key
  default_lists section keys (put key (or_default value (arr nil)) result)

unfoldable pub with_lists : Option Value → List String → Outcome Thrown Value
unfolding default_lists
with_lists section keys = do fields ← default_lists section keys (spread section); ok (obj fields)

abbrev pub oidc_lists : List String
oidc_lists =
    "scopes" ∷ "signingAlgorithms" ∷ "viewerValues" ∷ "operatorValues" ∷ "sensitiveValues" ∷ []

-- The object literal of normalizeConfigCollections, from the values of its sections.
unfoldable pub assemble : Fields → Value → Value → Value → Value → Value → Value → Fields
assemble config upstreams egress notifications governance security traffic =
    put "trafficPolicy" traffic (
      put "managementSecurity" security (
        put "governance" governance (
          put "notifications" notifications
            (put "egress" egress (put "upstreams" upstreams config)))))

-- `{ ...config.managementSecurity, oidc: { … } }`.
unfoldable pub normalize_security : Option Value → Outcome Thrown Value
normalize_security security = do
  oidc ← get_prop security "oidc"
  lists ← with_lists oidc oidc_lists
  ok (obj (put "oidc" lists (spread security)))

unfoldable pub normalize_config_collections : Fields → Outcome Thrown Fields
normalize_config_collections config = do
  upstreams ← with_lists (lookup "upstreams" config) ("targets" ∷ [])
  egress ← with_lists (lookup "egress" config) ("allowedHosts" ∷ [])
  notifications ← with_lists (lookup "notifications" config) ("eventTypes" ∷ [])
  governance ← with_lists (lookup "governance" config) ("budgets" ∷ "prices" ∷ [])
  security ← normalize_security (lookup "managementSecurity" config)
  traffic ← with_lists (lookup "trafficPolicy" config) ("rules" ∷ [])
  ok (assemble config upstreams egress notifications governance security traffic)

unfoldable pub expect_capture_record : Option Value → String → Outcome Thrown Fields
unfolding expect_object expect_array
expect_capture_record value label = do
  fields ← expect_object value label
  expect_array (lookup "attempts" fields) (label <> ".attempts")
  ok fields

abbrev is_text : Option Value → Bool
is_text (some (str s)) = true
is_text _ = false

unfoldable pub expect_uncertain_preview : Option Value → String → Outcome Thrown Fields
unfolding expect_object expect_array truthy
expect_uncertain_preview value label = do
  preview ← expect_object value label
  let token = lookup "confirmationToken" preview
  if not (is_text token) || not (truthy token)
      then throw (invalid_response (label <> ".confirmationToken: expected token"))
      else if not (is_text (lookup "expiresAt" preview))
      then throw (invalid_response (label <> ".expiresAt: expected timestamp"))
      else do
        evidence ← expect_object (lookup "evidence" preview) (label <> ".evidence")
        expect_array (lookup "attempts" evidence) (label <> ".evidence.attempts")
        ok preview

-- The fields of ApiClient, and the codes that `onUnauthorized` has been called with, oldest first.
pub record Client : Type 0 where
  pub locale : String
  pub unauthorized_notified : Bool
  pub csrf_token : Value
  pub notified : List Value

unfoldable pub new_client : String → Client
new_client locale = record {
  locale = locale;
  unauthorized_notified = false;
  csrf_token = str "";
  notified = [];
}

unfoldable pub notify_unauthorized : Client → ℕ → Value → Client
notify_unauthorized client status code =
    if not (nat_eq status 401) || client.unauthorized_notified
    then client
    else record client { unauthorized_notified = true; notified = client.notified ++ code ∷ [] }

abbrev pub Headers : Type 0
Headers = List (String × Value)

unfoldable pub set_header : String → Value → Headers → Headers
set_header name v [] = (name, v) ∷ []
set_header name v ((k, w) ∷ rest) =
    if k == name then (k, v) ∷ rest else (k, w) ∷ set_header name v rest

unfoldable pub set_headers : Headers → Headers → Headers
unfolding set_header
set_headers [] onto = onto
set_headers ((k, v) ∷ more) onto = set_headers more (set_header k v onto)

-- `RequestInit`. The body is the value whose text JSON.stringify makes.
pub record Init : Type 0 where
  pub method : Option String
  pub body : Option Value
  pub headers : Headers

abbrev pub no_init : Init
no_init = record { method = none; body = none; headers = [] }

-- What `fetch` is given; `credentials` is always "same-origin".
pub record Sent : Type 0 where
  pub url : String
  pub method : Option String
  pub body : Option Value
  pub headers : Headers

-- What it answers; `body` is `none` where `response.json()` rejects.
pub record Response : Type 0 where
  pub status : ℕ
  pub is_ok : Bool
  pub body : Option Value

abbrev pub writes : Option String → Bool
writes none = false
writes (some method) = not (method == "") && not (method == "GET")

unfoldable pub build_request : Client → String → Init → Sent
unfolding set_headers
build_request client path init =
    let base =
      ("Accept-Language", str client.locale) ∷ ("Content-Type", str "application/json") ∷ [] in
    let guarded =
      if writes init.method then base ++ ("X-CSRF-Token", client.csrf_token) ∷ [] else base in
    record {
      url = "/admin/api" <> path;
      method = init.method;
      body = init.body;
      headers = set_headers init.headers guarded;
    }

-- The texts that the client takes from i18next and from `String(value)`, and the network.
pub record Platform : Type 0 where
  pub http_error : ℕ → String
  pub text_of : Option Value → String
  pub fetch : Sent → Outcome Thrown Response

-- `config.schemaVersion === 5`.
abbrev is_schema : Option Value → Bool
is_schema (some (num n)) = num_eq n (whole 5)
is_schema _ = false

abbrev pub payload_of : Option Value → Value
payload_of none = obj end
payload_of (some v) = v

abbrev pub login_init : String → Init
login_init key = record {
  method = some "POST";
  body = some (obj (field "key" (str key) end));
  headers = [];
}

abbrev check_session : Option Value → Outcome Thrown Fields
check_session value = expect_object_arrays value "session" ("capabilities" ∷ [])

-- `this.csrfToken = session.csrfToken || ""`.
unfoldable pub keep_token : Client × Outcome Thrown Fields → Client × Outcome Thrown Fields
keep_token (client, throw reason) = (client, throw reason)
keep_token (client, ok info) =
    (record client { csrf_token = or_value (lookup "csrfToken" info) (str "") }, ok info)

unfoldable pub allow_notice : Client × Outcome Thrown Fields → Client × Outcome Thrown Fields
allow_notice (client, throw reason) = (client, throw reason)
allow_notice (client, ok info) = (record client { unauthorized_notified = false }, ok info)

module _ (platform : Platform) where
  -- `if (!response.ok) …`, which `request` and `throwDownloadError` share.
  unfoldable pub fail : Client → ℕ → Option Value → Client × Thrown
  unfolding get_prop notify_unauthorized
  fail client status payload = elim (get_prop payload "code") [
    | throw reason ↦ (client, reason)
    | ok found ↦
        let code = or_value found (str ("HTTP_" <> show status)) in
        let client' = notify_unauthorized client status code in
        elim (get_prop payload "error") [
          | throw reason ↦ (client', reason)
          | ok message ↦ elim (get_prop payload "details") [
            | throw reason ↦ (client', reason)
            | ok details ↦ (
              client',
              api_error (record {
                code = code;
                message = or_value message (str (platform.http_error status));
                details = details;
              }),
            )
          ]
        ]
  ]

  module _ {ℓ} {T : Type ℓ} where
    unfoldable pub settle :
        Client → (Option Value → Outcome Thrown T) → Response → Client × Outcome Thrown T
    unfolding fail
    settle client validate response =
        let payload = some (payload_of response.body) in
        let (client', reason) = fail client response.status payload in
        if response.is_ok then (client, validate payload) else (client', throw reason)

    unfoldable pub request :
        Client → String → Init → (Option Value → Outcome Thrown T) → Client × Outcome Thrown T
    unfolding settle build_request
    request client path init validate = elim (platform.fetch (build_request client path init)) [
      | throw reason ↦ (client, throw reason)
      | ok response ↦ settle client validate response
    ]

  unfoldable pub session : Client → Client × Outcome Thrown Fields
  unfolding request keep_token
  session client = keep_token (request client "/session" no_init check_session)

  unfoldable pub login : Client → String → Client × Outcome Thrown Fields
  unfolding request keep_token allow_notice
  login client key =
      allow_notice (keep_token (request client "/session/login" (login_init key) check_session))

  -- The validator of `config`.
  unfoldable pub check_config : Option Value → Outcome Thrown Fields
  unfolding expect_object normalize_config_collections
  check_config value = do
    config ← expect_object value "config"
    let version = lookup "schemaVersion" config
    if is_schema version
        then normalize_config_collections config
        else throw (
            api_error (record {
              code = str "UNSUPPORTED_CONFIG_SCHEMA";
              message = str ("Unsupported config schema " <> platform.text_of version);
              details = none;
            }))
