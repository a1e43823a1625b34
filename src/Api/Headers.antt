-- ===== src/Api/Headers.antt =====
-- The headers that ApiClient.request (web/src/api.ts) sends.
use relay_lifeline.Prelude.{
  ◌≡◌, refl, [], ◌∷◌, Option, none, some, String, arith, if◌then◌else◌, ◌==◌, String_keys, eq_iff,
  Bool-cases, inl, inr,
}
use relay_lifeline.Json.{Value, str}
use relay_lifeline.Api.{Client, Headers, set_header, set_headers, Init, writes, build_request}

unfoldable pub get_header : String → Headers → Option Value
get_header name [] = none
get_header name ((k, v) ∷ rest) = if k == name then some v else get_header name rest

get_header-set_header :
    (name k : String) (v : Value) (onto : Headers)
    → get_header name (set_header k v onto) ≡ (if k == name then some v else get_header name onto)
unfolding get_header set_header
get_header-set_header name k v [] = refl
get_header-set_header name k v ((j, w) ∷ rest) =
    ground (arith, eq_iff j k, eq_iff k name, eq_iff j name, get_header-set_header name k v rest)

get_header-set_headers :
    (name : String) (more onto : Headers)
    → get_header name more ≡ none
    → get_header name (set_headers more onto) ≡ get_header name onto
unfolding get_header set_headers
get_header-set_headers name [] onto h = refl
get_header-set_headers name ((k, v) ∷ more) onto h = ground (
  arith,
  get_header-set_headers name more (set_header k v onto),
  get_header-set_header name k v onto,
)

-- Unless a method sets the headers itself, a request carries the client's CSRF token exactly when
-- its method is given and is not GET, and it always carries the client's locale.
pub build_request-headers :
    (client : Client) (path : String) (init : Init)
    → get_header "X-CSRF-Token" init.headers ≡ none
    → get_header "Accept-Language" init.headers ≡ none
    → let sent = (build_request client path init).headers in
      (get_header "X-CSRF-Token" sent
        ≡ (if writes init.method then some client.csrf_token else none))
      × (get_header "Accept-Language" sent ≡ some (str client.locale))
unfolding build_request get_header
build_request-headers client path init csrf locale = elim (Bool-cases (writes init.method)) [
  | inl unsafe ↦ rw unsafe (
    get_header-set_headers "X-CSRF-Token" init.headers _ csrf,
    get_header-set_headers "Accept-Language" init.headers _ locale,
  )
  | inr safe ↦ rw safe (
    get_header-set_headers "X-CSRF-Token" init.headers _ csrf,
    get_header-set_headers "Accept-Language" init.headers _ locale,
  )
]
