-- ===== src/Api/Tests.antt =====
-- The client of the management API on concrete answers, and its theorems at them.
use relay_lifeline.Prelude.{◌≡◌, refl, true, false, [], ◌∷◌, none, some, ok, throw}
use relay_lifeline.Json.{
  null, str, arr, obj, nil, Fields, end, field, lookup, put, get_prop, truthy, or_value, or_default,
  spread,
}
use relay_lifeline.Numbers.{num_eq}
use relay_lifeline.Api.{
  Client, Init, Response, Platform, new_client, build_request, expect_object_arrays,
  normalize_config_collections, normalize_security, with_lists, assemble, settle, login,
  invalid_response,
}
use relay_lifeline.Api.Config.{IsNormalized, normalize-IsNormalized}
use relay_lifeline.Api.Headers.{get_header}
use relay_lifeline.Api.Unauthorized.{code_in, denied, first_denied, after_all, after_all-notified}
use relay_lifeline.Api.Endpoints.{Encoder}
use relay_lifeline.Api.Endpoints.Operating.{clear_retry_policy, operate_call}
use relay_lifeline.Api.Endpoints.Guarded.{operating, call, call-csrf}

api : Unit {0}
unfolding operate_call expect_object_arrays normalize_config_collections normalize_security
    with_lists assemble lookup put get_prop or_default spread truthy or_value num_eq settle login
    build_request get_header first_denied denied after_all new_client
api = tt

abbrev two_lists : Fields
two_lists = field "requests" (arr nil) (field "timeline" null end)

second_is_missing :
    expect_object_arrays (some (obj two_lists)) "incident" ("requests" ∷ "timeline" ∷ [])
    ≡ throw (invalid_response "incident.timeline: expected array")
unfolding api
second_is_missing = refl

abbrev bare_config : Fields
bare_config =
    field "upstreams" (obj (field "targets" null (field "strategy" (str "primary-only") end))) (
      field "egress" (obj end) (
        field "notifications" (obj end) (
          field "governance" (obj end) (
            field "managementSecurity" (obj (field "oidc" (obj end) end))
              (field "trafficPolicy" (obj end) end)))))

abbrev full_config : Fields
full_config =
    field "upstreams" (obj (field "targets" (arr nil) (field "strategy" (str "primary-only") end)))
      (field "egress" (obj (field "allowedHosts" (arr nil) end)) (
        field "notifications" (obj (field "eventTypes" (arr nil) end)) (
          field "governance" (obj (field "budgets" (arr nil) (field "prices" (arr nil) end))) (
            field "managementSecurity"
              (obj (
                field "oidc"
                  (obj (
                    field "scopes" (arr nil) (
                      field "signingAlgorithms" (arr nil) (
                        field "viewerValues" (arr nil) (
                          field "operatorValues" (arr nil)
                            (field "sensitiveValues" (arr nil) end))))))
                  end))
              (field "trafficPolicy" (obj (field "rules" (arr nil) end)) end)))))

fills_lists : normalize_config_collections bare_config ≡ ok full_config
unfolding api
fills_lists = refl

normalize-IsNormalized_example : IsNormalized bare_config full_config
normalize-IsNormalized_example = normalize-IsNormalized bare_config full_config fills_lists

abbrev gone : Response
gone = record {
  status = 401;
  is_ok = false;
  body = some (obj (field "code" (str "SESSION_EXPIRED") end));
}

abbrev bad_gateway : Response
bad_gateway = record { status = 502; is_ok = false; body = none }

abbrev welcome : Response
welcome = record {
  status = 200;
  is_ok = true;
  body = some (obj (field "capabilities" (arr nil) (field "csrfToken" (str "t1") end)));
}

abbrev platform : Platform
platform = record {
  http_error = λ status. "HTTP error";
  text_of = λ v. "";
  fetch = λ sent. ok welcome;
}

abbrev client : Client
client = record {
  locale = "en-US";
  unauthorized_notified = false;
  csrf_token = str "";
  notified = [];
}

after_all-notified_example :
    (after_all platform client (bad_gateway ∷ gone ∷ gone ∷ [])).notified
    ≡ str "SESSION_EXPIRED" ∷ []
unfolding api code_in
after_all-notified_example = after_all-notified platform client (bad_gateway ∷ gone ∷ gone ∷ [])

abbrev posting : Init
posting = record { method = some "POST"; body = none; headers = [] }

abbrev encoder : Encoder
encoder = record { component = λ text. text; query = λ entries. "" }

call-csrf_example :
    get_header "X-CSRF-Token"
      (build_request client "/requests/r1/retry-policy"
        (call platform encoder (operating (clear_retry_policy "r1"))).init).headers
    ≡ some (str "")
unfolding api
call-csrf_example = (call-csrf platform encoder client (operating (clear_retry_policy "r1"))).0
