-- ===== src/Api/Unauthorized.antt =====
-- Failed answers in web/src/api.ts: what a request throws, and how often the console is told that
-- its session is gone.
use mathlib.Core.List.{append-nil}
use relay_lifeline.Prelude.{
  ℕ, ◌≡◌, refl, ◌∙◌, Bool, true, false, not, List, [], ◌∷◌, ◌++◌, Option, none, some, String, arith,
  Outcome, ok, throw, nat_eq, if◌then◌else◌, show, ◌<>◌, inl, inr, ◌||◌, ◌⊎◌, Bool-cases,
}
use relay_lifeline.Json.{
  Value, str, Fields, Thrown, ApiError, api_error, type_error, lookup, null, obj, get_prop,
  or_value,
}
use relay_lifeline.Json.Laws.{get_prop-cases}
use relay_lifeline.Api.{
  Client, Init, Response, Platform, payload_of, notify_unauthorized, fail, settle, request, login,
  login_init, keep_token, allow_notice, check_session,
}

-- The code of a failed answer: what its body says, else `HTTP_` and the status; none where the body
-- is `null`, on which the access of its code throws.
unfoldable pub code_in : Value → ℕ → Option Value
unfolding get_prop
code_in payload status = elim (get_prop (some payload) "code") [
  | throw _ ↦ none
  | ok code ↦ some (or_value code (str ("HTTP_" <> show status)))
]

abbrev pub code_of : Response → Option Value
code_of response = code_in (payload_of response.body) response.status

-- The code under which an answer is reported as unauthorized.
abbrev report : Option Value → Bool → ℕ → List Value
report none is_ok status = []
report (some code) is_ok status =
    if not is_ok then (if nat_eq status 401 then code ∷ [] else []) else []

unfoldable pub denied : Response → List Value
denied response = report (code_of response) response.is_ok response.status

-- Of the first answer that is reported.
unfoldable pub first_denied : List Response → List Value
first_denied [] = []
first_denied (r ∷ rs) = elim (denied r) [ [] ↦ first_denied rs | code ∷ _ ↦ code ∷ [] ]

abbrev is_empty : List Value → Bool
is_empty [] = true
is_empty (_ ∷ _) = false

-- How a failed answer rejects: by an ApiError with the code, or by the error of the language
-- where there is none.
abbrev pub Rejects : Option Value → Thrown → Type 0
Rejects none reason = reason ≡ type_error
Rejects (some code) reason = (e : ApiError) × (reason ≡ api_error e) × (e.code ≡ code)

module _ (platform : Platform) where
  -- The client after one answer to a request that reads nothing from it.
  abbrev pub after : Client → Response → Client
  after client response = (settle platform client (λ v. ok v) response).0

  -- After a row of answers, with no login between them.
  unfoldable pub after_all : Client → List Response → Client
  after_all client [] = client
  after_all client (r ∷ rs) = after_all (after client r) rs

  after-denied :
      (client : Client) (r : Response)
      → let next = after client r in
        (next.notified ≡ client.notified ++ (if client.unauthorized_notified then [] else denied r))
        × (next.unauthorized_notified ≡ (client.unauthorized_notified || not (is_empty (denied r))))
        × (next.csrf_token ≡ client.csrf_token)
  unfolding settle fail notify_unauthorized denied code_in
  after-denied client r = elim (get_prop-cases (payload_of r.body)) [
    | inl (_, refused) ↦ ground (arith, refused "code", append-nil client.notified)
    | inr (_, reads) ↦
        ground (arith, reads "code", reads "error", reads "details", append-nil client.notified)
  ]

  report-cases :
      (found : Option Value) (is_ok : Bool) (status : ℕ)
      → (report found is_ok status ≡ [])
        ⊎ ((code : Value) × (report found is_ok status ≡ code ∷ []))
  report-cases none is_ok status = inl refl
  report-cases (some code) true status = inl refl
  report-cases (some code) false status = elim (Bool-cases (nat_eq status 401)) [
    | inl gone ↦ inr (code, rw gone)
    | inr other ↦ inl (rw other)
  ]

  denied-cases : (r : Response) → (denied r ≡ []) ⊎ ((code : Value) × (denied r ≡ code ∷ []))
  unfolding denied
  denied-cases r = report-cases (code_of r) r.is_ok r.status

  -- Over any row of answers between two logins the console is told of the first unauthorized one
  -- and of no other; if it has been told since the last login, of none.
  pub after_all-notified :
      (client : Client) (rs : List Response)
      → (after_all client rs).notified
        ≡ client.notified ++ (if client.unauthorized_notified then [] else first_denied rs)
  unfolding after_all first_denied
  after_all-notified client [] = ground (arith, append-nil client.notified)
  after_all-notified client (r ∷ rs) =
      let (told, flag, _) = after-denied client r in
      let later = after_all-notified (after client r) rs in
      elim (denied-cases r) [
        | inl quiet ↦ ground (arith, told, flag, later, quiet, append-nil client.notified)
        | inr (code, loud) ↦ ground (
          arith,
          told,
          flag,
          later,
          loud,
          append-nil client.notified,
          append-nil (client.notified ++ code ∷ []),
        )
      ]

  abbrev no_error : ApiError
  no_error = record { code = null; message = null; details = none }

  abbrev error_of : ApiError → Thrown → ApiError
  error_of other (api_error e) = e
  error_of other _ = other

  fail-Rejects :
      (client : Client) (status : ℕ) (other : ApiError) (v : Value)
      → Rejects (code_in v status) (fail platform client status (some v)).1
  unfolding fail code_in
  fail-Rejects client status other null = refl
  fail-Rejects client status other (obj fields) =
      (error_of other (fail platform client status (some (obj fields))).1, refl, refl)
  fail-Rejects client status other v =
      (error_of other (fail platform client status (some v)).1, refl, refl)

  module _ {ℓ} {T : Type ℓ} where
    -- An answer that is not ok makes the request reject with the code of its body, or with `HTTP_`
    -- and its status where the body has none, and the validator is not asked; with a body that is
    -- `null` it rejects with a TypeError. An answer that is ok leaves the client as it was and
    -- gives what the validator says of its body.
    pub settle-Rejects :
        (client : Client) (validate : Option Value → Outcome Thrown T) (r : Response)
        → ((r.is_ok ≡ false)
            → (reason : Thrown) × ((settle platform client validate r).1 ≡ throw reason)
              × Rejects (code_of r) reason)
          × ((r.is_ok ≡ true)
              → settle platform client validate r ≡ (client, validate (some (payload_of r.body))))
    unfolding settle
    settle-Rejects client validate r = (
      λ failed. (
        (fail platform client r.status (some (payload_of r.body))).1,
        rw failed,
        fail-Rejects client r.status no_error (payload_of r.body),
      ),
      λ fine. rw fine,
    )

    request-csrf_token :
        (client : Client) (path : String) (init : Init) (validate : Option Value → Outcome Thrown T)
        → (request platform client path init validate).0.csrf_token ≡ client.csrf_token
    unfolding request settle fail notify_unauthorized
    request-csrf_token client path init validate = ground arith

  allow_notice-csrf_token :
      (p : Client × Outcome Thrown Fields)
      → let (next, out) = allow_notice (keep_token p) in
        ((info : Fields)
          → out ≡ ok info
          → (next.unauthorized_notified ≡ false)
            × (next.csrf_token ≡ or_value (lookup "csrfToken" info) (str "")))
        × ((reason : Thrown) → out ≡ throw reason → next.csrf_token ≡ p.0.csrf_token)
  unfolding allow_notice keep_token
  allow_notice-csrf_token (client, throw e) = (λ info h. cc, λ reason h. refl)
  allow_notice-csrf_token (client, ok i) = (λ info h. (refl, ground arith), λ reason h. cc)

  -- A login that succeeds lets the client report again, and takes the token of its answer, or the
  -- empty text; one that fails keeps the token.
  pub login-csrf_token :
      (client : Client) (key : String)
      → let (next, out) = login platform client key in
        ((info : Fields)
          → out ≡ ok info
          → (next.unauthorized_notified ≡ false)
            × (next.csrf_token ≡ or_value (lookup "csrfToken" info) (str "")))
        × ((reason : Thrown) → out ≡ throw reason → next.csrf_token ≡ client.csrf_token)
  unfolding login
  login-csrf_token client key =
      let (good, bad) = allow_notice-csrf_token _ in
      (
        good,
        λ reason h.
            bad reason h
            ∙ request-csrf_token client "/session/login" (login_init key) check_session,
      )
