-- ===== src/Api/Endpoints.antt =====
-- The methods of ApiClient in web/src/api.ts as calls of its `request`: the path, what is sent, and
-- what the answer is checked for. The groups of methods are the children.
pub mod Reading
pub mod Operating
pub mod Configuring
pub mod Guarded
use relay_lifeline.Prelude.{
  ℕ, Bool, true, false, List, [], ◌∷◌, Option, none, some, String, Outcome, ok, throw, ◌>>=◌, ◌>>◌,
  ◌<>◌, show, ◌==◌, String_keys, if◌then◌else◌,
}
use relay_lifeline.Json.{Value, obj, arr, Thrown}
use relay_lifeline.Api.{Init, no_init, expect_object, expect_array, expect_object_arrays}

-- What a method gives to `request`. The answer is the checked value.
pub record Method : Type 0 where
  pub path : String
  pub init : Init
  pub check : Option Value → Outcome Thrown (Option Value)

-- The validator of a method that has none.
abbrev pub unchecked : Option Value → Outcome Thrown (Option Value)
unchecked value = ok value

unfoldable pub object_of : String → Option Value → Outcome Thrown (Option Value)
object_of label value = expect_object value label >>= λ fields. ok (some (obj fields))

unfoldable pub list_of : String → Option Value → Outcome Thrown (Option Value)
list_of label value = expect_array value label >>= λ items. ok (some (arr items))

unfoldable pub arrays_of : String → List String → Option Value → Outcome Thrown (Option Value)
arrays_of label names value =
    expect_object_arrays value label names >>= λ fields. ok (some (obj fields))

abbrev pub get : String → (Option Value → Outcome Thrown (Option Value)) → Method
get path check = record { path = path; init = no_init; check = check }

abbrev pub post : String → (Option Value → Outcome Thrown (Option Value)) → Method
post path check = record {
  path = path;
  init = record { method = some "POST"; body = none; headers = [] };
  check = check;
}

abbrev pub post_body : String → Value → (Option Value → Outcome Thrown (Option Value)) → Method
post_body path body check = record {
  path = path;
  init = record { method = some "POST"; body = some body; headers = [] };
  check = check;
}

abbrev pub put_body : String → Value → (Option Value → Outcome Thrown (Option Value)) → Method
put_body path body check = record {
  path = path;
  init = record { method = some "PUT"; body = some body; headers = [] };
  check = check;
}

abbrev pub del : String → (Option Value → Outcome Thrown (Option Value)) → Method
del path check = record {
  path = path;
  init = record { method = some "DELETE"; body = none; headers = [] };
  check = check;
}

-- One segment of a path or of a query: what the language's encodeURIComponent and URLSearchParams
-- make of texts.
pub record Encoder : Type 0 where
  pub component : String → String
  pub query : List (String × String) → String

-- The entries of a query that are neither missing nor empty.
unfoldable pub present : List (String × Option String) → List (String × String)
present [] = []
present ((key, none) ∷ rest) = present rest
present ((key, some value) ∷ rest) =
    if value == "" then present rest else (key, value) ∷ present rest
