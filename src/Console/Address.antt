-- ===== src/Console/Address.antt =====
-- The address of a view in web/src/App.tsx: how the view and the filters of a list are written to the
-- hash of the address and read from it.
pub mod Returned
mod Tests
use Prim.Native.String
use Prim.Native.Char.{code}
use relay_lifeline.Prelude.{
  Bool, true, false, not, ◌||◌, List, [], ◌∷◌, Option, none, some, String, if◌then◌else◌, ◌==◌,
  String_keys, nat_eq, ◌<>◌, filter, ◌≡◌,
}
use relay_lifeline.Paging.{ListFilters}
use relay_lifeline.Console.{
  View, overview, requests, history, incidents, logs, captures, diagnostics, settings, same_view,
}

unfoldable pub view_text : View → String
view_text overview = "overview"
view_text requests = "requests"
view_text history = "history"
view_text incidents = "incidents"
view_text logs = "logs"
view_text captures = "captures"
view_text diagnostics = "diagnostics"
view_text settings = "settings"

-- The view of that name, and the overview for any other text.
unfoldable pub view_of : String → View
view_of text =
    if text == "requests"
    then requests
    else if text == "history"
    then history
    else if text == "incidents"
    then incidents
    else if text == "logs"
    then logs
    else if text == "captures"
    then captures
    else if text == "diagnostics"
    then diagnostics
    else if text == "settings"
    then settings
    else overview

-- `text.split("?", 1)[0]`.
unfoldable pub before_mark : String → String
before_mark String.[] = ""
before_mark (String.◌∷◌ c rest) =
    if nat_eq (code c) b'?' then "" else String.◌∷◌ c (before_mark rest)

-- `text.split("?", 2)[1] || ""`.
unfoldable pub after_mark : String → String
unfolding before_mark
after_mark String.[] = ""
after_mark (String.◌∷◌ c rest) = if nat_eq (code c) b'?' then before_mark rest else after_mark rest

unfoldable pub without_slash : String → String
without_slash String.[] = ""
without_slash (String.◌∷◌ c rest) = if nat_eq (code c) b'/' then rest else String.◌∷◌ c rest

-- `hash.replace(/^#\/?/, "")`.
unfoldable pub without_hash : String → String
unfolding without_slash
without_hash String.[] = ""
without_hash (String.◌∷◌ c rest) =
    if nat_eq (code c) b'#' then without_slash rest else String.◌∷◌ c rest

unfoldable pub current_view : String → View
unfolding view_of before_mark without_hash
current_view hash = view_of (before_mark (without_hash hash))

-- Whether a text has a question mark.
unfoldable pub marked : String → Bool
marked String.[] = false
marked (String.◌∷◌ c rest) = nat_eq (code c) b'?' || marked rest

-- The browser's URLSearchParams: what a list of parameters is written as, and read from. What is written
-- reads back, nothing is written for no parameters, and a question mark is escaped.
pub record UrlParams : Type 0 where
  pub write : List (String × String) → String
  pub read : String → List (String × String)
  pub read_write : (params : List (String × String)) → read (write params) ≡ params
  pub write_none : write [] ≡ ""
  pub write_unmarked : (params : List (String × String)) → marked (write params) ≡ false

abbrev pub no_filters : ListFilters
no_filters = record { q = ""; state = ""; from = ""; to = "" }

-- The parameters of the filters that are not empty.
unfoldable pub params_of : ListFilters → List (String × String)
params_of f =
    filter (λ (p : String × String). not (p.1 == ""))
      (("q", f.q) ∷ ("state", f.state) ∷ ("from", f.from) ∷ ("to", f.to) ∷ [])

-- `params.get(key) || ""`.
unfoldable pub get_param : String → List (String × String) → String
get_param key [] = ""
get_param key ((name, value) ∷ rest) = if name == key then value else get_param key rest

-- The filters that the parameters give to a list, if its view is the current one.
unfoldable pub filters_of : View → View → List (String × String) → ListFilters
unfolding get_param
filters_of target current params =
    if same_view current target
    then record {
      q = get_param "q" params;
      state = get_param "state" params;
      from = get_param "from" params;
      to = get_param "to" params;
    }
    else no_filters

module _ (url : UrlParams) where
  abbrev pub query_of : Option ListFilters → String
  query_of none = url.write []
  query_of (some filters) = url.write (params_of filters)

  unfoldable pub view_hash : View → Option ListFilters → String
  unfolding view_text params_of
  view_hash view filters =
      "#/" <> (view_text view <> (if query_of filters == "" then "" else "?" <> query_of filters))

  unfoldable pub filters_from_hash : View → String → ListFilters
  unfolding current_view after_mark
  filters_from_hash target hash = filters_of target (current_view hash) (url.read (after_mark hash))
