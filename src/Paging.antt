-- ===== src/Paging.antt =====
-- The paged lists of the console: web/src/historyPagination.ts, and the history and incident lists
-- that web/src/App.tsx loads page by page, filters and refreshes.
pub mod Merged
pub mod Tests
use relay_lifeline.Prelude.{
  ℕ, Bool, true, false, not, List, [], ◌∷◌, ◌++◌, map, Option, none, some, String, Outcome, ok,
  throw, ◌>>=◌, if◌then◌else◌, ◌==◌, String_keys, filter, any, has,
}
use relay_lifeline.Json.{Thrown}

-- A record of a list, which carries an identifier.
pub record Listed {ℓ} (A : Type ℓ) : Type ℓ where
  pub id_of : A → String

abbrev pub id {ℓ} : {A : Type ℓ} ⦃listed : Listed A⦄ → A → String
id ⦃listed⦄ item = listed.id_of item

pub record ListFilters : Type 0 where
  pub q : String
  pub state : String
  pub from : String
  pub to : String

module _ {A : Type 0} ⦃listed : Listed A⦄ where
  unfoldable pub ids : List A → List String
  ids items = map (λ item. id item) items

  -- The fresh page, and the records that it does not have.
  unfoldable pub merge_history_page : List A → List A → List A
  unfolding ids
  merge_history_page current fresh =
      fresh ++ filter (λ item. not (has (id item) (ids fresh))) current

  unfoldable pub append_page : List A → List A → List A
  append_page current items =
      current ++ filter (λ item. not (any (λ existing. id existing == id item) current)) items

pub record Page (A : Type 0) : Type 0 where
  pub items : List A
  pub next_cursor : Option String
  pub has_more : Bool

-- A list as the console shows it, with the filters that it is loaded with and where to go on.
pub record Loaded (A : Type 0) : Type 0 where
  pub shown : List A
  pub filters : ListFilters
  pub cursor : Option String
  pub have_more : Bool

-- `fetch filters cursor limit` is the server's answer to a list call.
abbrev pub Fetch : Type 0 → Type 0
Fetch A = ListFilters → Option String → ℕ → Outcome Thrown (Page A)

abbrev limit : ℕ
limit = 100

abbrev pub is_cursor : Option String → Bool
is_cursor none = false
is_cursor (some cursor) = not (cursor == "")

abbrev pub turned : {A : Type 0} → Page A → List A → Loaded A → Loaded A
turned page items list = record list {
  shown = items;
  cursor = page.next_cursor;
  have_more = page.has_more;
}

module _ {A : Type 0} ⦃listed : Listed A⦄ where
  -- A page that continues the list goes after it; one that starts it goes before what is kept of it,
  -- or replaces it.
  unfoldable pub shown_after : Option String → Bool → List A → List A → List A
  shown_after cursor preserve_loaded current items =
      if is_cursor cursor
      then append_page current items
      else if preserve_loaded
      then merge_history_page current items
      else items

  unfoldable pub load_history :
      Fetch A → Option String → Bool → Loaded A → Outcome Thrown (Loaded A)
  load_history fetch cursor preserve_loaded list = fetch list.filters cursor limit >>= λ page.
      ok (turned page (shown_after cursor preserve_loaded list.shown page.items) list)

  unfoldable pub load_incidents : Fetch A → Option String → Loaded A → Outcome Thrown (Loaded A)
  load_incidents fetch cursor list = fetch list.filters cursor limit >>= λ page. ok (
      turned page (if is_cursor cursor then append_page list.shown page.items else page.items) list)

  -- New filters stay, also if their page cannot be loaded; the list and the cursor are then as before.
  unfoldable pub apply_filters : Fetch A → ListFilters → Loaded A → Loaded A × Option Thrown
  apply_filters fetch next list =
      let filtered = record list { filters = next } in
      elim (fetch next none limit) [
        | throw reason ↦ (filtered, some reason)
        | ok page ↦ (turned page page.items filtered, none)
      ]
