-- ===== src/Settings/Edits/Scoped.antt =====
-- What an edit of a section does to the settings.
use relay_lifeline.Prelude.{
  ◌≡◌, refl, ap, ◌∙◌, inl, inr, Bool, true, false, List, [], ◌∷◌, ◌++◌, Option, some, String,
  if◌then◌else◌, ◌==◌, String_keys, has, Bool-cases, arith, eq_iff, not, filter, ◌||◌,
}
use relay_lifeline.Json.{Value, obj, Fields, end, field, lookup, put, spread}
use relay_lifeline.Json.Laws.{lookup-put}
use relay_lifeline.Settings.Edits.{put_all, patch, distinct_after, toggle_event}

-- The value that the changes give to a property: the last one that they name it with.
abbrev pub changed_to : String → Fields → Option Value → Option Value
changed_to name end before = before
changed_to name (field key value rest) before =
    changed_to name rest (if key == name then some value else before)

lookup-put_all :
    (name : String) (changes base : Fields)
    → lookup name (put_all changes base) ≡ changed_to name changes (lookup name base)
unfolding put_all
lookup-put_all name end base = refl
lookup-put_all name (field key value rest) base =
    lookup-put_all name rest (put key value base)
    ∙ ap (changed_to name rest) (lookup-put name key value base)

-- A property of a section of the settings.
abbrev pub setting : String → String → Fields → Option Value
setting key name config = lookup name (spread (lookup key config))

-- After an edit of a section a property of the settings is, if it is one of that section, what the edit
-- gives it, and as it was if the edit does not name it; and every property of another section is as it
-- was.
pub setting-patch :
    (key name edited : String) (changes config : Fields)
    → setting key name (patch edited changes config) ≡ (
        if edited == key
        then changed_to name changes (setting key name config)
        else setting key name config)
unfolding patch spread
setting-patch key name edited changes config =
    let section = put_all changes (spread (lookup edited config)) in
    let chosen : lookup name
          (spread (if edited == key then some (obj section) else lookup key config))
        ≡ (if edited == key
            then changed_to name changes (setting key name config)
            else setting key name config) =
      elim (Bool-cases (edited == key)) [
        | inl e ↦
            let same : edited ≡ key = ground (arith, eq_iff edited key) in
            rw e (
              lookup-put_all name changes (spread (lookup edited config))
              ∙ ap (λ k. changed_to name changes (setting k name config)) same)
        | inr e ↦ rw e (refl)
      ] in
    ap (λ o. lookup name (spread o)) (lookup-put key edited (obj section) config) ∙ chosen

has-append : (x : String) (xs ys : List String) → has x (xs ++ ys) ≡ (has x xs || has x ys)
has-append x [] ys = refl
has-append x (y ∷ xs) ys = ground (arith, has-append x xs ys)

has-distinct_after :
    (x : String) (seen xs : List String) → has x (distinct_after seen xs) ≡ (has x seen || has x xs)
unfolding distinct_after
has-distinct_after x seen [] = ground arith
has-distinct_after x seen (y ∷ xs) = elim (Bool-cases (has y seen)) [
  | inl old ↦ rw old (ground (arith, has-distinct_after x seen xs, eq_iff y x))
  | inr new ↦
      rw new (ground (arith, has-distinct_after x (seen ++ y ∷ []) xs, has-append x seen (y ∷ [])))
]

has-filter_other :
    (x y : String) (xs : List String)
    → has x (filter (λ value. not (value == y)) xs) ≡ (if y == x then false else has x xs)
has-filter_other x y [] = ground arith
has-filter_other x y (z ∷ xs) =
    ground (arith, eq_iff z y, eq_iff z x, eq_iff y x, has-filter_other x y xs)

-- Switching an event type on or off does so for that type, and leaves every other as it was.
pub has-toggle_event :
    (x event_type : String) (enabled : Bool) (event_types : List String)
    → has x (toggle_event event_type enabled event_types)
      ≡ (if event_type == x then enabled else has x event_types)
unfolding toggle_event
has-toggle_event x event_type true event_types = ground (
  arith,
  has-distinct_after x [] (event_types ++ event_type ∷ []),
  has-append x event_types (event_type ∷ []),
)
has-toggle_event x event_type false event_types = has-filter_other x event_type event_types
