-- ===== src/Theme.antt =====
-- The theme of the console, web/src/theme.ts: the mode that the user chose, what the browser prefers,
-- what is applied of them, and what is remembered.
pub mod Applied
mod Tests
use relay_lifeline.Prelude.{
  Bool, true, false, List, [], ◌∷◌, Option, none, some, String, if◌then◌else◌, ◌==◌, String_keys,
}

pub data ThemeMode : Type 0 where
  system : ThemeMode
  light : ThemeMode
  dark : ThemeMode

pub data ResolvedTheme : Type 0 where
  light_theme : ResolvedTheme
  dark_theme : ResolvedTheme

-- `stored` is the item of the local storage, `applied` what the document has, `resolved` what the
-- console passes on.
pub record ThemeState : Type 0 where
  pub mode : ThemeMode
  pub resolved : ResolvedTheme
  pub applied : ResolvedTheme
  pub applied_mode : ThemeMode
  pub stored : Option String
  pub prefers_dark : Bool

unfoldable pub stored_theme : Option String → ThemeMode
stored_theme none = system
stored_theme (some value) =
    if value == "light" then light else if value == "dark" then dark else system

-- Where the browser cannot tell, it does not prefer a dark theme.
unfoldable pub system_theme : Bool → ResolvedTheme
system_theme prefers_dark = if prefers_dark then dark_theme else light_theme

unfoldable pub resolve_theme : Bool → ThemeMode → ResolvedTheme
unfolding system_theme
resolve_theme prefers_dark system = system_theme prefers_dark
resolve_theme prefers_dark light = light_theme
resolve_theme prefers_dark dark = dark_theme

unfoldable pub apply_theme : ThemeMode → ThemeState → ThemeState
unfolding resolve_theme
apply_theme mode s = record s {
  resolved = resolve_theme s.prefers_dark mode;
  applied = resolve_theme s.prefers_dark mode;
  applied_mode = mode;
}

unfoldable pub remembered : ThemeMode → Option String
remembered system = none
remembered light = some "light"
remembered dark = some "dark"

-- The first effect, which runs after the mode has changed.
unfoldable pub mode_effect : ThemeState → ThemeState
unfolding apply_theme remembered
mode_effect s = record (apply_theme s.mode s) { stored = remembered s.mode }

-- The console opens: the mode is that of the storage.
unfoldable pub first_theme : Option String → Bool → ThemeState
unfolding stored_theme resolve_theme
first_theme item prefers = record {
  mode = stored_theme item;
  resolved = resolve_theme prefers (stored_theme item);
  applied = resolve_theme prefers (stored_theme item);
  applied_mode = stored_theme item;
  stored = item;
  prefers_dark = prefers;
}

unfoldable pub use_theme : Option String → Bool → ThemeState
unfolding first_theme mode_effect
use_theme item prefers = mode_effect (first_theme item prefers)

pub data ThemeEvent : Type 0 where
  chosen_mode : ThemeMode → ThemeEvent
  preference : Bool → ThemeEvent

abbrev is_system : ThemeMode → Bool
is_system system = true
is_system _ = false

-- The second effect listens to the browser only while the mode is the system's.
unfoldable pub on_theme : ThemeState → ThemeEvent → ThemeState
unfolding mode_effect apply_theme
on_theme s (chosen_mode mode) = mode_effect (record s { mode = mode })
on_theme s (preference prefers) =
    let told = record s { prefers_dark = prefers } in
    if is_system s.mode then apply_theme system told else told

unfoldable pub on_themes : ThemeState → List ThemeEvent → ThemeState
unfolding on_theme
on_themes s [] = s
on_themes s (event ∷ rest) = on_themes (on_theme s event) rest
