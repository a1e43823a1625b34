-- ===== src/Theme/Tests.antt =====
-- The theme on concrete events.
use relay_lifeline.Prelude.{◌≡◌, refl, List, [], ◌∷◌, true, false, some, String_keys}
use relay_lifeline.Theme.{
  system, light, dark_theme, stored_theme, system_theme, resolve_theme, apply_theme, remembered,
  mode_effect, first_theme, use_theme, ThemeEvent, chosen_mode, preference, on_theme, on_themes,
}
use relay_lifeline.Theme.Applied.{use_theme-HasTheme}

abbrev switched : List ThemeEvent
switched =
    chosen_mode light
    ∷ preference true
    ∷ chosen_mode system
    ∷ preference false
    ∷ preference true
    ∷ []

followed : (on_themes (use_theme (some "blue") false) switched).applied ≡ dark_theme
unfolding stored_theme system_theme resolve_theme apply_theme remembered mode_effect first_theme
    use_theme on_theme on_themes
followed = refl

use_theme-HasTheme_example :
    ((on_themes (use_theme (some "dark") true) switched).applied ≡ dark_theme)
    × ((on_themes (use_theme (some "dark") true) switched).resolved
        ≡ (on_themes (use_theme (some "dark") true) switched).applied)
    × (stored_theme (on_themes (use_theme (some "dark") true) switched).stored ≡ system)
use_theme-HasTheme_example = use_theme-HasTheme (some "dark") true switched
