-- ===== src/Theme/Applied.antt =====
-- What is applied of the theme and what is remembered.
use relay_lifeline.Prelude.{
  ◌≡◌, refl, sym, ap, subst, ◌∙◌, true, false, List, [], ◌∷◌, Bool, Option, String,
}
use relay_lifeline.Theme.{
  ThemeMode, ResolvedTheme, light_theme, dark_theme, system, light, dark, ThemeState, stored_theme,
  resolve_theme, apply_theme, remembered, mode_effect, first_theme, use_theme, ThemeEvent,
  chosen_mode, preference, on_theme, on_themes,
}

-- The document has the theme of the mode, which is what the console passes on; and the storage has the
-- mode.
abbrev pub IsApplied : ThemeState → Type 0
IsApplied s =
    (s.resolved ≡ resolve_theme s.prefers_dark s.mode)
    × (s.applied ≡ resolve_theme s.prefers_dark s.mode)
    × (s.applied_mode ≡ s.mode)
    × (stored_theme s.stored ≡ s.mode)

stored_theme-remembered : (mode : ThemeMode) → stored_theme (remembered mode) ≡ mode
unfolding stored_theme remembered
stored_theme-remembered system = refl
stored_theme-remembered light = refl
stored_theme-remembered dark = refl

mode_effect-IsApplied : (s : ThemeState) → IsApplied (mode_effect s)
unfolding mode_effect apply_theme
mode_effect-IsApplied s = (refl, refl, refl, stored_theme-remembered s.mode)

preference-IsApplied :
    (mode : ThemeMode) (s : ThemeState) (prefers : Bool)
    → IsApplied (record s { mode = mode })
    → IsApplied (on_theme (record s { mode = mode }) (preference prefers))
unfolding on_theme apply_theme resolve_theme
preference-IsApplied system s prefers h = (refl, refl, refl, h.3)
preference-IsApplied light s prefers h = h
preference-IsApplied dark s prefers h = h

on_themes-IsApplied :
    (s : ThemeState) (events : List ThemeEvent) → IsApplied s → IsApplied (on_themes s events)
unfolding on_themes on_theme
on_themes-IsApplied s [] h = h
on_themes-IsApplied s (chosen_mode mode ∷ rest) h =
    on_themes-IsApplied (on_theme s (chosen_mode mode)) rest
      (mode_effect-IsApplied (record s { mode = mode }))
on_themes-IsApplied s (preference prefers ∷ rest) h =
    on_themes-IsApplied (on_theme s (preference prefers)) rest
      (preference-IsApplied s.mode s prefers h)

-- The theme that a document must have: the one that was chosen, or, if the mode is the system's, a dark
-- one just where the browser prefers one.
abbrev pub HasTheme : Bool → ThemeMode → ResolvedTheme → Type 0
HasTheme true system theme = theme ≡ dark_theme
HasTheme false system theme = theme ≡ light_theme
HasTheme prefers light theme = theme ≡ light_theme
HasTheme prefers dark theme = theme ≡ dark_theme

-- The mode that was chosen last, and the preference that the browser told last.
abbrev pub last_mode : ThemeMode → List ThemeEvent → ThemeMode
last_mode mode [] = mode
last_mode mode (chosen_mode next ∷ rest) = last_mode next rest
last_mode mode (preference _ ∷ rest) = last_mode mode rest

abbrev pub last_preference : Bool → List ThemeEvent → Bool
last_preference prefers [] = prefers
last_preference prefers (chosen_mode _ ∷ rest) = last_preference prefers rest
last_preference prefers (preference next ∷ rest) = last_preference next rest

resolve_theme-HasTheme :
    (prefers : Bool) (mode : ThemeMode) → HasTheme prefers mode (resolve_theme prefers mode)
unfolding resolve_theme
resolve_theme-HasTheme true system = refl
resolve_theme-HasTheme false system = refl
resolve_theme-HasTheme true light = refl
resolve_theme-HasTheme false light = refl
resolve_theme-HasTheme true dark = refl
resolve_theme-HasTheme false dark = refl

preference-mode :
    (mode : ThemeMode) (s : ThemeState) (prefers : Bool)
    → ((on_theme (record s { mode = mode }) (preference prefers)).mode ≡ mode)
      × ((on_theme (record s { mode = mode }) (preference prefers)).prefers_dark ≡ prefers)
unfolding on_theme apply_theme
preference-mode system s prefers = (refl, refl)
preference-mode light s prefers = (refl, refl)
preference-mode dark s prefers = (refl, refl)

-- The events decide the mode and the preference of the state.
on_themes-last :
    (s : ThemeState) (events : List ThemeEvent)
    → ((on_themes s events).mode ≡ last_mode s.mode events)
      × ((on_themes s events).prefers_dark ≡ last_preference s.prefers_dark events)
unfolding on_themes on_theme mode_effect apply_theme
on_themes-last s [] = (refl, refl)
on_themes-last s (chosen_mode mode ∷ rest) = on_themes-last (on_theme s (chosen_mode mode)) rest
on_themes-last s (preference prefers ∷ rest) =
    let (m, p) = on_themes-last (on_theme s (preference prefers)) rest in
    let (same, told) = preference-mode s.mode s prefers in
    (m ∙ ap (λ t. last_mode t rest) same, p ∙ ap (λ t. last_preference t rest) told)

-- Whatever is chosen and whatever the browser comes to prefer after the console opens: the document and
-- the console have the theme that was chosen last, or that was stored if none was chosen, or, if that is
-- the system's, a dark one just where the browser prefers one by then; and the mode that is stored is the
-- one that a console that opens then starts with.
pub use_theme-HasTheme :
    (item : Option String) (prefers : Bool) (events : List ThemeEvent)
    → let s = on_themes (use_theme item prefers) events in
      let mode = last_mode (stored_theme item) events in
      HasTheme (last_preference prefers events) mode s.applied
      × (s.resolved ≡ s.applied)
      × (stored_theme s.stored ≡ mode)
unfolding use_theme first_theme mode_effect apply_theme
use_theme-HasTheme item prefers events =
    let s = on_themes (use_theme item prefers) events in
    let (resolved, applied, shown, kept) : IsApplied s =
      on_themes-IsApplied (use_theme item prefers) events
        (mode_effect-IsApplied (first_theme item prefers)) in
    let (mode, told) = on_themes-last (use_theme item prefers) events in
    (
      subst
          (λ (t : ResolvedTheme).
            HasTheme (last_preference prefers events) (last_mode (stored_theme item) events) t)
          (sym (
            applied
            ∙ ap (λ m. resolve_theme s.prefers_dark m) mode
            ∙ ap (λ b. resolve_theme b (last_mode (stored_theme item) events)) told))
          (resolve_theme-HasTheme (last_preference prefers events)
            (last_mode (stored_theme item) events)),
      resolved ∙ sym applied,
      kept ∙ mode,
    )
