-- ===== src/Console/Navigation.antt =====
-- The change of views in web/src/App.tsx: who enters the settings, and what becomes of unsaved edits.
use relay_lifeline.Prelude.{
  if-P, ◌≡◌, ◌⊎◌, inl, inr, refl, Bool, true, false, not, ◌&&◌, String, String_keys, Bool-cases,
  arith,
}
use relay_lifeline.Json.{Value}
use relay_lifeline.Console.{
  Console, View, can_operate, is_settings, same_view, dirty, confirm_settings_leave, stay, enter,
  leave, select_view,
}

-- What a change of view from `s` to `next` may do: stay, with the settings as they were, or move.
abbrev pub IsAllowed : (Value → String) → Bool → View → Console → Console → Type 0
IsAllowed stringify answer next s t =
    ((t.view ≡ s.view) × (t.config ≡ s.config))
    ⊎ ((t.view ≡ next)
        × ((is_settings next ≡ true) → (can_operate s ≡ true))
        × (((t.config ≡ s.config) × ((is_settings s.view ≡ false) ⊎ (dirty stringify s ≡ false)))
            ⊎ ((t.config ≡ s.saved_config) × (answer ≡ true) × (s.confirmation_pending ≡ false))))

stay-view : (update_hash : Bool) (s : Console) → (stay update_hash s).view ≡ s.view
stay-view true s = refl
stay-view false s = refl

stay-config : (update_hash : Bool) (s : Console) → (stay update_hash s).config ≡ s.config
stay-config true s = refl
stay-config false s = refl

enter-view :
    (next : View) (update_hash : Bool) (s : Console) → (enter next update_hash s).view ≡ next
enter-view next true s = refl
enter-view next false s = refl

enter-config :
    (next : View) (update_hash : Bool) (s : Console) → (enter next update_hash s).config ≡ s.config
enter-config next true s = refl
enter-config next false s = refl

module _ (stringify : Value → String) where
  leave-IsAllowed :
      (answer : Bool) (next : View) (update_hash : Bool) (s : Console)
      → (is_settings next ≡ true → can_operate s ≡ true)
      → IsAllowed stringify answer next s
          (leave next update_hash (confirm_settings_leave stringify answer s))
  unfolding confirm_settings_leave
  leave-IsAllowed answer next update_hash s may = elim (Bool-cases (dirty stringify s)) [
    | inl edits ↦ elim (Bool-cases (not s.confirmation_pending && answer)) [
      | inl confirmed ↦
          rw (edits, confirmed, confirm_settings_leave)
            (inr (
              enter-view next update_hash (record s { config = s.saved_config }),
              may,
              inr (
                enter-config next update_hash (record s { config = s.saved_config }),
                ground (arith, confirmed),
                ground (arith, confirmed),
              ),
            ))
      | inr refused ↦
          rw (edits, refused, confirm_settings_leave)
            (inl (stay-view update_hash s, stay-config update_hash s))
    ]
    | inr clean ↦
        rw (clean, confirm_settings_leave)
          (inr
            (enter-view next update_hash s, may, inl (enter-config next update_hash s, inr refl)))
  ]

  -- A change of view leaves the view and the settings as they are, or enters the next view. It enters
  -- the settings only for a user who may operate; and it drops edits that were not saved only if the
  -- user confirms that, to a question that no other question is in the way of.
  pub select_view-IsAllowed :
      (answer : Bool) (next : View) (update_hash : Bool) (s : Console)
      → IsAllowed stringify answer next s (select_view stringify answer next update_hash s)
  unfolding select_view
  select_view-IsAllowed answer next update_hash s =
      if-P (IsAllowed stringify answer next s) (is_settings next && not (can_operate s))
        (λ _. inl (stay-view update_hash s, stay-config update_hash s))
        (λ may.
          if-P (IsAllowed stringify answer next s) (same_view next s.view) (λ _. inl (refl, refl))
            (λ _.
              if-P (IsAllowed stringify answer next s) (is_settings s.view)
                (λ _. leave-IsAllowed answer next update_hash s (λ e. ground (arith, may, e)))
                (λ outside. inr (
                  enter-view next update_hash s,
                  (λ e. ground (arith, may, e)),
                  inl (enter-config next update_hash s, inl outside),
                ))))
