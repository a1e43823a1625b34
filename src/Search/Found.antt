-- ===== src/Search/Found.antt =====
-- What the search lists, and where its results lead.
use relay_lifeline.Prelude.{
  ℕ, ◌+◌, ◌-◌, ◌%◌, ◌<◌, ◌≡◌, inl, inr, refl, Bool, true, false, not, ◌&&◌, List, [], ◌∷◌, ◌++◌,
  Option, none, some, String, if◌then◌else◌, ◌==◌, String_keys, nat_eq, ltb, has, Bool-cases, arith,
  eq_iff, ap, ◌∙◌,
}
use native.Mathlib.Nat.{mod-lt, mod-eq_of_lt, mod_self, add-mod_right}
use relay_lifeline.Paging.{Listed, id, ids}
use relay_lifeline.Paging.Merged.{AreDistinct, with_id, find-append}
use relay_lifeline.Search.{first_of_each}
use relay_lifeline.Search.Choice.{arrow}

module _ {A : Type 0} ⦃listed : Listed A⦄ where
  has-first_of_each :
      (x : String) (earlier : List String) (items : List A)
      → has x (ids (first_of_each earlier items)) ≡ has x (ids items) && not (has x earlier)
  unfolding ids first_of_each
  has-first_of_each x earlier [] = refl
  has-first_of_each x earlier (item ∷ rest) =
      let later = has-first_of_each x (id item ∷ earlier) rest in
      elim (Bool-cases (id item == x)) [
        | inl same ↦
            let alike = ap (λ y. has y earlier) ((eq_iff (id item) x).0 same) in
            elim (Bool-cases (has (id item) earlier)) [
              | inl seen ↦ rw seen (ground (arith, later, alike, same, seen))
              | inr unseen ↦ rw unseen (ground (arith, later, alike, same, unseen))
            ]
        | inr other ↦ elim (Bool-cases (has (id item) earlier)) [
          | inl seen ↦ rw seen (ground (arith, later, other))
          | inr unseen ↦ rw unseen (ground (arith, later, other))
        ]
      ]

  with_id-first :
      (x : String) (earlier : List String) (items : List A)
      → has x earlier ≡ false
      → with_id x (first_of_each earlier items) ≡ with_id x items
  unfolding first_of_each
  with_id-first x earlier [] e = refl
  with_id-first x earlier (item ∷ rest) e = elim (Bool-cases (id item == x)) [
    | inl same ↦
        let alike = ap (λ y. has y earlier) ((eq_iff (id item) x).0 same) ∙ e in
        rw (alike, same) (refl)
    | inr other ↦
        let later = with_id-first x (id item ∷ earlier) rest (ground (arith, other, e)) in
        elim (Bool-cases (has (id item) earlier)) [
          | inl seen ↦ rw (seen, other) later
          | inr unseen ↦ rw (unseen, other) later
        ]
  ]

  first_of_each-AreDistinct :
      (earlier : List String) (items : List A) → AreDistinct (ids (first_of_each earlier items))
  unfolding ids first_of_each
  first_of_each-AreDistinct earlier [] = tt
  first_of_each-AreDistinct earlier (item ∷ rest) =
      let later = first_of_each-AreDistinct (id item ∷ earlier) rest in
      elim (Bool-cases (has (id item) earlier)) [
        | inl seen ↦ rw seen later
        | inr unseen ↦ rw unseen (
          ground (
            arith,
            has-first_of_each (id item) (id item ∷ earlier) rest,
            eq_iff (id item) (id item),
          ),
          later,
        )
      ]

  -- Of a list and what the server found after it the search keeps each identifier once, and of two
  -- records with one identifier the one of the list.
  pub first_of_each-distinct :
      (items found : List A)
      → AreDistinct (ids (first_of_each [] (items ++ found)))
        × ((x : String)
            → with_id x (first_of_each [] (items ++ found))
              ≡ (if has x (ids items) then with_id x items else with_id x found))
  first_of_each-distinct items found = (
    first_of_each-AreDistinct [] (items ++ found),
    λ x. with_id-first x [] (items ++ found) refl ∙ find-append x items found,
  )

-- An index of one of `n` results.
abbrev pub IsIndex : ℕ → Option ℕ → Type 0
IsIndex n none = ⊥
IsIndex n (some i) = i < n

wrapped : (k n : ℕ) → k < n → (k + n) % n ≡ k
wrapped k n h = add-mod_right k n ∙ mod-eq_of_lt h

twice : (n : ℕ) → (n + n) % n ≡ 0
twice n = add-mod_right n n ∙ mod_self n

down_value : (i n : ℕ) → i < n → (i + 1 + n) % n ≡ (if ltb (i + 1) n then i + 1 else 0)
down_value i n h = elim (Bool-cases (ltb (i + 1) n)) [
  | inl inside ↦ rw inside (wrapped (i + 1) n (ground (arith, inside)))
  | inr last ↦
      rw last
        (let same : i + 1 ≡ n = ground (arith, last, h) in ap (λ k. (k + n) % n) same ∙ twice n)
]

up_value : (i n : ℕ) → i < n → (i + n - 1) % n ≡ (if nat_eq i 0 then n - 1 else i - 1)
up_value i n h = elim (Bool-cases (nat_eq i 0)) [
  | inl first ↦ rw first (
      let same : i + n - 1 ≡ n - 1 = ground (arith, first) in
      ap (λ k. k % n) same ∙ mod-eq_of_lt (omega arith))
  | inr other ↦ rw other (
      let same : i + n - 1 ≡ i - 1 + n = ground (arith, other) in
      ap (λ k. k % n) same ∙ wrapped (i - 1) n (ground (arith, other)))
]

some_left : (n : ℕ) → 0 < n → nat_eq n 0 ≡ false
some_left n h = ground arith

arrow-some :
    (down : Bool) (n i : ℕ)
    → i < n
    → arrow down n (some i)
      ≡ some (
          if down
          then (if ltb (i + 1) n then i + 1 else 0)
          else (if nat_eq i 0 then n - 1 else i - 1))
unfolding arrow
arrow-some true n i h = rw (some_left n (omega arith), down_value i n h) (refl)
arrow-some false n i h = rw (some_left n (omega arith), up_value i n h) (refl)

chosen-IsIndex :
    (down : Bool) (n : ℕ) (current : Option ℕ) → 0 < n → IsIndex n (arrow down n current)
unfolding arrow
chosen-IsIndex down n none h = rw (some_left n h) (mod-lt _ h)
chosen-IsIndex down n (some i) h = rw (some_left n h) (mod-lt _ h)

returns :
    (down : Bool) (n : ℕ) (current : Option ℕ)
    → IsIndex n current
    → arrow (not down) n (arrow down n current) ≡ current
returns down n none k = absurd k
returns true n (some i) k = elim (Bool-cases (ltb (i + 1) n)) [
  | inl inside ↦
      ap (arrow false n) (arrow-some true n i k ∙ rw inside (refl))
      ∙ (arrow-some false n (i + 1) (ground (arith, inside)) ∙ ap some (ground arith))
  | inr last ↦
      ap (arrow false n) (arrow-some true n i k ∙ rw last (refl))
      ∙ (arrow-some false n 0 (omega arith) ∙ ap some (ground (arith, last, k)))
]
returns false n (some i) k = elim (Bool-cases (nat_eq i 0)) [
  | inl first ↦
      ap (arrow true n) (arrow-some false n i k ∙ rw first (refl))
      ∙ (arrow-some true n (n - 1) (omega arith) ∙ ap some (ground (arith, first, k)))
  | inr other ↦
      ap (arrow true n) (arrow-some false n i k ∙ rw other (refl))
      ∙ (arrow-some true n (i - 1) (omega arith) ∙ ap some (ground (arith, other, k)))
]

-- Where there are results an arrow key chooses one of them, whatever was chosen before, and the other
-- arrow key goes back.
pub arrow-IsIndex :
    (down : Bool) (n : ℕ) (current : Option ℕ)
    → 0 < n
    → IsIndex n (arrow down n current)
      × (IsIndex n current → arrow (not down) n (arrow down n current) ≡ current)
arrow-IsIndex down n current h = (chosen-IsIndex down n current h, returns down n current)
