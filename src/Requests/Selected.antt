-- ===== src/Requests/Selected.antt =====
-- The selection of web/src/views/RequestsView.tsx, by what it has.
use relay_lifeline.Prelude.{
  ◌≡◌, ◌⊎◌, inl, inr, refl, sym, ap, ◌∙◌, Bool, true, not, ◌&&◌, ◌||◌, List, [], ◌∷◌, ◌++◌, map,
  String, if◌then◌else◌, ◌==◌, String_keys, filter, Bool-cases, every, has, any, eq_iff, arith,
  length, nat_eq, All, All-filter,
}
use relay_lifeline.Requests.{
  RequestInfo, Selection, delete, add, toggle, delete_all, add_all, toggle_all, prune,
  visible_selected, scope_requests,
}

has-filter :
    (p : String → Bool) (id : String) (xs : List String) → has id (filter p xs) ≡ has id xs && p id
has-filter p id [] = refl
has-filter p id (x ∷ xs) = elim (Bool-cases (x == id)) [
  | inl same ↦
      (let alike = ap p ((eq_iff x id).0 same) in ground (arith, has-filter p id xs, alike, same))
  | inr other ↦ ground (arith, has-filter p id xs, other)
]

has-append : (id : String) (xs ys : List String) → has id (xs ++ ys) ≡ has id xs || has id ys
has-append id [] ys = refl
has-append id (x ∷ xs) ys = ground (arith, has-append id xs ys)

-- After an update the selection has exactly the identifiers that it had and that are still listed.
pub has-prune :
    (live : List RequestInfo) (id : String) (selected : Selection)
    → has id (prune live selected) ≡ has id selected && has id (map (λ request. request.id) live)
unfolding prune
has-prune live id selected =
    has-filter (λ other. has other (map (λ request. request.id) live)) id selected

has-delete :
    (id other : String) (selected : Selection)
    → has other (delete id selected) ≡ has other selected && not (other == id)
unfolding delete
has-delete id other selected = has-filter (λ o. not (o == id)) other selected

has-add :
    (id other : String) (selected : Selection)
    → has other (add id selected) ≡ has other selected || id == other
unfolding add
has-add id other selected = elim (Bool-cases (has id selected)) [
  | inl there ↦ rw there (elim (Bool-cases (id == other)) [
    | inl same ↦
        (let alike = ap (λ i. has i selected) ((eq_iff id other).0 same) in
          ground (arith, there, alike, same))
    | inr apart ↦ ground (arith, apart)
  ])
  | inr absent ↦ rw absent (has-append other selected (id ∷ []) ∙ ground arith)
]

abbrev pub shown_ids : List RequestInfo → List String
shown_ids = map (λ request. request.id)

has-delete_all :
    (requests : List RequestInfo) (id : String) (selected : Selection)
    → has id (delete_all requests selected) ≡ has id selected && not (has id (shown_ids requests))
unfolding delete_all
has-delete_all [] id selected = ground arith
has-delete_all (r ∷ rest) id selected = ground (
  arith,
  has-delete_all rest id (delete r.id selected),
  has-delete r.id id selected,
  eq_iff r.id id,
  eq_iff id r.id,
)

has-add_all :
    (requests : List RequestInfo) (id : String) (selected : Selection)
    → has id (add_all requests selected) ≡ has id selected || has id (shown_ids requests)
unfolding add_all
has-add_all [] id selected = ground arith
has-add_all (r ∷ rest) id selected =
    ground (arith, has-add_all rest id (add r.id selected), has-add r.id id selected)

-- Toggling an identifier flips whether it is selected, and changes no other.
pub has-toggle :
    (id other : String) (selected : Selection)
    → has other (toggle id selected)
      ≡ (if id == other then not (has other selected) else has other selected)
unfolding toggle
has-toggle id other selected = elim (Bool-cases (has id selected)) [
  | inl there ↦
      rw (there, toggle)
        (elim (Bool-cases (id == other)) [
          | inl same ↦
              (let alike = ap (λ i. has i selected) ((eq_iff id other).0 same) in
                ground (
                  arith,
                  there,
                  alike,
                  same,
                  has-delete id other selected,
                  eq_iff id other,
                  eq_iff other id,
                ))
          | inr apart ↦
              ground (arith, apart, has-delete id other selected, eq_iff id other, eq_iff other id)
        ])
  | inr absent ↦
      rw (absent, toggle)
        (elim (Bool-cases (id == other)) [
          | inl same ↦
              (let alike = ap (λ i. has i selected) ((eq_iff id other).0 same) in
                ground (arith, absent, alike, same, has-add id other selected))
          | inr apart ↦ ground (arith, apart, has-add id other selected)
        ])
]

-- The box over the list: if all visible requests are selected, then afterwards none is, and else all
-- are; no other identifier changes.
pub has-toggle_all :
    (requests : List RequestInfo) (id : String) (selected : Selection)
    → has id (toggle_all requests selected) ≡ (
        if has id (shown_ids requests)
        then not (every (λ r. has r.id selected) requests)
        else has id selected)
unfolding toggle_all
has-toggle_all requests id selected = elim (Bool-cases (every (λ r. has r.id selected) requests)) [
  | inl all ↦ rw (all, toggle_all) (ground (arith, has-delete_all requests id selected))
  | inr some_left ↦ rw (some_left, toggle_all) (ground (arith, has-add_all requests id selected))
]

any-has :
    (id : String) (requests : List RequestInfo)
    → any (λ other. other.id == id) requests ≡ has id (shown_ids requests)
any-has id [] = refl
any-has id (r ∷ rest) = ap (λ b. r.id == id || b) (any-has id rest)

All-filter_of :
    (P : RequestInfo → Type 0) (p : RequestInfo → Bool) (xs : List RequestInfo)
    → ((x : RequestInfo) → p x ≡ true → P x)
    → All P (filter p xs)
All-filter_of P p [] h = tt
All-filter_of P p (x ∷ xs) h = elim (Bool-cases (p x)) [
  | inl e ↦ rw e (h x e, All-filter_of P p xs h)
  | inr e ↦ rw e (All-filter_of P p xs h)
]

-- A visible request, which is selected.
abbrev pub IsScoped : List RequestInfo → Selection → RequestInfo → Type 0
IsScoped shown selected r = (has r.id (shown_ids shown) ≡ true) × (has r.id selected ≡ true)

All-both :
    (P Q : RequestInfo → Type 0) (xs : List RequestInfo)
    → All P xs
    → All Q xs
    → All (λ x. P x × Q x) xs
All-both P Q [] h k = tt
All-both P Q (x ∷ xs) h k = ((h.0, k.0), All-both P Q xs h.1 k.1)

visible_selected-IsScoped :
    (requests shown : List RequestInfo) (selected : Selection)
    → All (IsScoped shown selected) (visible_selected requests shown selected)
unfolding visible_selected
visible_selected-IsScoped requests shown selected =
    let chosen = filter (λ r. has r.id selected) requests in
    All-both (λ r. has r.id (shown_ids shown) ≡ true) (λ r. has r.id selected ≡ true) _
      (All-filter_of _ _ chosen (λ r e. sym (any-has r.id shown) ∙ e))
      (All-filter (λ r. has r.id selected ≡ true) _ chosen (All-filter_of _ _ requests (λ r e. e)))

length-zero : {A : Type 0} (xs : List A) → nat_eq (length xs) 0 ≡ true → xs ≡ []
length-zero [] h = refl
length-zero (x ∷ xs) h = absurd (ground (arith, h))

-- The buttons act on all visible requests, none of which is selected if it is listed, or else on
-- requests that are both visible and selected.
pub scope_requests-IsScoped :
    (requests shown : List RequestInfo) (selected : Selection)
    → ((scope_requests requests shown selected ≡ shown)
        × (visible_selected requests shown selected ≡ []))
      ⊎ All (IsScoped shown selected) (scope_requests requests shown selected)
unfolding scope_requests
scope_requests-IsScoped requests shown selected =
    elim (Bool-cases (nat_eq (length (visible_selected requests shown selected)) 0)) [
      | inl empty ↦ inl (rw (empty, scope_requests) (refl), length-zero _ empty)
      | inr other ↦
          inr (rw (other, scope_requests) (visible_selected-IsScoped requests shown selected))
    ]
