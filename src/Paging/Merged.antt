-- ===== src/Paging/Merged.antt =====
-- What the paged lists of web/src/App.tsx hold after a page.
use relay_lifeline.Prelude.{
  ◌≡◌, inl, inr, refl, sym, subst, ap, ◌∙◌, Bool, true, false, not, ◌&&◌, ◌||◌, List, [], ◌∷◌, ◌++◌,
  Option, String, ok, if◌then◌else◌, ◌==◌, String_keys, filter, find, any, has, Bool-cases, arith,
  eq_iff, bind-eq-ok,
}
use relay_lifeline.Paging.{
  Listed, id, ids, merge_history_page, append_page, Page, Loaded, Fetch, load_history, shown_after,
  is_cursor, turned,
}

-- No identifier twice.
abbrev pub AreDistinct : List String → Type 0
AreDistinct [] = Unit
AreDistinct (x ∷ xs) = (has x xs ≡ false) × AreDistinct xs

has-append : (x : String) (xs ys : List String) → has x (xs ++ ys) ≡ has x xs || has x ys
has-append x [] ys = refl
has-append x (y ∷ xs) ys = ground (arith, has-append x xs ys)

AreDistinct-append :
    (xs ys : List String)
    → AreDistinct xs
    → AreDistinct ys
    → ((x : String) → has x xs ≡ true → has x ys ≡ false)
    → AreDistinct (xs ++ ys)
AreDistinct-append [] ys h k apart = k
AreDistinct-append (x ∷ xs) ys h k apart =
    let first = apart x in
    (
      ground (arith, has-append x xs ys, h.0, first, eq_iff x x),
      AreDistinct-append xs ys h.1 k (λ y e. let later = apart y in ground (arith, e, later)),
    )

module _ {A : Type 0} ⦃listed : Listed A⦄ where
  ids-append : (xs ys : List A) → ids (xs ++ ys) ≡ ids xs ++ ids ys
  unfolding ids
  ids-append [] ys = refl
  ids-append (x ∷ xs) ys = ap (◌∷◌ (id x)) (ids-append xs ys)

  any-id : (x : String) (xs : List A) → any (λ other. id other == x) xs ≡ has x (ids xs)
  unfolding ids
  any-id x [] = refl
  any-id x (y ∷ xs) = ap (λ b. id y == x || b) (any-id x xs)

  -- A filter by the identifier.
  has-filter :
      (p : String → Bool) (x : String) (xs : List A)
      → has x (ids (filter (λ item. p (id item)) xs)) ≡ has x (ids xs) && p x
  unfolding ids
  has-filter p x [] = refl
  has-filter p x (y ∷ xs) = elim (Bool-cases (id y == x)) [
    | inl same ↦
        (let alike = ap p ((eq_iff (id y) x).0 same) in
          ground (arith, has-filter p x xs, alike, same))
    | inr other ↦ ground (arith, has-filter p x xs, other)
  ]

  AreDistinct-filter :
      (p : String → Bool) (xs : List A)
      → AreDistinct (ids xs)
      → AreDistinct (ids (filter (λ item. p (id item)) xs))
  unfolding ids
  AreDistinct-filter p [] h = tt
  AreDistinct-filter p (x ∷ xs) h = elim (Bool-cases (p (id x))) [
    | inl e ↦ rw e (ground (arith, has-filter p (id x) xs, h.0), AreDistinct-filter p xs h.1)
    | inr e ↦ rw e (AreDistinct-filter p xs h.1)
  ]

  -- Of two distinct lists the merge is distinct.
  pub merge-AreDistinct :
      (current fresh : List A)
      → AreDistinct (ids current)
      → AreDistinct (ids fresh)
      → AreDistinct (ids (merge_history_page current fresh))
  unfolding merge_history_page
  merge-AreDistinct current fresh h k =
      let kept = filter (λ item. not (has (id item) (ids fresh))) current in
      subst AreDistinct (sym (ids-append fresh kept)) (
        AreDistinct-append (ids fresh) (ids kept) k
          (AreDistinct-filter (λ x. not (has x (ids fresh))) current h)
          (λ x e. ground (arith, e, has-filter (λ y. not (has y (ids fresh))) x current)))

  append-AreDistinct :
      (current items : List A)
      → AreDistinct (ids current)
      → AreDistinct (ids items)
      → AreDistinct (ids (append_page current items))
  unfolding append_page
  append-AreDistinct current items h k =
      let kept = filter (λ item. not (any (λ existing. id existing == id item) current)) items in
      subst AreDistinct (sym (ids-append current kept)) (
        AreDistinct-append (ids current) (ids kept) h
          (AreDistinct-filter (λ x. not (any (λ existing. id existing == x) current)) items k)
          (λ x e. ground (
            arith,
            e,
            any-id x current,
            has-filter (λ y. not (any (λ existing. id existing == y) current)) x items,
          )))

  -- The record with an identifier.
  abbrev pub with_id : String → List A → Option A
  with_id x items = find (λ item. id item == x) items

  pub find-append :
      (x : String) (xs ys : List A)
      → with_id x (xs ++ ys) ≡ (if has x (ids xs) then with_id x xs else with_id x ys)
  unfolding ids
  find-append x [] ys = refl
  find-append x (y ∷ xs) ys = elim (Bool-cases (id y == x)) [
    | inl same ↦ rw same (refl)
    | inr other ↦ rw other (find-append x xs ys)
  ]

  find-filter :
      (p : String → Bool) (x : String) (xs : List A)
      → p x ≡ true
      → with_id x (filter (λ item. p (id item)) xs) ≡ with_id x xs
  find-filter p x [] e = refl
  find-filter p x (y ∷ xs) e = elim (Bool-cases (id y == x)) [
    | inl same ↦ (let alike = ap p ((eq_iff (id y) x).0 same) ∙ e in rw (alike, same) (refl))
    | inr other ↦ elim (Bool-cases (p (id y))) [
      | inl kept ↦ rw (kept, other) (find-filter p x xs e)
      | inr dropped ↦ rw (dropped, other) (find-filter p x xs e)
    ]
  ]

  -- The merged list has the fresh record of an identifier where there is one, and else the one that was
  -- loaded.
  pub with_id-merge :
      (x : String) (current fresh : List A)
      → with_id x (merge_history_page current fresh)
        ≡ (if has x (ids fresh) then with_id x fresh else with_id x current)
  unfolding merge_history_page
  with_id-merge x current fresh =
      let kept = filter (λ item. not (has (id item) (ids fresh))) current in
      elim (Bool-cases (has x (ids fresh))) [
        | inl newer ↦ rw newer (find-append x fresh kept ∙ rw newer (refl))
        | inr older ↦ rw older (
            find-append x fresh kept
            ∙ rw older (find-filter (λ y. not (has y (ids fresh))) x current (ap not older)))
      ]

  shown_after-AreDistinct :
      (cursor : Option String) (preserve_loaded : Bool) (current items : List A)
      → AreDistinct (ids current)
      → AreDistinct (ids items)
      → AreDistinct (ids (shown_after cursor preserve_loaded current items))
  unfolding shown_after
  shown_after-AreDistinct cursor preserve_loaded current items h k =
      elim (Bool-cases (is_cursor cursor)) [
        | inl further ↦ rw (further, shown_after) (append-AreDistinct current items h k)
        | inr first ↦
            rw (first, shown_after)
              (elim (Bool-cases preserve_loaded) [
                | inl kept ↦ rw kept (merge-AreDistinct current items h k)
                | inr fresh ↦ rw fresh k
              ])
      ]

  -- Loading a page of distinct records keeps a distinct history distinct, whether the page is
  -- appended, merged or replaces it.
  pub load_history-AreDistinct :
      (fetch : Fetch A) (cursor : Option String) (preserve_loaded : Bool) (list next : Loaded A)
      → ((page : Page A) → fetch list.filters cursor 100 ≡ ok page → AreDistinct (ids page.items))
      → AreDistinct (ids list.shown)
      → load_history fetch cursor preserve_loaded list ≡ ok next
      → AreDistinct (ids next.shown)
  unfolding load_history
  load_history-AreDistinct fetch cursor preserve_loaded list next served h done =
      let (page, fetched, e) = bind-eq-ok (fetch list.filters cursor 100) _ done in
      let distinct = served page fetched in
      let same : turned page (shown_after cursor preserve_loaded list.shown page.items) list
          ≡ next =
        cc e in
      subst (λ (n : Loaded A). AreDistinct (ids n.shown)) same
        (shown_after-AreDistinct cursor preserve_loaded list.shown page.items h distinct)
