-- ===== src/Paging/Tests.antt =====
-- The paged lists on concrete records, and their theorems at them.
use relay_lifeline.Prelude.{
  ℕ, ◌≡◌, refl, true, false, [], ◌∷◌, none, some, String, ok, String_keys, subst,
}
use relay_lifeline.Paging.{
  Listed, ids, merge_history_page, append_page, Page, Loaded, Fetch, load_history, shown_after,
}
use relay_lifeline.Paging.Merged.{AreDistinct, load_history-AreDistinct}

lists : Unit {0}
unfolding ids merge_history_page append_page load_history shown_after
lists = tt

instance abbrev by_name : Listed (String × ℕ)
by_name = record { id_of = λ (name, _). name }

abbrev loaded : Loaded (String × ℕ)
loaded = record {
  shown = ("c", 1) ∷ ("b", 1) ∷ [];
  filters = record { q = ""; state = ""; from = ""; to = "" };
  cursor = some "b";
  have_more = true;
}

abbrev page : Page (String × ℕ)
page = record { items = ("d", 2) ∷ ("c", 2) ∷ []; next_cursor = none; has_more = false }

abbrev fetch : Fetch (String × ℕ)
fetch _ _ _ = ok page

fresh_first :
    load_history fetch none true loaded
    ≡ ok (record loaded {
      shown = ("d", 2) ∷ ("c", 2) ∷ ("b", 1) ∷ [];
      cursor = none;
      have_more = false;
    })
unfolding lists
fresh_first = refl

load_history-AreDistinct_example : AreDistinct ("d" ∷ "c" ∷ "b" ∷ [])
unfolding lists
load_history-AreDistinct_example =
    load_history-AreDistinct fetch none true loaded
      (record loaded {
        shown = ("d", 2) ∷ ("c", 2) ∷ ("b", 1) ∷ [];
        cursor = none;
        have_more = false;
      })
      (λ other e.
        let same : page ≡ other = cc e in
        subst (λ (p : Page (String × ℕ)). AreDistinct (ids p.items)) same (refl, (refl, tt)))
      (refl, (refl, tt)) refl
