-- ===== src/Console/Address/Returned.antt =====
-- The hash of the address in web/src/App.tsx, written and read back.

use Prim.Native.Char.{code}
use text.Mathlib.TextLemmas.{nil-append, append-nil, cons-append}
use relay_lifeline.Prelude.{
  if-P, ◌≡◌, refl, sym, ap, ◌∙◌, Bool, true, false, ◌||◌, List, [], Option, none, some, String,
  if◌then◌else◌, ◌==◌, String_keys, nat_eq, ◌<>◌, arith, eq_iff,
}
use relay_lifeline.Paging.{ListFilters}
use relay_lifeline.Console.{
  View, overview, requests, history, incidents, logs, captures, diagnostics, settings, same_view,
}
use relay_lifeline.Console.Address.{
  view_text, view_of, before_mark, after_mark, without_slash, without_hash, current_view, marked,
  UrlParams, no_filters, params_of, get_param, filters_of, query_of, view_hash, filters_from_hash,
}

parts_false : (p q : Bool) → (p || q) ≡ false → (p ≡ false) × (q ≡ false)
parts_false true q h = cc
parts_false false q h = (refl, h)

before-append : (a b : String) → marked a ≡ false → before_mark (a <> b) ≡ a <> before_mark b
unfolding marked before_mark
before-append String.[] b e = rw (nil-append b, nil-append (before_mark b)) (refl)
before-append (String.◌∷◌ c a) b e =
    let (first, rest) = parts_false (nat_eq (code c) b'?') (marked a) e in
    rw (cons-append c a b, cons-append c a (before_mark b), first, before_mark)
      (ap (String.◌∷◌ c) (before-append a b rest))

after-append : (a b : String) → marked a ≡ false → after_mark (a <> b) ≡ after_mark b
unfolding marked after_mark
after-append String.[] b e = rw (nil-append b) (refl)
after-append (String.◌∷◌ c a) b e =
    let (first, rest) = parts_false (nat_eq (code c) b'?') (marked a) e in
    rw (cons-append c a b, first, after_mark) (after-append a b rest)

before-unmarked : (a : String) → marked a ≡ false → before_mark a ≡ a
unfolding marked before_mark
before-unmarked String.[] e = refl
before-unmarked (String.◌∷◌ c a) e =
    let (first, rest) = parts_false (nat_eq (code c) b'?') (marked a) e in
    rw (first, before_mark) (ap (String.◌∷◌ c) (before-unmarked a rest))

view_text-unmarked : (v : View) → marked (view_text v) ≡ false
unfolding marked view_text
view_text-unmarked overview = refl
view_text-unmarked requests = refl
view_text-unmarked history = refl
view_text-unmarked incidents = refl
view_text-unmarked logs = refl
view_text-unmarked captures = refl
view_text-unmarked diagnostics = refl
view_text-unmarked settings = refl

view_of-view_text : (v : View) → view_of (view_text v) ≡ v
unfolding view_of view_text
view_of-view_text overview = refl
view_of-view_text requests = refl
view_of-view_text history = refl
view_of-view_text incidents = refl
view_of-view_text logs = refl
view_of-view_text captures = refl
view_of-view_text diagnostics = refl
view_of-view_text settings = refl

same_view_self : (v : View) → same_view v v ≡ true
unfolding same_view
same_view_self overview = refl
same_view_self requests = refl
same_view_self history = refl
same_view_self incidents = refl
same_view_self logs = refl
same_view_self captures = refl
same_view_self diagnostics = refl
same_view_self settings = refl

mark_cons : (q : String) → "?" <> q ≡ String.◌∷◌ "?" q
mark_cons q = cons-append "?" "" q ∙ ap (String.◌∷◌ "?") (nil-append q)

slash_cons : (s : String) → "#/" <> s ≡ String.◌∷◌ "#" (String.◌∷◌ "/" s)
slash_cons s =
    cons-append "#" "/" s
    ∙ ap (String.◌∷◌ "#") (cons-append "/" "" s ∙ ap (String.◌∷◌ "/") (nil-append s))

strip-slash : (s : String) → without_hash ("#/" <> s) ≡ s
unfolding without_hash without_slash
strip-slash s = rw (slash_cons s) (refl)

query-before : (q : String) → before_mark ("?" <> q) ≡ ""
unfolding before_mark
query-before q = rw (mark_cons q) (refl)

query-after : (q : String) → marked q ≡ false → after_mark ("?" <> q) ≡ q
unfolding after_mark
query-after q e = rw (mark_cons q) (before-unmarked q e)

slash-after : (s : String) → after_mark ("#/" <> s) ≡ after_mark s
unfolding after_mark
slash-after s = rw (slash_cons s) (refl)

-- The query as the hash carries it.
abbrev tail_of : String → String
tail_of q = if q == "" then "" else "?" <> q

tail-before : (q : String) → before_mark (tail_of q) ≡ ""
unfolding before_mark
tail-before q =
    if-P (λ (t : String). before_mark t ≡ "") (q == "") (λ _. refl) (λ _. query-before q)

tail-after : (q : String) → marked q ≡ false → after_mark (tail_of q) ≡ q
unfolding after_mark
tail-after q clean =
    if-P (λ (t : String). after_mark t ≡ q) (q == "") (λ e. sym ((eq_iff q "").0 e))
      (λ _. query-after q clean)

-- The parameters that are read are those that were written.
module _ (a b c d : String) where
  abbrev written : List (String × String)
  written = params_of (record { q = a; state = b; from = c; to = d })

  get-q : get_param "q" written ≡ a
  unfolding get_param params_of
  get-q = ground (arith, eq_iff a "")

  get-state : get_param "state" written ≡ b
  unfolding get_param params_of
  get-state = ground (arith, eq_iff b "")

  get-from : get_param "from" written ≡ c
  unfolding get_param params_of
  get-from = ground (arith, eq_iff c "")

  get-to : get_param "to" written ≡ d
  unfolding get_param params_of
  get-to = ground (arith, eq_iff d "")

filters_of-params_of : (view : View) (f : ListFilters) → filters_of view view (params_of f) ≡ f
unfolding filters_of
filters_of-params_of view f = rw (same_view_self view) (λ i. record {
  q = get-q f.q f.state f.from f.to i;
  state = get-state f.q f.state f.from f.to i;
  from = get-from f.q f.state f.from f.to i;
  to = get-to f.q f.state f.from f.to i;
})

filters_of-other :
    (view other : View) (params : List (String × String))
    → same_view view other ≡ false
    → filters_of other view params ≡ no_filters
unfolding filters_of
filters_of-other view other params e = rw e (refl)

module _ (url : UrlParams) where
  view_hash-current :
      (view : View) (filters : Option ListFilters)
      → current_view (view_hash url view filters) ≡ view
  unfolding current_view view_hash
  view_hash-current view filters =
      ap (λ t. view_of (before_mark t))
        (strip-slash (view_text view <> tail_of (query_of url filters)))
      ∙ ap view_of (
          before-append (view_text view) (tail_of (query_of url filters)) (view_text-unmarked view)
          ∙ ap (λ t. view_text view <> t) (tail-before (query_of url filters))
          ∙ append-nil (view_text view))
      ∙ view_of-view_text view

  query_of-unmarked : (filters : Option ListFilters) → marked (query_of url filters) ≡ false
  query_of-unmarked none = url.write_unmarked []
  query_of-unmarked (some filters) = url.write_unmarked (params_of filters)

  view_hash-query :
      (view : View) (filters : Option ListFilters)
      → after_mark (view_hash url view filters) ≡ query_of url filters
  unfolding view_hash
  view_hash-query view filters =
      slash-after (view_text view <> tail_of (query_of url filters))
      ∙ after-append (view_text view) (tail_of (query_of url filters)) (view_text-unmarked view)
      ∙ tail-after (query_of url filters) (query_of-unmarked filters)

  read_back :
      (view : View) (f : ListFilters)
      → url.read (after_mark (view_hash url view (some f))) ≡ params_of f
  read_back view f = ap url.read (view_hash-query view (some f)) ∙ url.read_write (params_of f)

  -- The hash that is written for a view and the filters of its list is read as that view and as these
  -- filters; for every other view it has no filters.
  pub filters_from_hash-view_hash :
      (view other : View) (f : ListFilters)
      → same_view view other ≡ false
      → (current_view (view_hash url view (some f)) ≡ view)
        × (filters_from_hash url view (view_hash url view (some f)) ≡ f)
        × (filters_from_hash url other (view_hash url view (some f)) ≡ no_filters)
  unfolding filters_from_hash
  filters_from_hash-view_hash view other f differs =
      let read = url.read (after_mark (view_hash url view (some f))) in
      let current = view_hash-current view (some f) in
      (
        current,
        ap (λ v. filters_of view v read) current
            ∙ ap (filters_of view view) (read_back view f)
            ∙ filters_of-params_of view f,
        ap (λ v. filters_of other v read) current ∙ filters_of-other view other read differs,
      )
