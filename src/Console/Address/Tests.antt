-- ===== src/Console/Address/Tests.antt =====
-- A writing of parameters that keeps what the browser's does, and the address with it.

use Prim.Native.Char.{Char, code}
use text.Mathlib.TextEquality.{Char-path}
use relay_lifeline.Prelude.{
  if-P, ◌≡◌, refl, sym, ap, ◌∙◌, inl, inr, false, List, [], ◌∷◌, some, String, if◌then◌else◌,
  String_keys, nat_eq, Bool-cases, arith,
}
use relay_lifeline.Console.{overview, requests, history, same_view}
use relay_lifeline.Paging.{ListFilters}
use relay_lifeline.Console.Address.{
  marked, UrlParams, no_filters, view_of, before_mark, without_hash, without_slash, current_view,
  view_hash, filters_from_hash,
}
use relay_lifeline.Console.Address.Returned.{filters_from_hash-view_hash}

-- Every character is written as two: a text starts with ",,", a question mark is "%%".
unfoldable write_text : String → String → String
write_text String.[] tail = tail
write_text (String.◌∷◌ c rest) tail =
    let written = write_text rest tail in
    if nat_eq (code c) b'?'
    then String.◌∷◌ "%" (String.◌∷◌ "%" written)
    else String.◌∷◌ "." (String.◌∷◌ c written)

unfoldable write_texts : List String → String
unfolding write_text
write_texts [] = ""
write_texts (t ∷ ts) = String.◌∷◌ "," (String.◌∷◌ "," (write_text t (write_texts ts)))

-- The text that has not started, and those after it.
unfoldable read_texts : String → String × List String
read_texts String.[] = ("", [])
read_texts (String.◌∷◌ c String.[]) = ("", [])
read_texts (String.◌∷◌ c (String.◌∷◌ d rest)) =
    let (text, texts) = read_texts rest in
    if nat_eq (code c) b','
    then ("", text ∷ texts)
    else if nat_eq (code c) b'%'
    then (String.◌∷◌ "?" text, texts)
    else (String.◌∷◌ d text, texts)

abbrev texts_of : List (String × String) → List String
texts_of [] = []
texts_of ((a, b) ∷ rest) = a ∷ b ∷ texts_of rest

abbrev pairs_of : List String → List (String × String)
pairs_of (a ∷ b ∷ rest) = (a, b) ∷ pairs_of rest
pairs_of _ = []

pairs_of-texts_of : (params : List (String × String)) → pairs_of (texts_of params) ≡ params
pairs_of-texts_of [] = refl
pairs_of-texts_of ((a, b) ∷ rest) = ap (λ ps. (a, b) ∷ ps) (pairs_of-texts_of rest)

read-write_text :
    (t tail : String)
    → (read_texts tail).0 ≡ ""
    → read_texts (write_text t tail) ≡ (t, (read_texts tail).1)
unfolding write_text read_texts
read-write_text String.[] tail e = λ i. (e i, (read_texts tail).1)
read-write_text (String.◌∷◌ c rest) tail e = elim (Bool-cases (nat_eq (code c) b'?')) [
  | inl mark ↦
      let same : c ≡ "?" = Char-path c "?" (ground (arith, mark)) in
      rw (mark, write_text, read_texts)
        (ap (λ (p : String × List String). (String.◌∷◌ "?" p.0, p.1)) (read-write_text rest tail e)
          ∙ ap (λ (d : Char). (String.◌∷◌ d rest, (read_texts tail).1)) (sym same))
  | inr other ↦
      rw (other, write_text, read_texts)
        (ap (λ (p : String × List String). (String.◌∷◌ c p.0, p.1)) (read-write_text rest tail e))
]

read-write_texts : (ts : List String) → read_texts (write_texts ts) ≡ ("", ts)
unfolding write_texts read_texts
read-write_texts [] = refl
read-write_texts (t ∷ ts) =
    let before = read-write_texts ts in
    ap (λ (p : String × List String). ("", p.0 ∷ p.1))
      (read-write_text t (write_texts ts) (ap (λ (p : String × List String). p.0) before)
        ∙ ap (λ (p : String × List String). (t, p.1)) before)

write_text-unmarked : (t tail : String) → marked tail ≡ false → marked (write_text t tail) ≡ false
unfolding marked write_text
write_text-unmarked String.[] tail e = e
write_text-unmarked (String.◌∷◌ c rest) tail e =
    if-P (λ (s : String). marked s ≡ false) (nat_eq (code c) b'?')
      (λ _. write_text-unmarked rest tail e)
      (λ other. rw (other, marked) (write_text-unmarked rest tail e))

write_texts-unmarked : (ts : List String) → marked (write_texts ts) ≡ false
unfolding marked write_texts
write_texts-unmarked [] = refl
write_texts-unmarked (t ∷ ts) = write_text-unmarked t (write_texts ts) (write_texts-unmarked ts)

no_texts : write_texts [] ≡ ""
unfolding write_texts
no_texts = refl

abbrev escaping : UrlParams
escaping = record {
  write = λ params. write_texts (texts_of params);
  read = λ text. pairs_of (read_texts text).1;
  read_write = λ params.
      ap (λ (p : String × List String). pairs_of p.1) (read-write_texts (texts_of params))
      ∙ pairs_of-texts_of params;
  write_none = no_texts;
  write_unmarked = λ params. write_texts-unmarked (texts_of params);
}

abbrev failing_ones : ListFilters
failing_ones = record { q = "why?"; state = "failed"; from = ""; to = "" }

foreign_view : current_view "#/nowhere?q=a" ≡ overview
unfolding current_view view_of before_mark without_hash without_slash
foreign_view = refl

filters_from_hash-view_hash_example :
    (current_view (view_hash escaping requests (some failing_ones)) ≡ requests)
    × (filters_from_hash escaping requests (view_hash escaping requests (some failing_ones))
        ≡ failing_ones)
    × (filters_from_hash escaping history (view_hash escaping requests (some failing_ones))
        ≡ no_filters)
unfolding same_view
filters_from_hash-view_hash_example =
    filters_from_hash-view_hash escaping requests history failing_ones refl
