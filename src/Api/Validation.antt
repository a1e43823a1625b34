-- ===== src/Api/Validation.antt =====
-- The validators of web/src/api.ts: what passes them, and what they throw.
use relay_lifeline.Prelude.{
  ◌≡◌, refl, sym, ◌↔◌, List, [], ◌∷◌, Option, some, String, ok, All, bind-eq-ok, ◌<>◌, subst,
}
use relay_lifeline.Json.{Value, arr, obj, Items, Fields, lookup}
use relay_lifeline.Api.{expect_object, expect_array, expect_arrays, expect_object_arrays}

-- The property is an array.
abbrev pub IsList : Fields → String → Type 0
IsList fields k = (items : Items) × (lookup k fields ≡ some (arr items))

expect_array-ok :
    (v : Option Value) (label : String) {items : Items}
    → expect_array v label ≡ ok items
    → v ≡ some (arr items)
unfolding expect_array
expect_array-ok (some (arr items)) label h = cc
expect_array-ok _ label h = cc

expect_arrays-ok :
    (fields : Fields) (label : String) (names : List String)
    → expect_arrays fields label names ≡ ok tt
    → All (IsList fields) names
unfolding expect_arrays
expect_arrays-ok fields label [] h = tt
expect_arrays-ok fields label (k ∷ ks) h =
    let (items, here, rest) =
      bind-eq-ok (expect_array (lookup k fields) (label <> "." <> k))
        (λ _. expect_arrays fields label ks) h in
    ((items, expect_array-ok _ (label <> "." <> k) here), expect_arrays-ok fields label ks rest)

expect_arrays_of_All :
    (fields : Fields) (label : String) (names : List String)
    → All (IsList fields) names
    → expect_arrays fields label names ≡ ok tt
unfolding expect_arrays
expect_arrays_of_All fields label [] h = refl
expect_arrays_of_All fields label (k ∷ ks) ((items, e), h) =
    rw e (expect_arrays_of_All fields label ks h)

-- A value passes with its fields exactly when it is an object whose named properties are arrays.
pub expect_object_arrays_iff :
    (value : Option Value) (label : String) (names : List String) (fields : Fields)
    → (expect_object_arrays value label names ≡ ok fields)
      ↔ ((value ≡ some (obj fields)) × All (IsList fields) names)
unfolding expect_object_arrays expect_object
expect_object_arrays_iff (some (obj object)) label names fields = (
  λ h.
      let (_, listed, same) = bind-eq-ok (expect_arrays object label names) (λ _. ok object) h in
      let e : object ≡ fields = cc same in
      (cc, subst (λ f. All (IsList f) names) e (expect_arrays-ok object label names listed)),
  λ (e, listed).
      let same : object ≡ fields = cc in
      rw
        (expect_arrays_of_All object label names
          (subst (λ f. All (IsList f) names) (sym same) listed))
        (cc),
)
expect_object_arrays_iff _ label names fields = ((λ h. cc), (λ h. cc))
