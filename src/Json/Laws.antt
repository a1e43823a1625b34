-- ===== src/Json/Laws.antt =====
-- The object operations of Json by what they answer for a key.
use relay_lifeline.Prelude.{
  ◌≡◌, refl, Option, some, none, String, arith, ok, throw, ◌⊎◌, inl, inr, ◌≢◌, if◌then◌else◌, ◌==◌,
  String_keys, eq_iff,
}
use relay_lifeline.Json.{
  Value, null, bool, num, str, arr, obj, Fields, end, field, type_error, lookup, put, get_prop,
}

pub lookup-put :
    (j k : String) (v : Value) (fields : Fields)
    → lookup j (put k v fields) ≡ (if k == j then some v else lookup j fields)
unfolding lookup put
lookup-put j k v end = refl
lookup-put j k v (field i w rest) =
    ground (arith, eq_iff i k, eq_iff k j, eq_iff i j, lookup-put j k v rest)

-- Only `null` refuses the access to a property.
pub get_prop-cases :
    (v : Value)
    → ((v ≡ null) × ((key : String) → get_prop (some v) key ≡ throw type_error))
      ⊎ ((v ≢ null) × ((key : String) → (o : Option Value) × (get_prop (some v) key ≡ ok o)))
unfolding get_prop
get_prop-cases null = inl (refl, λ key. refl)
get_prop-cases (obj fields) = inr ((λ e. cc), λ key. (lookup key fields, refl))
get_prop-cases (bool b) = inr ((λ e. cc), λ key. (none, refl))
get_prop-cases (num n) = inr ((λ e. cc), λ key. (none, refl))
get_prop-cases (str s) = inr ((λ e. cc), λ key. (none, refl))
get_prop-cases (arr items) = inr ((λ e. cc), λ key. (none, refl))
