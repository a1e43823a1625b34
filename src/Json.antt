-- ===== src/Json.antt =====
-- The values that the console takes from a parsed response body, and the operators of the language
-- on them that web/src/api.ts uses. `undefined` is `none`.
use Prim.Native.String
pub mod Laws
use relay_lifeline.Numbers.{Number, nan, whole, num_eq}
use relay_lifeline.Prelude.{
  ℕ, zero, suc, ◌*◌, ◌≡◌, Bool, true, false, not, ◌&&◌, ◌||◌, List, [], ◌∷◌, Option, none, some,
  String, Outcome, ok, throw, ltb, nat_eq, if◌then◌else◌, ◌==◌, String_keys, show, ◌<>◌,
}

mutual
  -- The properties of an object in their order.
  pub data Fields : Type 0 where
    end : Fields
    field : String → Value → Fields → Fields

  -- The elements of an array.
  pub data Items : Type 0 where
    nil : Items
    cons : Value → Items → Items

  pub data Value : Type 0 where
    obj : Fields → Value
    arr : Items → Value
    str : String → Value
    num : Number → Value
    bool : Bool → Value
    null : Value

-- What the code throws: an ApiError, an error of the language, or an error with a message.
pub record ApiError : Type 0 where
  pub code : Value
  pub message : Value
  pub details : Option Value

pub data Thrown : Type 0 where
  api_error : ApiError → Thrown
  type_error : Thrown
  error : String → Thrown

-- The own property of an object.
unfoldable pub lookup : String → Fields → Option Value
lookup key end = none
lookup key (field k v rest) = if k == key then some v else lookup key rest

-- A property of an object literal after a spread: one that is there keeps its place.
unfoldable pub put : String → Value → Fields → Fields
put key v end = field key v end
put key v (field k w rest) = if k == key then field k v rest else field k w (put key v rest)

-- `value.key`, for the keys of this program, which no prototype has: an error on null and undefined.
unfoldable pub get_prop : Option Value → String → Outcome Thrown (Option Value)
unfolding lookup
get_prop none key = throw type_error
get_prop (some null) key = throw type_error
get_prop (some (obj fields)) key = ok (lookup key fields)
get_prop (some _) key = ok none

unfoldable pub truthy : Option Value → Bool
unfolding num_eq
truthy none = false
truthy (some null) = false
truthy (some (bool b)) = b
truthy (some (num nan)) = false
truthy (some (num n)) = not (num_eq n (whole 0))
truthy (some (str s)) = not (s == "")
truthy (some (arr _)) = true
truthy (some (obj _)) = true

-- `a || b`.
unfoldable pub or_value : Option Value → Value → Value
unfolding truthy
or_value none b = b
or_value (some a) b = if truthy (some a) then a else b

-- `a ?? b`.
unfoldable pub or_default : Option Value → Value → Value
or_default none b = b
or_default (some null) b = b
or_default (some a) b = a

spread_items : ℕ → Items → Fields
spread_items i nil = end
spread_items i (cons v vs) = field (show i) v (spread_items (suc i) vs)

-- The characters of a text, each a text of its own, as a spread of the text lists them.
spread_text : ℕ → String → Fields
spread_text i String.[] = end
spread_text i (String.◌∷◌ c s) =
    field (show i) (str (String.◌∷◌ c String.[])) (spread_text (suc i) s)

-- `{ ...value }`.
unfoldable pub spread : Option Value → Fields
unfolding spread_items spread_text
spread (some (obj fields)) = fields
spread (some (arr items)) = spread_items 0 items
spread (some (str s)) = spread_text 0 s
spread _ = end
