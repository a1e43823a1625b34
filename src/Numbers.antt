-- ===== src/Numbers.antt =====
-- JavaScript numbers as exact fractions, and the operators and functions of the language on them
-- that the console uses. The operations are exact, as those on doubles are for whole numbers below
-- 2 ^ 53; where a definition rounds to a double, the rounding is its parameter.
pub mod Laws
pub mod Scaled
use Prim.Native.String
use Prim.Native.Char.{Char, code}
use relay_lifeline.Prelude.{
  ℕ, zero, suc, ◌+◌, ◌-◌, ◌*◌, ◌/◌, ◌%◌, Bool, true, false, not, ◌&&◌, ◌||◌, Option, none, some,
  String, ltb, leb, nat_eq, if◌then◌else◌, read_digits,
}

-- `ratio minus p q` is p / (q + 1), negated if `minus`. A double is such a fraction; what an
-- operation rounds is said where the operation is.
pub data Number : Type 0 where
  nan : Number
  infinite : Bool → Number
  ratio : Bool → ℕ → ℕ → Number

abbrev pub whole : ℕ → Number
whole n = ratio false n 0

-- `===` and `<`, of which a NaN has neither.
unfoldable pub num_eq : Number → Number → Bool
num_eq (ratio false p q) (ratio false r s) = nat_eq (p * suc s) (r * suc q)
num_eq (ratio true p q) (ratio true r s) = nat_eq (p * suc s) (r * suc q)
num_eq (ratio _ p q) (ratio _ r s) = nat_eq p 0 && nat_eq r 0
num_eq (infinite true) (infinite true) = true
num_eq (infinite false) (infinite false) = true
num_eq _ _ = false

unfoldable pub num_lt : Number → Number → Bool
num_lt (ratio false p q) (ratio false r s) = ltb (p * suc s) (r * suc q)
num_lt (ratio true p q) (ratio true r s) = ltb (r * suc q) (p * suc s)
num_lt (ratio true p q) (ratio false r s) = not (nat_eq p 0 && nat_eq r 0)
num_lt (ratio false p q) (ratio true r s) = false
num_lt (ratio _ _ _) (infinite minus) = not minus
num_lt (infinite minus) (ratio _ _ _) = minus
num_lt (infinite true) (infinite false) = true
num_lt _ _ = false

-- `<=`, which is false of a NaN.
abbrev pub num_le : Number → Number → Bool
num_le a b = num_lt a b || num_eq a b

abbrev pub is_finite : Number → Bool
is_finite (ratio _ _ _) = true
is_finite _ = false

-- `Number.isInteger`.
abbrev pub is_integer : Number → Bool
is_integer (ratio _ p q) = nat_eq (p % suc q) 0
is_integer _ = false

-- Whether the number is neither zero nor NaN: its truth as a condition.
abbrev pub is_nonzero : Number → Bool
is_nonzero nan = false
is_nonzero (infinite _) = true
is_nonzero (ratio _ p q) = not (nat_eq p 0)

abbrev differ : Bool → Bool → Bool
differ true b = not b
differ false b = b

unfoldable pub num_mul : Number → Number → Number
num_mul (ratio s p q) (ratio t r u) = ratio (differ s t) (p * r) (suc q * suc u - 1)
num_mul (ratio s p q) (infinite t) = if nat_eq p 0 then nan else infinite (differ s t)
num_mul (infinite s) (ratio t r u) = if nat_eq r 0 then nan else infinite (differ s t)
num_mul (infinite s) (infinite t) = infinite (differ s t)
num_mul _ _ = nan

unfoldable pub num_add : Number → Number → Number
num_add (ratio false p q) (ratio false r u) =
    ratio false (p * suc u + r * suc q) (suc q * suc u - 1)
num_add (ratio true p q) (ratio true r u) = ratio true (p * suc u + r * suc q) (suc q * suc u - 1)
num_add (ratio false p q) (ratio true r u) =
    if leb (r * suc q) (p * suc u)
    then ratio false (p * suc u - r * suc q) (suc q * suc u - 1)
    else ratio true (r * suc q - p * suc u) (suc q * suc u - 1)
num_add (ratio true p q) (ratio false r u) =
    if leb (p * suc u) (r * suc q)
    then ratio false (r * suc q - p * suc u) (suc q * suc u - 1)
    else ratio true (p * suc u - r * suc q) (suc q * suc u - 1)
num_add (infinite minus) (ratio _ _ _) = infinite minus
num_add (ratio _ _ _) (infinite minus) = infinite minus
num_add (infinite true) (infinite true) = infinite true
num_add (infinite false) (infinite false) = infinite false
num_add _ _ = nan

-- `n % k === 0` and `n / k` for a whole k above 0. A quotient that is whole has the denominator 1.
unfoldable pub is_multiple : ℕ → Number → Bool
is_multiple k (ratio _ p q) = nat_eq (p % (suc q * k)) 0
is_multiple k _ = false

unfoldable pub div_whole : Number → ℕ → Number
div_whole (ratio minus p q) k =
    if nat_eq (p % (suc q * k)) 0
    then ratio minus (p / (suc q * k)) 0
    else ratio minus p (suc q * k - 1)
div_whole n k = n

-- `Math.max(0, n)`.
unfoldable pub num_max_zero : Number → Number
num_max_zero (ratio true p q) = whole 0
num_max_zero (infinite true) = whole 0
num_max_zero n = n

-- `Math.floor(a / b)`.
unfoldable pub floor_div : Number → Number → Number
floor_div (ratio s p q) (ratio t r u) =
    if nat_eq r 0
    then (if nat_eq p 0 then nan else infinite (differ s t))
    else if differ s t
    then ratio true ((p * suc u + r * suc q - 1) / (r * suc q)) 0
    else whole (p * suc u / (r * suc q))
floor_div (ratio s p q) (infinite t) =
    if differ s t && not (nat_eq p 0) then ratio true 1 0 else whole 0
floor_div (infinite s) (ratio t r u) = infinite (differ s t)
floor_div _ _ = nan

-- `Math.round`, of halves upwards.
unfoldable pub round : Number → Number
round (ratio false p q) = whole ((2 * p + suc q) / (2 * suc q))
round (ratio true p q) = ratio true ((2 * p + q) / (2 * suc q)) 0
round n = n

-- A run of digits: the number that it continues, how many there are, and what follows.
pub record Scan : Type 0 where
  pub value : ℕ
  pub count : ℕ
  pub rest : String

abbrev is_digit : ℕ → Bool
is_digit c = leb b'0' c && leb c b'9'

scan : ℕ → ℕ → String → Scan
scan acc n String.[] = record { value = acc; count = n; rest = "" }
scan acc n (String.◌∷◌ c s) =
    if is_digit (code c)
    then scan (acc * 10 + (code c - b'0')) (suc n) s
    else record { value = acc; count = n; rest = String.◌∷◌ c s }

power : ℕ → ℕ → ℕ
power b zero = 1
power b (suc n) = b * power b n

-- p * 10 ^ -m with the exponent that the text goes on with.
scaled : Bool → ℕ → ℕ → Bool → ℕ → Number
unfolding power
scaled minus p m up e =
    if up
    then ratio minus (p * power 10 e) (power 10 m - 1)
    else ratio minus p (power 10 (m + e) - 1)

exponent_digits : Bool → ℕ → ℕ → Bool → Scan → Number
unfolding scaled
exponent_digits minus p m up s =
    if nat_eq s.count 0
    then nan
    else elim s.rest [ String.[] ↦ scaled minus p m up s.value | String.◌∷◌ _ _ ↦ nan ]

-- After `e` or `E`.
exponent : Bool → ℕ → ℕ → String → Number
unfolding scan exponent_digits
exponent minus p m String.[] = nan
exponent minus p m (String.◌∷◌ c s) =
    if nat_eq (code c) b'-'
    then exponent_digits minus p m false (scan 0 0 s)
    else if nat_eq (code c) b'+'
    then exponent_digits minus p m true (scan 0 0 s)
    else exponent_digits minus p m true (scan 0 0 (String.◌∷◌ c s))

-- After the digits, of which there are `digits`.
mantissa_end : Bool → ℕ → ℕ → ℕ → String → Number
unfolding exponent power
mantissa_end minus p m digits String.[] =
    if nat_eq digits 0 then nan else ratio minus p (power 10 m - 1)
mantissa_end minus p m digits (String.◌∷◌ c s) =
    if nat_eq digits 0 || not (nat_eq (code c) b'e' || nat_eq (code c) b'E')
    then nan
    else exponent minus p m s

after_digits : Bool → ℕ → ℕ → String → Number
unfolding mantissa_end scan
after_digits minus p n String.[] = mantissa_end minus p 0 n ""
after_digits minus p n (String.◌∷◌ c s) =
    if nat_eq (code c) b'.'
    then (let f = scan p 0 s in mantissa_end minus f.value f.count (n + f.count) f.rest)
    else mantissa_end minus p 0 n (String.◌∷◌ c s)

unsigned : Bool → String → Number
unfolding after_digits scan
unsigned minus s = let d = scan 0 0 s in after_digits minus d.value d.count d.rest

signed : String → Number
unfolding unsigned
signed String.[] = whole 0
signed (String.◌∷◌ c s) =
    if nat_eq (code c) b'-' then unsigned true s else unsigned false (String.◌∷◌ c s)

-- `Number(text)` for the texts that an option or a number input of the console can hold: the empty
-- text, which is 0, and decimal numerals with a sign, a fraction and an exponent. All others are
-- NaN here; spaces, `Infinity` and other radixes, which the language reads, no such field holds.
unfoldable pub number_of : String → Number
unfolding signed
number_of s = elim (read_digits 0 s) [ some n ↦ whole n | none ↦ signed s ]

-- `Number(undefined)` is NaN.
unfoldable pub number_of_option : Option String → Number
unfolding number_of
number_of_option none = nan
number_of_option (some s) = number_of s
