-- ===== src/Numbers/Laws.antt =====
-- Whole numbers under the operations of Numbers.
use relay_lifeline.Prelude.{ℕ, ◌*◌, ◌≡◌, refl, arith, show, read_digits-show, ltb, nat_eq, ap, leb}
use relay_lifeline.Numbers.{whole, num_eq, num_lt, num_le, num_mul, round, number_of}

-- The decimal text of a number is read as the number.
pub number_of-show : (n : ℕ) → number_of (show n) ≡ whole n
unfolding number_of
number_of-show n = rw (read_digits-show n, number_of) (refl)

pub num_lt-whole : (a b : ℕ) → num_lt (whole a) (whole b) ≡ ltb a b
unfolding num_lt
num_lt-whole a b = ground arith

pub num_eq-whole : (a b : ℕ) → num_eq (whole a) (whole b) ≡ nat_eq a b
unfolding num_eq
num_eq-whole a b = ground arith

pub num_le-whole : (a b : ℕ) → num_le (whole a) (whole b) ≡ leb a b
num_le-whole a b = ground (arith, num_lt-whole a b, num_eq-whole a b)

pub round-mul-whole : (a b : ℕ) → round (num_mul (whole a) (whole b)) ≡ whole (a * b)
unfolding round num_mul
round-mul-whole a b = ap whole (omega arith)
