-- ===== src/Numbers/Scaled.antt =====
-- Fractions that stand for whole numbers, under the operations of Numbers.
use native.Mathlib.Nat.{
  mod-eq-sub-div-mul, mul-div-mul_left, mul-sub, mul_assoc, mul_comm, div-mul-le_self,
  mul-le-mul_left, mul-mod_right, mul-div_right,
}
use relay_lifeline.Prelude.{
  ℕ, zero, suc, ◌-◌, ◌*◌, ◌/◌, ◌%◌, ◌≤◌, ◌≡◌, sym, ap, ◌∙◌, true, false, arith, nat_eq,
}
use relay_lifeline.Numbers.{
  Number, nan, infinite, ratio, whole, num_eq, num_lt, num_le, is_multiple, div_whole,
}

scaled_mod : (q n k : ℕ) → (suc q * n) % (suc q * k) ≡ suc q * (n % k)
scaled_mod q n k =
    mod-eq-sub-div-mul (suc q * n) (suc q * k)
    ∙ ap (λ t. suc q * n - t * (suc q * k)) (mul-div-mul_left n k (omega arith))
    ∙ ap (λ t. suc q * n - t)
        (sym (mul_assoc (n / k) (suc q) k)
          ∙ ap (λ t. t * k) (mul_comm (n / k) (suc q))
          ∙ mul_assoc (suc q) (n / k) k)
    ∙ sym (mul-sub (suc q) n (n / k * k))
    ∙ ap (λ t. suc q * t) (sym (mod-eq-sub-div-mul n k))

scaled_zero : (q r : ℕ) → nat_eq (suc q * r) 0 ≡ nat_eq r 0
scaled_zero q zero = ground arith
scaled_zero q (suc r) = ground arith

-- Whether such a fraction is a multiple, and its quotient then.
pub is_multiple-scaled : (q n k : ℕ) → is_multiple k (ratio false (suc q * n) q) ≡ nat_eq (n % k) 0
unfolding is_multiple
is_multiple-scaled q n k = ap (λ t. nat_eq t 0) (scaled_mod q n k) ∙ scaled_zero q (n % k)

pub div_whole-scaled :
    (q n k : ℕ)
    → is_multiple k (ratio false (suc q * n) q) ≡ true
    → div_whole (ratio false (suc q * n) q) k ≡ whole (n / k)
unfolding is_multiple div_whole
div_whole-scaled q n k e = rw e (ap whole (mul-div-mul_left n k (omega arith)))

pub multiple_exact : (q n k : ℕ) → is_multiple k (ratio false (suc q * n) q) ≡ true → n / k * k ≡ n
multiple_exact q n k e =
    let remainder : n % k ≡ 0 = ground (arith, sym (is_multiple-scaled q n k) ∙ e) in
    let whole_part = mod-eq-sub-div-mul n k in
    let below : n / k * k ≤ n = div-mul-le_self n k in omega (arith, remainder, whole_part, below)

-- A number that equals a whole one from 1 on is such a fraction.
pub num_eq-scaled :
    (x : Number) (n : ℕ)
    → num_eq x (whole n) ≡ true
    → 1 ≤ n
    → (q : ℕ) × (x ≡ ratio false (suc q * n) q)
unfolding num_eq
num_eq-scaled (ratio false p q) n e positive =
    let same : p * 1 ≡ n * suc q = ground (arith, e) in
    let parts : p ≡ suc q * n = omega (arith, same) ∙ mul_comm n (suc q) in
    (q, ap (λ t. ratio false t q) parts)
num_eq-scaled (ratio true p q) n e positive = absurd (ground (arith, e, positive))
num_eq-scaled (infinite true) n e positive = absurd (let no : ⊥ = cc in no)
num_eq-scaled (infinite false) n e positive = absurd (let no : ⊥ = cc in no)
num_eq-scaled nan n e positive = absurd (let no : ⊥ = cc in no)

pub one-le-scaled : (q n : ℕ) → 1 ≤ n → num_le (whole 1) (ratio false (suc q * n) q) ≡ true
unfolding num_lt num_eq
one-le-scaled q n positive =
    let scaled : suc q * 1 ≤ suc q * n = mul-le-mul_left (suc q) positive in ground (arith, scaled)

pub scaled_exact : (q n : ℕ) → nat_eq ((suc q * n) % suc q) 0 ≡ true
scaled_exact q n = ap (λ t. nat_eq t 0) (mul-mod_right (suc q) n)

pub scaled_quotient : (q n : ℕ) → (suc q * n) / suc q ≡ n
scaled_quotient q n = mul-div_right n (omega arith)
