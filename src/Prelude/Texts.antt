-- ===== src/Prelude/Texts.antt =====
-- Joined texts, and the decimal text of a natural number: what a template string or `String(n)`
-- makes of it.
use Prim.Native.Nat.{ℕ, zero, suc, ◌+◌, ◌-◌, ◌*◌, ◌/◌, ◌%◌, ◌<◌}
use Prim.Native.Char.{code}
use Prim.Native.String
use Prim.Native.String.{String}
use mathlib.Core.Path.{◌≡◌, refl, ◌∙◌, ap}
use mathlib.Core.Bool.{◌&&◌}
use mathlib.Core.Option.{Option, none, some}
use native.Mathlib.Omega.{arith}
use text.Mathlib.TextLemmas.{nil-append, cons-append}
use relay_lifeline.Prelude.Tests.{ltb, leb, if◌then◌else◌, Bool-cases}
use mathlib.Core.Logic.{inl, inr}

infixl 65 ◌<>◌
abbrev pub ◌<>◌ : String → String → String
s <> t = String.◌++◌ s t

unfoldable pub digit : ℕ → String
digit zero = "0"
digit (suc zero) = "1"
digit (suc (suc zero)) = "2"
digit (suc (suc (suc zero))) = "3"
digit (suc (suc (suc (suc zero)))) = "4"
digit (suc (suc (suc (suc (suc zero))))) = "5"
digit (suc (suc (suc (suc (suc (suc zero)))))) = "6"
digit (suc (suc (suc (suc (suc (suc (suc zero))))))) = "7"
digit (suc (suc (suc (suc (suc (suc (suc (suc zero)))))))) = "8"
digit (suc (suc (suc (suc (suc (suc (suc (suc (suc n))))))))) = "9"

-- On fuel, of which a number needs no more than itself.
unfoldable pub show_from : ℕ → ℕ → String
unfolding digit
show_from zero n = digit n
show_from (suc fuel) n =
    let rest = show_from fuel (n / 10) in if ltb n 10 then digit n else rest <> digit (n % 10)

unfoldable pub show : ℕ → String
unfolding show_from
show n = show_from n n

-- The number that a run of decimal digits continues, `none` at any other character.
unfoldable pub read_digits : ℕ → String → Option ℕ
read_digits acc String.[] = some acc
read_digits acc (String.◌∷◌ c s) =
    if leb b'0' (code c) && leb (code c) b'9'
    then read_digits (acc * 10 + (code c - b'0')) s
    else none

abbrev bind : Option ℕ → (ℕ → Option ℕ) → Option ℕ
bind none f = none
bind (some a) f = f a

read_digits-append :
    (acc : ℕ) (s t : String)
    → read_digits acc (s <> t) ≡ bind (read_digits acc s) (λ a. read_digits a t)
unfolding read_digits
read_digits-append acc String.[] t = ap (read_digits acc) (nil-append t)
read_digits-append acc (String.◌∷◌ c s) t =
    rw (cons-append c s t) (elim (Bool-cases (leb b'0' (code c) && leb (code c) b'9')) [
      | inl is_digit ↦ rw is_digit (read_digits-append (acc * 10 + (code c - b'0')) s t)
      | inr other ↦ rw other
    ])

read_digits-digit : (acc d : ℕ) → d < 10 → read_digits acc (digit d) ≡ some (acc * 10 + d)
unfolding read_digits digit
read_digits-digit acc zero h = refl
read_digits-digit acc (suc zero) h = refl
read_digits-digit acc (suc (suc zero)) h = refl
read_digits-digit acc (suc (suc (suc zero))) h = refl
read_digits-digit acc (suc (suc (suc (suc zero)))) h = refl
read_digits-digit acc (suc (suc (suc (suc (suc zero))))) h = refl
read_digits-digit acc (suc (suc (suc (suc (suc (suc zero)))))) h = refl
read_digits-digit acc (suc (suc (suc (suc (suc (suc (suc zero))))))) h = refl
read_digits-digit acc (suc (suc (suc (suc (suc (suc (suc (suc zero)))))))) h = refl
read_digits-digit acc (suc (suc (suc (suc (suc (suc (suc (suc (suc zero))))))))) h = refl
read_digits-digit acc (suc (suc (suc (suc (suc (suc (suc (suc (suc (suc n)))))))))) h =
    absurd (omega arith)

read_digits-show_from : (fuel n : ℕ) → n < fuel + 10 → read_digits 0 (show_from fuel n) ≡ some n
unfolding show_from
read_digits-show_from zero n h = read_digits-digit 0 n (omega arith) ∙ ap some (omega arith)
read_digits-show_from (suc fuel) n h = elim (Bool-cases (ltb n 10)) [
  | inl small ↦ rw small (read_digits-digit 0 n (ground arith) ∙ ap some (omega arith))
  | inr large ↦ rw large (
      rw
        (
          read_digits-append 0 (show_from fuel (n / 10)) (digit (n % 10)),
          read_digits-show_from fuel (n / 10) (ground arith),
        )
        (read_digits-digit (n / 10) (n % 10) (omega arith) ∙ ap some (omega arith)))
]

-- The decimal text of a number reads back as the number.
pub read_digits-show : (n : ℕ) → read_digits 0 (show n) ≡ some n
unfolding show
read_digits-show n = read_digits-show_from n n (omega arith)

show_runs : show 60_000 ≡ "60000"
unfolding show digit
show_runs = refl
