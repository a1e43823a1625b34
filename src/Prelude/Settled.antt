-- ===== src/Prelude/Settled.antt =====
-- A call that fulfils or rejects, as a value: what a promise of the source settles to.
use mathlib.Core.Path.{◌≡◌, refl}
use mathlib.Core.Logic.{◌⊎◌, inl, inr}

pub data Outcome {ℓ κ} (E : Type ℓ) (X : Type κ) : Type (ℓ ⊔ κ) where
  throw : E → Outcome E X
  ok : X → Outcome E X

module _ {ℓ κ μ} {E : Type ℓ} {X : Type κ} {Y : Type μ} where
  infixl 5 ◌>>=◌
  abbrev pub ◌>>=◌ : Outcome E X → (X → Outcome E Y) → Outcome E Y
  throw why >>= rest = throw why
  ok x >>= rest = rest x

  infixl 5 ◌>>◌
  abbrev pub ◌>>◌ : Outcome E X → Outcome E Y → Outcome E Y
  run >> rest = run >>= λ _. rest

  -- What a chain that succeeds has done.
  pub bind-eq-ok :
      (run : Outcome E X) (rest : X → Outcome E Y) {y : Y}
      → (run >>= rest) ≡ ok y
      → (x : X) × (run ≡ ok x) × (rest x ≡ ok y)
  bind-eq-ok (throw why) rest done = cc
  bind-eq-ok (ok x) rest done = (x, refl, done)

pub Outcome-cases {ℓ κ} :
    {E : Type ℓ} {X : Type κ} (run : Outcome E X)
    → ((why : E) × (run ≡ throw why)) ⊎ ((x : X) × (run ≡ ok x))
Outcome-cases (throw why) = inl (why, refl)
Outcome-cases (ok x) = inr (x, refl)
