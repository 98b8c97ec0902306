-- ===== src/Prelude/Outcomes.antt =====
-- What a call of a fallible Rust function comes to: `Ok`, `Err`, or a panic (a slice out of range).
use mathlib.Core.Path.{◌≡◌, refl}
use native.Mathlib.Omega.{arith}

pub data Result {ℓ κ} (E : Type ℓ) (A : Type κ) : Type (ℓ ⊔ κ) where
  ok : A → Result E A
  err : E → Result E A
  panic : Result E A

module _ {ℓ κ} {E : Type ℓ} {A : Type κ} where
  -- The error that a value stands beside is kept when the value is changed.
  abbrev pub map_ok {μ} : {B : Type μ} → (A → B) → Result E A → Result E B
  map_ok f (ok a) = ok (f a)
  map_ok f (err e) = err e
  map_ok f panic = panic

  -- A mapped call that returns has returned a value before the map.
  pub map_ok-eq-ok {μ} :
      {B : Type μ} (f : A → B) (r : Result E A) {b : B}
      → map_ok f r ≡ ok b
      → (a : A) × (r ≡ ok a) × (f a ≡ b)
  map_ok-eq-ok f (ok a) h = (a, refl, ground arith)
  map_ok-eq-ok f (err e) h = cc
  map_ok-eq-ok f panic h = cc

  pub eq_of_ok : {a b : A} → ◌≡◌ {A = Result E A} (ok a) (ok b) → a ≡ b
  eq_of_ok e = cc
