-- ===== src/Bytes/Words.antt =====
-- Big-endian words round-trip through their bytes.
use native.Mathlib.Nat.{pow-suc}
use gabbro.Prelude.{
  ℕ, zero, suc, ◌+◌, ◌*◌, ◌/◌, ◌%◌, ◌^◌, ◌<◌, ◌≡◌, refl, [], ◌∷◌, ◌++◌, arith, length,
  length-append, All, All-append,
}
use gabbro.Bytes.{Bytes, IsByte, to_be, from_be_onto, from_be, prefixed}

pub length-to_be : (n v : ℕ) → length (to_be n v) ≡ n
unfolding to_be
length-to_be zero v = refl
length-to_be (suc n) v =
    omega (arith, length-append (to_be n (v / 256)) (v % 256 ∷ []), length-to_be n (v / 256))

pub length-prefixed : (n : ℕ) (bytes : Bytes) → length (prefixed n bytes) ≡ n + length bytes
unfolding prefixed
length-prefixed n bytes = omega (
  arith,
  length-append (to_be n (length bytes % 256 ^ n)) bytes,
  length-to_be n (length bytes % 256 ^ n),
)

pub to_be-IsByte : (n v : ℕ) → All IsByte (to_be n v)
unfolding to_be
to_be-IsByte zero v = tt
to_be-IsByte (suc n) v =
    All-append IsByte (to_be n (v / 256)) (v % 256 ∷ []) (to_be-IsByte n (v / 256))
      (omega arith, tt)

from_be_onto-snoc :
    (acc b : ℕ) (bs : Bytes) → from_be_onto acc (bs ++ b ∷ []) ≡ from_be_onto acc bs * 256 + b
unfolding from_be_onto
from_be_onto-snoc acc b [] = refl
from_be_onto-snoc acc b (c ∷ bs) = from_be_onto-snoc (acc * 256 + c) b bs

pub from_be-to_be : (n v : ℕ) → v < 256 ^ n → from_be (to_be n v) ≡ v
unfolding from_be to_be
from_be-to_be zero v h = omega arith
from_be-to_be (suc n) v h =
    let small : v / 256 < 256 ^ n = omega (arith, pow-suc 256 n) in
    omega
      (arith, from_be_onto-snoc 0 (v % 256) (to_be n (v / 256)), from_be-to_be n (v / 256) small)
