-- ===== src/Bytes.antt =====
-- Bytes and words: `to_be_bytes` and `from_be_bytes` of Rust's unsigned integers.
pub mod Words
pub mod Equal
use gabbro.Prelude.{
  ℕ, zero, suc, ◌+◌, ◌*◌, ◌/◌, ◌%◌, ◌<◌, Bool, true, false, List, [], ◌∷◌, ◌++◌, ◌^◌, length, ◌==◌,
  if◌then◌else◌,
}

abbrev pub IsByte : ℕ → Type 0
IsByte b = b < 256

abbrev pub Bytes : Type 0
Bytes = List ℕ

-- `v.to_be_bytes()` of an integer of `n` bytes.
unfoldable pub to_be : ℕ → ℕ → Bytes
to_be zero v = []
to_be (suc n) v = to_be n (v / 256) ++ (v % 256) ∷ []

unfoldable pub from_be_onto : ℕ → Bytes → ℕ
from_be_onto acc [] = acc
from_be_onto acc (b ∷ bs) = from_be_onto (acc * 256 + b) bs

-- `uN::from_be_bytes(bs)`.
unfoldable pub from_be : Bytes → ℕ
unfolding from_be_onto
from_be bs = from_be_onto 0 bs

-- `a == b` on slices.
unfoldable pub bytes_eq : Bytes → Bytes → Bool
bytes_eq [] [] = true
bytes_eq (x ∷ xs) (y ∷ ys) = if x == y then bytes_eq xs ys else false
bytes_eq _ _ = false

-- A length prefix of `n` bytes and the bytes: the cast `bytes.len() as uN` wraps.
unfoldable pub prefixed : ℕ → Bytes → Bytes
prefixed n bytes = to_be n (length bytes % 256 ^ n) ++ bytes
