-- ===== src/Bits.antt =====
-- The bit operations on a byte that the framing uses, by evaluation at every byte.
use Prim.Native.Nat.{bit_and, bit_or}
use gabbro.Prelude.{
  ℕ, zero, suc, ◌+◌, ◌%◌, ◌<◌, ◌≡◌, refl, Bool, true, ◌&&◌, arith, ◌==◌, ==_iff, ◌*◌, ◌/◌,
}

-- Whether two functions agree at every number under a bound.
agree : (ℕ → ℕ) → (ℕ → ℕ) → ℕ → Bool
agree f g zero = true
agree f g (suc n) = agree f g n && f n == g n

agree_lem : (f g : ℕ → ℕ) (n x : ℕ) → agree f g n ≡ true → x < n → f x ≡ g x
unfolding agree
agree_lem f g zero x h lt = absurd (omega arith)
agree_lem f g (suc n) x h lt = ground (arith, agree_lem f g n x, (==_iff (f x) (g x)).0)

-- `b & 0x80` is the top bit of a byte, `b & 0x7f` the others.
pub top_bit : (x : ℕ) → x < 256 → bit_and x 0x80 ≡ 128 * (x / 128)
unfolding agree
top_bit x = agree_lem (λ x. bit_and x 0x80) (λ x. 128 * (x / 128)) 256 x refl

pub low_bits : (x : ℕ) → x < 256 → bit_and x 0x7f ≡ x % 128
unfolding agree
low_bits x = agree_lem (λ x. bit_and x 0x7f) (λ x. x % 128) 256 x refl

pub frame_or : (x : ℕ) → x < 128 → bit_or 0x80 x ≡ 128 + x
unfolding agree
frame_or x = agree_lem (bit_or 0x80) (◌+◌ 128) 128 x refl
