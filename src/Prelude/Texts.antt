-- ===== src/Prelude/Texts.antt =====
-- Texts: their characters, prefixes, and their order, which is the same from both ends.
use Prim.Native.Nat.{ℕ, Ordering, compare as compare_ℕ}
use Prim.Native.Char.{code}
use Prim.Native.String.compare
use Prim.Native.String.{String, [], ◌∷◌, compare, then, slice, len}
use mathlib.Core.List.{List}
use mathlib.Core.Option.{Option}
use text.Mathlib.Text.{starts_with, when}
use mathlib.Core.Path.{◌≡◌, refl}
use native.Mathlib.Omega.{arith}

-- The numbers of a text's characters.
abbrev pub codes : String → List ℕ
codes [] = List.[]
codes (c ∷ s) = List.◌∷◌ (code c) (codes s)

-- `s.strip_prefix(p)`
abbrev pub strip_prefix : String → String → Option String
strip_prefix p s = when (starts_with s p) (slice s (len p) (len s))

abbrev pub turned : Ordering → Ordering
turned Ordering.lt = Ordering.gt
turned Ordering.eq = Ordering.eq
turned Ordering.gt = Ordering.lt

number_turned : (a b : ℕ) → compare_ℕ b a ≡ turned (compare_ℕ a b)
number_turned a b = ground arith

turned-then : (o p : Ordering) → then (turned o) (turned p) ≡ turned (then o p)
turned-then Ordering.lt p = refl
turned-then Ordering.eq p = refl
turned-then Ordering.gt p = refl

pub text_turned : (s t : String) → compare t s ≡ turned (compare s t)
text_turned [] [] = rw compare.nil-nil refl
text_turned [] (d ∷ t) = rw (compare.cons-nil d t, compare.nil-cons d t) refl
text_turned (c ∷ s) [] = rw (compare.cons-nil c s, compare.nil-cons c s) refl
text_turned (c ∷ s) (d ∷ t) =
    rw
      (
        compare.cons-cons c d s t,
        compare.cons-cons d c t s,
        number_turned (code c) (code d),
        text_turned s t,
        turned-then (compare_ℕ (code c) (code d)) (compare s t),
      )
      refl
