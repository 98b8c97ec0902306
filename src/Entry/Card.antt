-- ===== src/Entry/Card.antt =====
-- `CardEntry::new`: what it accepts, and every complaint about what it does not.
use gabbro.Prelude.{
  Bool, List, Result, [], arith, err, false, if◌then◌else◌, leb, not, ok, true, ℕ, ◌&&◌, ◌++◌, ◌+◌,
  ◌==◌, ◌||◌, ◌↔◌, ◌∷◌, ◌≡◌, ◌≤◌, codes,
}
use gabbro.Entry.{CardEntry}

-- `char::is_ascii_digit`
unfoldable pub is_ascii_digit : ℕ → Bool
is_ascii_digit c = leb b'0' c && leb c b'9'

-- `char::is_whitespace`: the characters with the Unicode property White_Space.
unfoldable pub is_whitespace : ℕ → Bool
is_whitespace c =
    (leb 0x09 c && leb c 0x0d)
    || c == 0x20
    || c == 0x85
    || c == 0xa0
    || c == 0x1680
    || (leb 0x2000 c && leb c 0x200a)
    || c == 0x2028
    || c == 0x2029
    || c == 0x202f
    || c == 0x205f
    || c == 0x3000

unfoldable pub count_digits : List ℕ → ℕ
unfolding is_ascii_digit
count_digits [] = 0
count_digits (c ∷ cs) = count_digits cs + (if is_ascii_digit c then 1 else 0)

-- `s.trim().is_empty()`
unfoldable pub is_blank : List ℕ → Bool
unfolding is_whitespace
is_blank [] = true
is_blank (c ∷ cs) = is_whitespace c && is_blank cs

pub data CardProblem : Type 0 where
  digit_count cardholder_required expiry_required : CardProblem

-- `errors.push(…)` under a test.
abbrev problem_if : Bool → CardProblem → List CardProblem → List CardProblem
problem_if b p ps = if b then ps ++ p ∷ [] else ps

unfoldable pub card_problems : CardEntry → List CardProblem
unfolding count_digits is_blank
card_problems e =
    let n = count_digits (codes e.card_number) in
    problem_if (is_blank (codes e.expiry)) expiry_required (
      problem_if (is_blank (codes e.cardholder_name)) cardholder_required
        (problem_if (not (leb 6 n && leb n 19)) digit_count []))

-- The sixteen parameters are given as the entry that they make up; the errors are joined by "; ".
unfoldable pub new_card : CardEntry → Result (List CardProblem) CardEntry
unfolding card_problems
new_card e = elim (card_problems e) [ [] ↦ ok e | p ∷ ps ↦ err (p ∷ ps) ]

-- A card is accepted, as given, exactly when its number has 6 to 19 digits and neither the
-- cardholder's name nor the expiry is blank.
card_new_iff :
    (e : CardEntry)
    → (new_card e ≡ ok e) ↔ (
        (6 ≤ count_digits (codes e.card_number))
        × (count_digits (codes e.card_number) ≤ 19)
        × (is_blank (codes e.cardholder_name) ≡ false)
        × (is_blank (codes e.expiry) ≡ false))
unfolding new_card card_problems
card_new_iff e = ground arith
