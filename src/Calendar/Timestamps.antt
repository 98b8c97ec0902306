-- ===== src/Calendar/Timestamps.antt =====
-- Timestamps as text: `chrono_now`, `add_days_to_timestamp` and `is_expired`. Rust panics where a
-- slice cuts a character in two; that is `none` here.
use Prim.Native.String.{String, len, slice, ◌++◌ as str_append}
use text.Mathlib.Text.{get?}
use gabbro.Prelude.{
  Bool, List, Option, [], false, if◌then◌else◌, leb, ltb, none, some, suc, zero, ℕ, ◌%◌, ◌&&◌, ◌*◌,
  ◌+◌, ◌-◌, ◌/◌, ◌==◌, ◌∷◌, codes,
}
use gabbro.Calendar.{chrono_parts, days_from_ymd, days_to_ymd}
use gabbro.Prelude.Options.{◌>>=◌}

-- The digits of a number, and `none` for anything else.
unfoldable pub parse_digits : ℕ → List ℕ → Option ℕ
parse_digits n [] = some n
parse_digits n (c ∷ cs) =
    let rest = parse_digits (n * 10 + (c - b'0')) cs in
    if leb b'0' c && leb c b'9' then rest else none

-- `str::parse::<u64>` on a text short enough not to overflow: a sign is taken, an empty text not.
unfoldable pub parse_unsigned : List ℕ → Option ℕ
unfolding parse_digits
parse_unsigned [] = none
parse_unsigned (c ∷ []) = if c == b'+' then none else parse_digits 0 (c ∷ [])
parse_unsigned (c ∷ d ∷ cs) =
    if c == b'+' then parse_digits 0 (d ∷ cs) else parse_digits 0 (c ∷ d ∷ cs)

-- `ts[a..b].parse().unwrap_or(d)`
unfoldable pub number_at : String → ℕ → ℕ → ℕ → Option ℕ
unfolding parse_unsigned
number_at ts a b d = elim (get? ts a b) [
  | none ↦ none
  | some part ↦ elim (parse_unsigned (codes part)) [ none ↦ some d | some n ↦ some n ]
]

-- The decimal digits in front of a text; a `u64` has at most twenty.
unfoldable pub decimal_onto : ℕ → ℕ → String → String
decimal_onto zero n s = s
decimal_onto (suc fuel) n s =
    let s' = str_append (slice "0123456789" (n % 10) (n % 10 + 1)) s in
    let rest = decimal_onto fuel (n / 10) s' in if ltb n 10 then s' else rest

-- `{:0width}`
unfoldable pub padded_decimal : ℕ → ℕ → String
unfolding decimal_onto
padded_decimal width n =
    let digits = decimal_onto 20 n "" in str_append (slice "0000" 0 (width - len digits)) digits

unfoldable pub date_text : ℕ × ℕ × ℕ → String → String
unfolding padded_decimal
date_text (y, m, d) rest = str_append (padded_decimal 4 y) (
    str_append "-"
      (str_append (padded_decimal 2 m) (str_append "-" (str_append (padded_decimal 2 d) rest))))

unfoldable pub chrono_now : ℕ → String
unfolding date_text chrono_parts
chrono_now secs =
    let (date, time) = chrono_parts secs in
    let (hour, minute, second) = time in
    date_text date (
      str_append "T" (
        str_append (padded_decimal 2 hour) (
          str_append ":" (
            str_append (padded_decimal 2 minute)
              (str_append ":" (str_append (padded_decimal 2 second) "Z"))))))

-- What follows the date, from byte 10 on.
unfoldable pub time_suffix : String → Option String
time_suffix ts = if ltb 10 (len ts) then get? ts 10 (len ts) else some "T00:00:00Z"

unfoldable pub add_days_to_timestamp : String → ℕ → Option String
unfolding number_at time_suffix date_text days_to_ymd days_from_ymd
add_days_to_timestamp ts days = if ltb (len ts) 10 then some ts else (do
  y ← number_at ts 0 4 2025
  m ← number_at ts 5 7 1
  d ← number_at ts 8 10 1
  rest ← time_suffix ts
  some (date_text (days_to_ymd (days_from_ymd y m d + days)) rest))

-- `today` is the number of days since 1970.
unfoldable pub is_expired : ℕ → Option String → Option Bool
unfolding number_at days_from_ymd
is_expired today none = some false
is_expired today (some ts) = if ltb (len ts) 10 then some false else (do
  y ← number_at ts 0 4 9999
  m ← number_at ts 5 7 12
  d ← number_at ts 8 10 31
  some (ltb (days_from_ymd y m d) today))
