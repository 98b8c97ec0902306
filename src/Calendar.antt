-- ===== src/Calendar.antt =====
-- The calendar arithmetic of api/vault.rs: days since 1970-01-01 to dates and back, for timestamps
-- and the expiry of history. The loop over the years runs on the proof that the days are well founded.
pub mod RoundTrip
pub mod Timestamps
pub mod Purge
use native.Mathlib.Decide.{dec_lt}
use mathlib.Core.Logic.{dite}
use mathlib.Core.WellFounded.{Acc}
use gabbro.Prelude.{
  Bool, List, [], arith, if◌then◌else◌, lt_wf, ltb, not, suc, take, zero, ℕ, ◌%◌, ◌&&◌, ◌+◌, ◌-◌,
  ◌/◌, ◌<◌, ◌==◌, ◌^◌, ◌||◌, ◌∷◌,
}

unfoldable pub is_leap : ℕ → Bool
is_leap y = (y % 4 == 0 && not (y % 100 == 0)) || y % 400 == 0

unfoldable pub year_length : ℕ → ℕ
unfolding is_leap
year_length y = if is_leap y then 366 else 365

unfoldable pub month_lengths : ℕ → List ℕ
unfolding is_leap
month_lengths y =
    31 ∷ (if is_leap y then 29 else 28) ∷ 31 ∷ 30 ∷ 31 ∷ 30 ∷ 31 ∷ 31 ∷ 30 ∷ 31 ∷ 30 ∷ 31 ∷ []

pub year_pos : (y : ℕ) → 0 < year_length y
unfolding year_length
year_pos y = ground arith

pub fewer_left : (year days : ℕ) → ¬ (days < year_length year) → days - year_length year < days
fewer_left year days h = omega (arith, year_pos year)

-- `loop { if days < days_in_year { break } days -= days_in_year; year += 1 }`
unfoldable pub split_year : (year days : ℕ) → Acc ◌<◌ days → ℕ × ℕ
split_year year days (Acc.intro _ smaller) =
    dite (dec_lt days (year_length year)) (λ h. (year, days))
      (λ h.
        split_year (year + 1) (days - year_length year)
          (smaller (days - year_length year) (fewer_left year days h)))

-- `for &m in &months { if days < m { break } days -= m; month += 1 }`
unfoldable pub split_month : ℕ → ℕ → List ℕ → ℕ × ℕ
split_month month days [] = (month, days)
split_month month days (m ∷ ms) =
    let rest = split_month (month + 1) (days - m) ms in if ltb days m then (month, days) else rest

unfoldable pub days_to_ymd : ℕ → ℕ × ℕ × ℕ
unfolding split_year split_month month_lengths lt_wf
days_to_ymd days =
    let (year, left) = split_year 1970 days (lt_wf.apply days) in
    let (month, day) = split_month 1 left (month_lengths year) in (year, month, day + 1)

-- `for y in from..from + count { d += … }`
unfoldable pub add_years : ℕ → ℕ → ℕ → ℕ
unfolding year_length
add_years zero y d = d
add_years (suc n) y d = add_years n (y + 1) (d + year_length y)

unfoldable pub add_months : List ℕ → ℕ → ℕ
add_months [] d = d
add_months (m ∷ ms) d = add_months ms (d + m)

-- A release build wraps `month as usize - 1` and `d + day - 1`.
unfoldable pub days_from_ymd : ℕ → ℕ → ℕ → ℕ
unfolding add_years add_months month_lengths
days_from_ymd year month day =
    let before = add_years (year - 1970) 1970 0 in
    let d = add_months (take ((month + 2 ^ 64 - 1) % 2 ^ 64) (month_lengths year)) before in
    (d + day + 2 ^ 64 - 1) % 2 ^ 64

-- The date and the time of day of `chrono_now`, from the seconds since 1970.
unfoldable pub chrono_parts : ℕ → (ℕ × ℕ × ℕ) × (ℕ × ℕ × ℕ)
unfolding days_to_ymd
chrono_parts secs = (days_to_ymd (secs / 86400), ((secs / 3600) % 24, (secs / 60) % 60, secs % 60))
