-- ===== src/Tests/Calendar.antt =====
-- The dates and time stamps of api/vault.rs at concrete days.
use native.Mathlib.Decide.{dec_lt}
use gabbro.Prelude.{arith, refl, some, ◌≡◌, ℕ}
use gabbro.Calendar.{days_to_ymd, days_from_ymd, month_lengths, year_length}
use gabbro.Calendar.RoundTrip.{IsDate, days_from_ymd-days_to_ymd, days_to_ymd-days_from_ymd}
use gabbro.Calendar.Timestamps.{chrono_now, add_days_to_timestamp}

chrono_run : chrono_now 1782864000 ≡ "2026-07-01T00:00:00Z"
unfolding chrono_now dec_lt year_length
chrono_run = refl

add_days_run : add_days_to_timestamp "2026-12-31T08:00:00Z" 60 ≡ some "2027-03-01T08:00:00Z"
unfolding add_days_to_timestamp dec_lt
add_days_run = refl

days_from_ymd-days_to_ymd_example :
    (y : ℕ) × (m : ℕ) × (d : ℕ) × (days_to_ymd 20635 ≡ (y, m, d))
    × IsDate (y, m, d)
    × (days_from_ymd y m d ≡ 20635)
days_from_ymd-days_to_ymd_example = days_from_ymd-days_to_ymd 20635 (ground arith)

leap_day : IsDate (2024, 2, 29)
unfolding month_lengths
leap_day = record { since_epoch = ground arith; month_in = ground arith; day_in = ground arith }

days_to_ymd-days_from_ymd_example : days_to_ymd (days_from_ymd 2024 2 29) ≡ (2024, 2, 29)
days_to_ymd-days_from_ymd_example = days_to_ymd-days_from_ymd 2024 2 29 leap_day (ground arith)
