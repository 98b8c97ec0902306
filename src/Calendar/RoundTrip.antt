-- ===== src/Calendar/RoundTrip.antt =====
-- Day numbers and dates are the same information.
use native.Mathlib.Decide.{dec_lt}
use mathlib.Core.Logic.{dif_pos, dif_neg}
use mathlib.Core.WellFounded.{Acc}
use native.Mathlib.Bridge.{le_prop}
use gabbro.Prelude.{
  List, [], arith, suc, zero, ℕ, ◌+◌, ◌<◌, ◌∷◌, ◌≡◌, ◌-◌, get_or, length, subst, take, ◌∙◌,
  Bool-cases, inl, inr, le→ltb, lt_wf, ltb, ltb→lt, lt→ltb, refl, sym, ◌%◌, ◌^◌, ◌≤◌, ◌*◌,
}
use gabbro.Calendar.{
  add_months, add_years, split_year, year_length, fewer_left, split_month, days_from_ymd,
  days_to_ymd, month_lengths,
}

year_length-le : (y : ℕ) → year_length y ≤ 366
unfolding year_length
year_length-le y = ground arith

add_years-lem : (n y d : ℕ) → add_years n y d ≡ d + add_years n y 0
unfolding add_years
add_years-lem zero y d = omega arith
add_years-lem (suc n) y d = omega (
  arith,
  add_years-lem n (y + 1) (d + year_length y),
  add_years-lem n (y + 1) (0 + year_length y),
)

add_years-suc : (n y : ℕ) → add_years (suc n) y 0 ≡ year_length y + add_years n (y + 1) 0
unfolding add_years
add_years-suc n y = omega (arith, add_years-lem n (y + 1) (0 + year_length y))

add_months-lem : (ms : List ℕ) (d : ℕ) → add_months ms d ≡ d + add_months ms 0
unfolding add_months
add_months-lem [] d = omega arith
add_months-lem (m ∷ ms) d = omega (arith, add_months-lem ms (d + m), add_months-lem ms (0 + m))

add_months-nil : (r : ℕ) → add_months [] 0 + r ≡ r
unfolding add_months
add_months-nil r = omega arith

add_months-cons : (m : ℕ) (ms : List ℕ) → add_months (m ∷ ms) 0 ≡ m + add_months ms 0
unfolding add_months
add_months-cons m ms = omega (arith, add_months-lem ms (0 + m))

split_year_here : (y d : ℕ) (w : Acc ◌<◌ d) → d < year_length y → split_year y d w ≡ (y, d)
unfolding split_year
split_year_here y d (Acc.intro _ smaller) h = dif_pos (dec_lt d (year_length y)) le_prop h _ _

split_year_later :
    (y d : ℕ) (smaller : (x : ℕ) → x < d → Acc ◌<◌ x) (h : ¬ (d < year_length y))
    → split_year y d (Acc.intro d smaller)
      ≡ split_year (y + 1) (d - year_length y) (smaller (d - year_length y) (fewer_left y d h))
unfolding split_year
split_year_later y d smaller h = dif_neg (dec_lt d (year_length y)) h _ _

-- A day of the year that is `n` years on, from the first of the first year.
split_year_add :
    (n y r d : ℕ) (w : Acc ◌<◌ d)
    → r < year_length (y + n)
    → d ≡ add_years n y 0 + r
    → split_year y d w ≡ (y + n, r)
unfolding add_years
split_year_add zero y r d w h e =
    let same : d ≡ r = omega arith in
    let year : y + 0 ≡ y = omega arith in
    let within : d < year_length y = subst (λ z. d < year_length z) year (rw same h) in
    rw (year, ← same) (split_year_here y d w within)
split_year_add (suc n) y r d (Acc.intro _ smaller) h e =
    let year : y + suc n ≡ (y + 1) + n = omega arith in
    let beyond : ¬ (d < year_length y) = (λ l. omega (arith, add_years-suc n y)) in
    rw year (
      split_year_later y d smaller beyond
      ∙ split_year_add n (y + 1) r (d - year_length y)
          (smaller (d - year_length y) (fewer_left y d beyond)) (rw (← year) h)
          (omega (arith, add_years-suc n y)))

-- Every number of days is a day of some year.
split_year_lem :
    (y d : ℕ) (w : Acc ◌<◌ d)
    → (n : ℕ) × (r : ℕ) × (split_year y d w ≡ (y + n, r))
      × (r < year_length (y + n))
      × (d ≡ add_years n y 0 + r)
unfolding add_years
split_year_lem y d (Acc.intro _ smaller) = elim (dec_lt d (year_length y)) [
  | yes h ↦
      let year : y ≡ y + 0 = omega arith in
      (
        0,
        d,
        subst (λ z. split_year y d (Acc.intro d smaller) ≡ (z, d)) year
            (split_year_here y d (Acc.intro d smaller) h),
        subst (λ z. d < year_length z) year h,
        omega arith,
      )
  | no h ↦
      let left = d - year_length y in
      let (n, r, split, within, same) =
        split_year_lem (y + 1) left (smaller left (fewer_left y d h)) in
      let year : (y + 1) + n ≡ y + suc n = omega arith in
      (
        suc n,
        r,
        split_year_later y d smaller h
            ∙ subst (λ z. split_year (y + 1) left (smaller left (fewer_left y d h)) ≡ (z, r)) year
                split,
        subst (λ z. r < year_length z) year within,
        omega (arith, add_years-suc n y),
      )
]

-- The months of a year, in the same two ways.
split_month_add :
    (ms : List ℕ) (m k r : ℕ)
    → r < get_or ms k 0
    → split_month m (add_months (take k ms) 0 + r) ms ≡ (m + k, r)
unfolding split_month
split_month_add [] m k r h = absurd (omega arith)
split_month_add (x ∷ ms) m zero r h =
    let first : add_months [] 0 + r ≡ r = add_months-nil r in
    rw (first, lt→ltb r x h) (ground arith)
split_month_add (x ∷ ms) m (suc k) r h =
    let before = add_months (take k ms) 0 + r in
    let same : add_months (x ∷ take k ms) 0 + r ≡ x + before =
      omega (arith, add_months-cons x (take k ms)) in
    let left : x + before - x ≡ before = omega arith in
    let month : m + suc k ≡ (m + 1) + k = omega arith in
    rw (same, le→ltb (x + before) x (omega arith), left, month) (split_month_add ms (m + 1) k r h)

-- Every day of a year is a day of some month.
split_month_lem :
    (ms : List ℕ) (m d : ℕ)
    → d < add_months ms 0
    → (k : ℕ) × (r : ℕ) × (split_month m d ms ≡ (m + k, r))
      × (r < get_or ms k 0)
      × (k < length ms)
      × (d ≡ add_months (take k ms) 0 + r)
unfolding split_month
split_month_lem [] m d h = absurd (omega (arith, add_months-nil 0))
split_month_lem (x ∷ ms) m d h = elim (Bool-cases (ltb d x)) [
  | inl within ↦
      (0, d, rw within (ground arith), ltb→lt d x within, omega arith, sym (add_months-nil d))
  | inr beyond ↦
      let far : x ≤ d = ground arith in
      let (k, r, split, inside, known, same) =
        split_month_lem ms (m + 1) (d - x) (omega (arith, add_months-cons x ms)) in
      let month : (m + 1) + k ≡ m + suc k = omega arith in
      (
        suc k,
        r,
        rw beyond (subst (λ z. split_month (m + 1) (d - x) ms ≡ (z, r)) month split),
        inside,
        omega arith,
        omega (arith, add_months-cons x (take k ms)),
      )
]

-- The months make up the year.
add_months-month_lengths : (y : ℕ) → add_months (month_lengths y) 0 ≡ year_length y
unfolding add_months month_lengths year_length
add_months-month_lengths y = ground arith

add_months-take-lt :
    (ms : List ℕ) (k r : ℕ) → r < get_or ms k 0 → add_months (take k ms) 0 + r < add_months ms 0
add_months-take-lt [] k r h = absurd (omega arith)
add_months-take-lt (x ∷ ms) zero r h = omega (arith, add_months-nil r, add_months-cons x ms)
add_months-take-lt (x ∷ ms) (suc k) r h =
    omega (arith, add_months-cons x ms, add_months-cons x (take k ms), add_months-take-lt ms k r h)

pub record IsDate (date : ℕ × ℕ × ℕ) : Type 0 where
  pub since_epoch : 1970 ≤ date.0
  pub month_in : (1 ≤ date.1) × (date.1 ≤ 12)
  pub day_in : (1 ≤ date.2) × (date.2 ≤ get_or (month_lengths date.0) (date.1 - 1) 0)

-- The days before a date, with no wrap-around.
abbrev days_before : ℕ × ℕ × ℕ → ℕ
days_before (y, m, d) =
    add_years (y - 1970) 1970 0 + (add_months (take (m - 1) (month_lengths y)) 0 + (d - 1))

days_from_ymd-days_before :
    (y m d : ℕ)
    → 1 ≤ m
    → m ≤ 12
    → 1 ≤ d
    → days_before (y, m, d) < 2 ^ 64
    → days_from_ymd y m d ≡ days_before (y, m, d)
unfolding days_from_ymd
days_from_ymd-days_before y m d low high day fits =
    let index : (m + 2 ^ 64 - 1) % 2 ^ 64 ≡ m - 1 = omega arith in
    rw index
      (omega (arith, add_months-lem (take (m - 1) (month_lengths y)) (add_years (y - 1970) 1970 0)))

days_to_ymd_split :
    (n y r k d : ℕ)
    → split_year 1970 n (lt_wf.apply n) ≡ (y, r)
    → split_month 1 r (month_lengths y) ≡ (k, d)
    → days_to_ymd n ≡ (y, k, d + 1)
unfolding days_to_ymd
days_to_ymd_split n y r k d year month = rw (year, month) refl

length-month_lengths : (y : ℕ) → length (month_lengths y) ≡ 12
unfolding month_lengths
length-month_lengths y = refl

-- A year, a month and a day of it, counted from 0.
IsDate-at :
    (k j r d n : ℕ)
    → n ≡ add_years k 1970 0 + r
    → r ≡ add_months (take j (month_lengths (1970 + k))) 0 + d
    → d < get_or (month_lengths (1970 + k)) j 0
    → j < length (month_lengths (1970 + k))
    → n < 2 ^ 64
    → IsDate (1970 + k, 1 + j, d + 1) × (days_from_ymd (1970 + k) (1 + j) (d + 1) ≡ n)
IsDate-at k j r d n years months inside known fits =
    let months_known : j < 12 = omega (arith, length-month_lengths (1970 + k)) in
    let back : 1 + j - 1 ≡ j = omega arith in
    let total : days_before (1970 + k, 1 + j, d + 1) ≡ n = rw (back, year_back) (omega arith) in
    (
      record { since_epoch = omega arith; month_in = omega arith; day_in = rw back (omega arith) },
      days_from_ymd-days_before (1970 + k) (1 + j) (d + 1) (omega arith) (omega arith) (omega arith)
            (rw total fits)
          ∙ total,
    )
  where
    year_back : 1970 + k - 1970 ≡ k
    year_back = omega arith

-- Every number of days since 1970 is a date, and that date's number of days is the same.
pub days_from_ymd-days_to_ymd :
    (n : ℕ)
    → n < 2 ^ 64
    → (y : ℕ) × (m : ℕ) × (d : ℕ) × (days_to_ymd n ≡ (y, m, d))
      × IsDate (y, m, d)
      × (days_from_ymd y m d ≡ n)
days_from_ymd-days_to_ymd n fits =
    let (k, r, year, within, same) = split_year_lem 1970 n (lt_wf.apply n) in
    let (j, d, month, inside, known, same_month) =
      split_month_lem (month_lengths (1970 + k)) 1 r
        (rw (add_months-month_lengths (1970 + k)) within) in
    let (date, number) = IsDate-at k j r d n same same_month inside known fits in
    (1970 + k, 1 + j, d + 1, days_to_ymd_split n (1970 + k) r (1 + j) d year month, date, number)

add_years-le : (n y : ℕ) → add_years n y 0 ≤ 366 * n
add_years-le zero y = unfold add_years in omega arith
add_years-le (suc n) y = omega (arith, add_years-suc n y, add_years-le n (y + 1), year_length-le y)

-- The date of a date's number of days is that date, for years up to 2 ^ 32.
pub days_to_ymd-days_from_ymd :
    (y m d : ℕ) → IsDate (y, m, d) → y < 2 ^ 32 → days_to_ymd (days_from_ymd y m d) ≡ (y, m, d)
days_to_ymd-days_from_ymd y m d date small =
    let ms = month_lengths y in
    let in_year = add_months (take (m - 1) ms) 0 + (d - 1) in
    let inside : d - 1 < get_or ms (m - 1) 0 = omega (arith, date.day_in) in
    let within : in_year < year_length y =
      subst (λ t. in_year < t) (add_months-month_lengths y)
        (add_months-take-lt ms (m - 1) (d - 1) inside) in
    let fits : days_before (y, m, d) < 2 ^ 64 =
      omega (arith, add_years-le (y - 1970) 1970, year_length-le y) in
    let year : 1970 + (y - 1970) ≡ y = omega (arith, date.since_epoch) in
    let month : 1 + (m - 1) ≡ m = omega (arith, date.month_in) in
    let day : d - 1 + 1 ≡ d = omega (arith, date.day_in) in
    let n = days_before (y, m, d) in
    rw (days_from_ymd-days_before y m d date.month_in.0 date.month_in.1 date.day_in.0 fits) (
      subst (λ t. days_to_ymd n ≡ (y, m, t)) day
        (days_to_ymd_split n y in_year m (d - 1)
          (subst (λ t. split_year 1970 n (lt_wf.apply n) ≡ (t, in_year)) year
            (split_year_add (y - 1970) 1970 in_year n (lt_wf.apply n) (rw year within) refl))
          (subst (λ t. split_month 1 in_year ms ≡ (t, d - 1)) month
            (split_month_add ms 1 (m - 1) (d - 1) inside))))
