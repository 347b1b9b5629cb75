-- ===== src/Calendar.antt =====
-- Dates of the proleptic Gregorian calendar, as Python's `datetime.date` counts them, and the date
-- arithmetic of backend/db/sgs_refresh_plan.py and backend/reference_freshness.py.
pub mod Years
pub mod Freshness
pub mod Windows
pub mod Scenarios
use x_bray.Base.{
  ℕ, zero, suc, ◌+◌, ◌-◌, ◌*◌, ◌/◌, ◌%◌, ◌≤◌, ◌<◌, Bool, true, false, Option, none, some, List, [],
  ◌∷◌, ◌&&◌, ◌||◌, not, arith, leb, ltb, nat_eq, if◌then◌else◌,
}

pub record Date : Type 0 where
  pub year : ℕ
  pub month : ℕ
  pub day : ℕ

abbrev pub is_leap : ℕ → Bool
is_leap year = nat_eq (year % 4) 0 && (not (nat_eq (year % 100) 0) || nat_eq (year % 400) 0)

-- `calendar.monthrange(year, month)[1]`
unfoldable pub month_length : ℕ → ℕ → ℕ
month_length year month =
    if nat_eq month 2
    then (if is_leap year then 29 else 28)
    else if nat_eq month 4 || nat_eq month 6 || nat_eq month 9 || nat_eq month 11
    then 30
    else 31

-- The values that the constructor of `date` accepts; no year is too late here.
pub record IsDate (d : Date) : Type 0 where
  pub year : 1 ≤ d.year
  pub month_low : 1 ≤ d.month
  pub month_high : d.month ≤ 12
  pub day_low : 1 ≤ d.day
  pub day_high : d.day ≤ month_length d.year d.month

unfoldable pub days_before_month : ℕ → ℕ → ℕ
days_before_month year zero = 0
days_before_month year (suc zero) = 0
days_before_month year (suc (suc m)) = days_before_month year (suc m) + month_length year (suc m)

abbrev pub days_before_year : ℕ → ℕ
days_before_year year = let y = year - 1 in y * 365 + y / 4 - y / 100 + y / 400

-- `date.toordinal()`
unfoldable pub ordinal : Date → ℕ
unfolding days_before_month
ordinal d = days_before_year d.year + days_before_month d.year d.month + d.day

-- Dates are compared by year, month and day.
unfoldable pub rank : Date → ℕ
rank d = d.year * 416 + d.month * 32 + d.day

-- `date.max.toordinal()`
abbrev pub max_ordinal : ℕ
max_ordinal = 3652059

abbrev pub date : ℕ → ℕ → ℕ → Date
date year month day = record { year = year; month = month; day = day }

-- `(date(year, month + 1, 1) - date(year, month, 1)).days`, but for December.
unfoldable pub days_in_month : ℕ → ℕ → ℕ
unfolding ordinal
days_in_month year month =
    if nat_eq month 12 then 31 else ordinal (date year (month + 1) 1) - ordinal (date year month 1)

abbrev pub min_day : ℕ → ℕ → ℕ
min_day a b = if ltb b a then b else a

-- A year below 1 makes the constructor of `date` raise.
unfoldable pub month_shift : Date → ℕ → Option Date
unfolding days_in_month
month_shift value months =
    let index = value.year * 12 + (value.month - 1) in
    let shifted = index - months in
    let year = shifted / 12 in
    let month = shifted % 12 + 1 in
    if ltb index months || nat_eq year 0
    then none
    else some (date year month (min_day value.day (days_in_month year month)))

-- The `while` of `_archive_windows`, whose cursor is the first day of a later year in each round.
unfoldable pub windows_from : ℕ → Date → Date → List (Date × Date)
unfolding rank
windows_from zero cursor end = []
windows_from (suc fuel) cursor end =
    let stop = date cursor.year 12 31 in
    let rest = windows_from fuel (date (cursor.year + 1) 1 1) end in
    if not (ltb (rank cursor) (rank end))
    then []
    else if leb (rank end) (rank stop)
    then []
    else (cursor, stop) ∷ rest

-- One round for each year before the last is enough.
unfoldable pub archive_windows : Date → Date → List (Date × Date)
unfolding windows_from
archive_windows start end = windows_from (end.year - start.year) start end
