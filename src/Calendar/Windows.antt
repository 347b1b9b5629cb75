-- ===== src/Calendar/Windows.antt =====
-- `_days_in_month`, `_month_shift` and `_archive_windows` of backend/db/sgs_refresh_plan.py.
use x_bray.Base.{
  ℕ, zero, suc, ◌+◌, ◌-◌, ◌*◌, ◌/◌, ◌%◌, ◌≤◌, Bool, true, false, Option, none, some, ◌≡◌, refl, sym,
  ap, subst, ◌&&◌, ◌||◌, arith, inl, inr, leb, ltb, nat_eq, count_where, Bool-cases,
}
use x_bray.Calendar.{
  Date, IsDate, date, month_length, days_before_month, ordinal, rank, days_in_month, min_day,
  month_shift, windows_from, archive_windows,
}

december_is_long : (year : ℕ) → month_length year 12 ≡ 31
unfolding month_length
december_is_long year = refl

next_month :
    (year month : ℕ)
    → 1 ≤ month
    → days_before_month year (month + 1) ≡ days_before_month year month + month_length year month
unfolding days_before_month
next_month year zero low = absurd (omega arith)
next_month year (suc m) low =
    let next : suc m + 1 ≡ suc (suc m) = omega arith in ap (days_before_month year) next

-- The subtraction of dates counts the days of the calendar's month.
days_in_month-length :
    (year month : ℕ) → 1 ≤ month → month ≤ 12 → days_in_month year month ≡ month_length year month
unfolding days_in_month ordinal
days_in_month-length year month low high = elim (Bool-cases (nat_eq month 12)) [
  | inl december ↦ rw december (december_length december)
  | inr other ↦ rw other (omega (arith, next_month year month low))
]
  where
    december_length : nat_eq month 12 ≡ true → 31 ≡ month_length year month
    december_length h =
        let twelve : 12 ≡ month = ground arith in
        subst (λ m. 31 ≡ month_length year m) twelve (sym (december_is_long year))

month_length-bounds : (year month : ℕ) → 28 ≤ month_length year month
unfolding month_length
month_length-bounds year month = ground arith

abbrev date_or : Date → Option Date → Date
date_or default none = default
date_or default (some d) = d

some-eq : {a b : Date} → some a ≡ some b → a ≡ b
some-eq {a} h = ap (date_or a) h

-- A shift back by some months, where it returns, gives a date that many calendar months earlier,
-- on the same day or an earlier one.
pub month_shift-IsDate :
    (value shifted : Date) (months : ℕ)
    → IsDate value
    → month_shift value months ≡ some shifted
    → IsDate shifted
      × (shifted.year * 12 + shifted.month + months ≡ value.year * 12 + value.month)
      × (shifted.day ≤ value.day)
unfolding month_shift
month_shift-IsDate value shifted months valid h =
    let index = value.year * 12 + (value.month - 1) in
    let year = (index - months) / 12 in
    let month = (index - months) % 12 + 1 in
    let length = days_in_month-length year month (omega arith) (omega arith) in
    elim (Bool-cases (ltb index months || nat_eq year 0)) [
      | inl early ↦ absurd (ground (arith, rw early at h))
      | inr late ↦
          let found : date year month (min_day value.day (days_in_month year month)) ≡ shifted =
            some-eq (rw late at h) in
          subst
            (λ d.
              IsDate d
              × (d.year * 12 + d.month + months ≡ value.year * 12 + value.month)
              × (d.day ≤ value.day))
            found
            (
              record {
                year = ground arith;
                month_low = omega arith;
                month_high = omega arith;
                day_low = ground (arith, valid.day_low, length, month_length-bounds year month);
                day_high = ground (arith, length);
              },
              ground (arith, valid.month_low),
              ground arith,
            )
    ]

month_length-high : (year month : ℕ) → month_length year month ≤ 31
unfolding month_length
month_length-high year month = ground arith

-- A date lies in its year.
rank-bounds : (d : Date) → IsDate d → (d.year * 416 + 33 ≤ rank d) × (rank d ≤ d.year * 416 + 415)
unfolding rank
rank-bounds d v = (
  omega (arith, v.month_low, v.day_low),
  omega (arith, v.month_high, v.day_high, month_length-high d.year d.month),
)

rank-date : (year month day : ℕ) → rank (date year month day) ≡ year * 416 + month * 32 + day
unfolding rank
rank-date year month day = refl

new_year : (year : ℕ) → IsDate (date (year + 1) 1 1)
unfolding month_length
new_year year = record {
  year = omega arith;
  month_low = omega arith;
  month_high = omega arith;
  day_low = omega arith;
  day_high = omega arith;
}

abbrev pub contains : Date → Date × Date → Bool
contains d window = leb (rank window.0) (rank d) && leb (rank d) (rank window.1)

abbrev pub as_count : Bool → ℕ
as_count true = 1
as_count false = 0

-- The dates that the archive covers: from the start, in the years before the last.
abbrev pub is_archived : Date → Date → Date → Bool
is_archived start end d = leb (rank start) (rank d) && ltb d.year end.year

module _ (end d : Date) (end_valid : IsDate end) (d_valid : IsDate d) where
  windows_from-count :
      (fuel : ℕ) (cursor : Date)
      → IsDate cursor
      → end.year ≤ cursor.year + fuel
      → count_where (contains d) (windows_from fuel cursor end)
        ≡ as_count (is_archived cursor end d)
  unfolding windows_from count_where
  windows_from-count zero cursor valid enough =
      ground (arith, rank-bounds cursor valid, rank-bounds d d_valid)
  windows_from-count (suc fuel) cursor valid enough =
      elim (Bool-cases (ltb (rank cursor) (rank end))) [
        | inr past ↦ rw past (
            ground
              (arith, rank-bounds end end_valid, rank-bounds cursor valid, rank-bounds d d_valid))
        | inl before ↦ elim (Bool-cases (leb (rank end) (rank (date cursor.year 12 31)))) [
          | inl partial ↦
              rw (before, partial)
                (ground (
                  arith,
                  rank-bounds end end_valid,
                  rank-bounds cursor valid,
                  rank-bounds d d_valid,
                  rank-date cursor.year 12 31,
                ))
          | inr whole ↦
              rw (before, whole)
                (ground (
                  arith,
                  rank-bounds end end_valid,
                  rank-bounds cursor valid,
                  rank-bounds d d_valid,
                  rank-date cursor.year 12 31,
                  rank-date (cursor.year + 1) 1 1,
                  windows_from-count fuel (date (cursor.year + 1) 1 1) (new_year cursor.year)
                      (omega arith),
                ))
        ]
      ]

-- Each date from the start of the archive, in a year before the last, lies in exactly one window,
-- and every other date in none.
pub archive_windows-cover :
    (start end d : Date)
    → IsDate start
    → IsDate end
    → IsDate d
    → count_where (contains d) (archive_windows start end) ≡ as_count (is_archived start end d)
unfolding archive_windows
archive_windows-cover start end d start_valid end_valid d_valid =
    windows_from-count end d end_valid d_valid (end.year - start.year) start start_valid
      (omega arith)
