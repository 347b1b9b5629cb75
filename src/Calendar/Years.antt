-- ===== src/Calendar/Years.antt =====
-- The ordinals of dates, year by year and month by month.
use x_bray.Base.{
  ℕ, zero, suc, ◌+◌, ◌≤◌, ◌<◌, false, ◌≡◌, refl, sym, subst, arith, inl, inr, ltb, nat_eq,
  Bool-cases, if◌then◌else◌,
}
use x_bray.Calendar.{
  Date, IsDate, is_leap, month_length, days_before_month, days_before_year, ordinal, rank,
}

next_year :
    (n : ℕ)
    → days_before_year (suc n) + 365 + (if is_leap (suc n) then 1 else 0)
      ≤ days_before_year (suc (suc n))
next_year n = ground arith

pub days_before_month_mono :
    (year month later : ℕ)
    → 1 ≤ month
    → month < later
    → days_before_month year month + month_length year month ≤ days_before_month year later
unfolding days_before_month
days_before_month_mono year month zero low lt = absurd (omega arith)
days_before_month_mono year month (suc zero) low lt = absurd (omega arith)
days_before_month_mono year month (suc (suc m)) low lt = elim (Bool-cases (nat_eq month (suc m))) [
  | inl last ↦
      let same : month ≡ suc m = ground (arith, last) in
      subst
        (λ n.
          days_before_month year n + month_length year n
          ≤ days_before_month year (suc m) + month_length year (suc m))
        (sym same) (omega arith)
  | inr before ↦
      omega (arith, days_before_month_mono year month (suc m) low (ground (arith, before)))
]

year_days : (year : ℕ) → days_before_month year 12 + 31 ≡ 365 + (if is_leap year then 1 else 0)
unfolding days_before_month month_length
year_days year = elim (Bool-cases (is_leap year)) [
  | inl leap ↦ rw leap refl
  | inr common ↦ rw common refl
]

december : (year : ℕ) → month_length year 12 ≡ 31
unfolding month_length
december year = refl

-- The days of a year up to a date of it.
day_of_year-le :
    (d : Date)
    → IsDate d
    → days_before_month d.year d.month + d.day ≤ 365 + (if is_leap d.year then 1 else 0)
day_of_year-le d v = elim (Bool-cases (nat_eq d.month 12)) [
  | inl last ↦
      let twelve : 12 ≡ d.month = ground (arith, last) in
      let full : days_before_month d.year d.month + month_length d.year d.month
          ≡ 365 + (if is_leap d.year then 1 else 0) =
        subst
          (λ m.
            days_before_month d.year m + month_length d.year m
            ≡ 365 + (if is_leap d.year then 1 else 0))
          twelve (omega (arith, year_days d.year, december d.year)) in
      omega (arith, v.day_high, full)
  | inr before ↦ omega (
    arith,
    v.day_high,
    year_days d.year,
    days_before_month_mono d.year d.month 12 v.month_low (ground (arith, v.month_high, before)),
  )
]

year_end-le :
    (year later : ℕ)
    → 1 ≤ year
    → year < later
    → days_before_year year + 365 + (if is_leap year then 1 else 0) ≤ days_before_year later
year_end-le year zero low lt = absurd (omega arith)
year_end-le year (suc zero) low lt = absurd (omega arith)
year_end-le year (suc (suc n)) low lt = elim (Bool-cases (nat_eq year (suc n))) [
  | inl last ↦
      let same : suc n ≡ year = ground (arith, last) in
      subst
        (λ y.
          days_before_year y + 365 + (if is_leap y then 1 else 0) ≤ days_before_year (suc (suc n)))
        same (next_year n)
  | inr before ↦
      plus_year (days_before_year year + 365 + (if is_leap year then 1 else 0))
        (days_before_year (suc n)) (if is_leap (suc n) then 1 else 0)
        (days_before_year (suc (suc n))) (year_end-le year (suc n) low (ground (arith, before)))
        (next_year n)
]
  where
    plus_year : (a b c d : ℕ) → a ≤ b → b + 365 + c ≤ d → a ≤ d
    plus_year a b c d h k = omega arith

month_length-le : (year month : ℕ) → month_length year month ≤ 31
unfolding month_length
month_length-le year month = ground arith

-- A later year, a later month of the year, or a later day of the month.
data Later (a b : Date) : Type 0 where
  by_year : a.year < b.year → Later a b
  by_month : a.year ≡ b.year → a.month < b.month → Later a b
  by_day : a.year ≡ b.year → a.month ≡ b.month → a.day ≤ b.day → Later a b

rank-Later : (a b : Date) → IsDate a → IsDate b → rank a ≤ rank b → Later a b
unfolding rank
rank-Later a b v w h = elim (Bool-cases (ltb a.year b.year)) [
  | inl year ↦ by_year (ground (arith, year))
  | inr same ↦
      let ra = day-high a v in
      let rb = day-high b w in
      let year : a.year ≡ b.year = omega (
        arith,
        ltb-false a.year b.year same,
        v.month_low,
        w.month_high,
        v.day_low,
        rb,
        v.month_high,
        ra,
      ) in
      elim (Bool-cases (ltb a.month b.month)) [
        | inl month ↦ by_month year (ground (arith, month))
        | inr other ↦
            let equal : a.month ≡ b.month =
              omega (arith, year, ltb-false a.month b.month other, v.day_low, rb, w.day_low, ra) in
            by_day year equal (omega (arith, year, equal))
      ]
]
  where
    day-high : (d : Date) → IsDate d → d.day ≤ 31
    day-high d v = omega (arith, v.day_high, month_length-le d.year d.month)

    ltb-false : (m n : ℕ) → ltb m n ≡ false → n ≤ m
    ltb-false m n h = ground (arith, h)

pub ordinal_mono : (a b : Date) → IsDate a → IsDate b → rank a ≤ rank b → ordinal a ≤ ordinal b
unfolding ordinal
ordinal_mono a b v w h = by_order (rank-Later a b v w h)
  where
    by_order : Later a b → ordinal a ≤ ordinal b
    by_order (by_year year) =
        three (days_before_year a.year) (days_before_month a.year a.month) a.day
          (if is_leap a.year then 1 else 0) (days_before_year b.year)
          (days_before_month b.year b.month) b.day (day_of_year-le a v)
          (year_end-le a.year b.year v.year year)
      where
        three : (x m d l y n e : ℕ) → m + d ≤ 365 + l → x + 365 + l ≤ y → x + m + d ≤ y + n + e
        three x m d l y n e h k = omega arith
    by_order (by_month year month) =
        subst (λ y. ordinal a ≤ days_before_year y + days_before_month y b.month + b.day) year
          (omega
            (arith, v.day_high, days_before_month_mono a.year a.month b.month v.month_low month))
    by_order (by_day year month day) =
        subst (λ y. ordinal a ≤ days_before_year y + days_before_month y b.month + b.day) year
          (subst (λ m. ordinal a ≤ days_before_year a.year + days_before_month a.year m + b.day)
            month (omega (arith, day)))
