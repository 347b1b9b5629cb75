-- ===== src/Calendar/Scenarios.antt =====
-- The theorems on dates at concrete inputs.
use x_bray.Base.{ℕ, ◌+◌, ◌*◌, ◌≤◌, true, some, ◌≡◌, refl, arith, count_where}
use x_bray.Calendar.{
  IsDate, date, month_length, days_before_month, ordinal, rank, month_shift, days_in_month,
  archive_windows, max_ordinal,
}
use x_bray.Calendar.Windows.{contains, month_shift-IsDate, archive_windows-cover}
use x_bray.Calendar.Freshness.{ReferenceFreshness, basis_of, resolve_reference_freshness}
use x_bray.Calendar.Freshness.Deadlines.{stale_stays_stale, deadline_allows_days}

-- Any date whose day every month has.
plain_date :
    (year month day : ℕ)
    → 1 ≤ year
    → 1 ≤ month
    → month ≤ 12
    → 1 ≤ day
    → day ≤ 28
    → IsDate (date year month day)
unfolding month_length
plain_date year month day y low high first last = record {
  year = y;
  month_low = low;
  month_high = high;
  day_low = first;
  day_high = ground arith;
}

month_end_date : IsDate (date 2024 3 31)
unfolding month_length
month_end_date = record {
  year = omega arith;
  month_low = omega arith;
  month_high = omega arith;
  day_low = omega arith;
  day_high = omega arith;
}

month_shift-IsDate_example :
    IsDate (date 2024 2 29) × (2024 * 12 + 2 + 1 ≡ 2024 * 12 + 3) × (29 ≤ 31)
unfolding month_shift days_in_month ordinal days_before_month month_length
month_shift-IsDate_example =
    month_shift-IsDate (date 2024 3 31) (date 2024 2 29) 1 month_end_date refl

archive_windows-cover_example :
    count_where (contains (date 2021 7 9)) (archive_windows (date 2020 3 1) (date 2023 5 2)) ≡ 1
unfolding rank
archive_windows-cover_example =
    archive_windows-cover (date 2020 3 1) (date 2023 5 2) (date 2021 7 9)
      (plain_date 2020 3 1 (omega arith) (omega arith) (omega arith) (omega arith) (omega arith))
      (plain_date 2023 5 2 (omega arith) (omega arith) (omega arith) (omega arith) (omega arith))
      (plain_date 2021 7 9 (omega arith) (omega arith) (omega arith) (omega arith) (omega arith))

abbrev may_freshness : ReferenceFreshness
may_freshness = record {
  basis_date = date 2024 4 30;
  basis_kind = "observation_month_end";
  deadline = 739051;
  age_days = (50, 0);
  stale = true;
}

april : IsDate (date 2024 4 1)
april = plain_date 2024 4 1 (omega arith) (omega arith) (omega arith) (omega arith) (omega arith)

june : IsDate (date 2024 6 19)
june = plain_date 2024 6 19 (omega arith) (omega arith) (omega arith) (omega arith) (omega arith)

july : IsDate (date 2024 7 1)
july = plain_date 2024 7 1 (omega arith) (omega arith) (omega arith) (omega arith) (omega arith)

stale_stays_stale_example :
    (g : ReferenceFreshness) × (resolve_reference_freshness
        (date 2024 4 1)
        (date 2024 7 1)
        "monthly"
        "date_range"
        45
        433
        "point"
      ≡ some g)
    × (g.stale ≡ true)
    × (g.deadline ≡ 739051)
unfolding resolve_reference_freshness basis_of ordinal rank days_before_month month_length
stale_stays_stale_example =
    stale_stays_stale (date 2024 4 1) (date 2024 6 19) (date 2024 7 1) "monthly" "date_range"
      "point" 45 433 may_freshness june july (omega arith) refl refl

deadline_allows_days_example : (ordinal (date 2024 4 1) + 45 ≤ 739051) × (739051 ≤ max_ordinal)
unfolding resolve_reference_freshness basis_of ordinal rank days_before_month month_length
deadline_allows_days_example =
    deadline_allows_days (date 2024 4 1) (date 2024 6 19) "monthly" "date_range" "point" 45 433
      may_freshness april refl
