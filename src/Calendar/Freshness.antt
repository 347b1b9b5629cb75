-- ===== src/Calendar/Freshness.antt =====
-- `resolve_reference_freshness` of backend/reference_freshness.py. Its untyped arguments stand with
-- the types that it accepts: texts for the frequency, the method and the kind, numbers otherwise.
pub mod Deadlines
use x_bray.Base.{
  ℕ, ◌+◌, ◌-◌, ◌*◌, ◌/◌, ◌≤◌, String, Bool, true, false, Option, none, some, ◌≡◌, refl, ap, subst,
  ◌==◌, ◌&&◌, ◌||◌, not, arith, inl, inr, leb, ltb, nat_eq, Bool-cases, if◌then◌else◌,
}
use x_bray.Calendar.{Date, IsDate, date, month_length, ordinal, rank, max_ordinal}
use x_bray.Calendar.Years.{days_before_month_mono, ordinal_mono}

-- `deadline` stands as its ordinal. `age` is the pair of the days after and before the basis date.
pub record ReferenceFreshness : Type 0 where
  pub basis_date : Date
  pub basis_kind : String
  pub deadline : ℕ
  pub age_days : ℕ × ℕ
  pub stale : Bool

abbrev pub month_end : Date → Date
month_end day = date day.year day.month (month_length day.year day.month)

abbrev pub quarter_end_month : ℕ → ℕ
quarter_end_month month = ((month - 1) / 3 + 1) * 3

abbrev pub is_frequency : String → Bool
is_frequency f =
    f == "daily"
    || f == "market"
    || f == "monthly"
    || f == "moving_quarter"
    || f == "quarterly"
    || f == "annual"

-- The conditions on the arguments.
abbrev pub is_accepted : Date → Date → String → String → ℕ → ℕ → String → Bool
is_accepted reference as_of frequency method freshness_days series_code identity_kind =
    leb 1 series_code
    && (identity_kind == "point" || identity_kind == "full_period")
    && leb 1 freshness_days
    && is_frequency frequency
    && (method == "date_range" || method == "full_period")
    && leb (rank reference) (rank as_of)

unfoldable pub basis_of : Date → String → String → ℕ → String → Option (Date × String)
basis_of reference frequency method series_code identity_kind =
    if method == "full_period"
    then (if nat_eq series_code 226 && identity_kind == "full_period" && frequency == "monthly"
        then some (reference, "eligible_period_start")
        else none)
    else if not (identity_kind == "point")
    then none
    else if frequency == "monthly"
    then some (month_end reference, "observation_month_end")
    else if frequency == "moving_quarter"
    then some (month_end reference, "reference_month_end")
    else if frequency == "quarterly"
    then (let month = quarter_end_month reference.month in
        some
          (date reference.year month (month_length reference.year month), "calendar_quarter_end"))
    else if frequency == "annual"
    then some (date reference.year 12 31, "calendar_year_end")
    else if frequency == "daily" || frequency == "market"
    then some (reference, "observation_date")
    else none

-- A deadline after the last date is the OverflowError that is caught.
abbrev pub freshness_at : Date → ℕ → Option (Date × String) → Option ReferenceFreshness
freshness_at as_of days none = none
freshness_at as_of days (some (basis_date, basis_kind)) =
    let deadline = ordinal basis_date + days in
    if ltb max_ordinal deadline
    then none
    else some (record {
      basis_date = basis_date;
      basis_kind = basis_kind;
      deadline = deadline;
      age_days = (ordinal as_of - ordinal basis_date, ordinal basis_date - ordinal as_of);
      stale = ltb deadline (ordinal as_of);
    })

unfoldable pub resolve_reference_freshness :
    Date → Date → String → String → ℕ → ℕ → String → Option ReferenceFreshness
unfolding basis_of ordinal
resolve_reference_freshness reference as_of frequency method freshness_days series_code
      identity_kind =
    if is_accepted reference as_of frequency method freshness_days series_code identity_kind
    then freshness_at as_of freshness_days
        (basis_of reference frequency method series_code identity_kind)
    else none
