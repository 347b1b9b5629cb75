-- ===== src/Calendar/Freshness/Deadlines.antt =====
-- How long a reference is fresh: deadlines, and staleness as time goes by.
use x_bray.Base.{
  ℕ, ◌+◌, ◌≤◌, String, Bool, true, false, Option, none, some, ◌≡◌, refl, ap, subst, ◌==◌, ◌&&◌,
  ◌||◌, not, arith, inl, inr, leb, ltb, nat_eq, Bool-cases, if◌then◌else◌,
}
use x_bray.Calendar.{Date, IsDate, date, month_length, ordinal, rank, max_ordinal}
use x_bray.Calendar.Years.{days_before_month_mono, ordinal_mono}
use x_bray.Calendar.Freshness.{
  ReferenceFreshness, month_end, quarter_end_month, is_frequency, is_accepted, basis_of,
  freshness_at, resolve_reference_freshness,
}

-- The end of a month that is not before a date's is no earlier than the date.
ordinal-month_end :
    (d : Date) (month : ℕ)
    → IsDate d
    → d.month ≤ month
    → ordinal d ≤ ordinal (date d.year month (month_length d.year month))
unfolding ordinal
ordinal-month_end d month v h = elim (Bool-cases (nat_eq d.month month)) [
  | inl same ↦
      let equal : d.month ≡ month = ground (arith, same) in
      subst (λ n. ordinal d ≤ ordinal (date d.year n (month_length d.year n))) equal
        (omega (arith, v.day_high))
  | inr later ↦ omega (
    arith,
    v.day_high,
    days_before_month_mono d.year d.month month v.month_low (ground (arith, h, later)),
  )
]

quarter_end-le : (month : ℕ) → 1 ≤ month → month ≤ quarter_end_month month
quarter_end-le month low = omega arith

-- Every branch names the reference or the end of a month from its own on.
data Moved (reference : Date) : Option (Date × String) → Type 0 where
  refused : Moved reference none
  kept : (kind : String) → Moved reference (some (reference, kind))
  ended :
      (month : ℕ) (kind : String)
      → reference.month ≤ month
      → Moved reference (some (date reference.year month (month_length reference.year month), kind))

basis_of-Moved :
    (reference : Date) (frequency method identity_kind : String) (series_code : ℕ)
    → IsDate reference
    → Moved reference (basis_of reference frequency method series_code identity_kind)
unfolding basis_of month_length
basis_of-Moved reference frequency method identity_kind series_code v =
    by_method (method == "full_period")
      (nat_eq series_code 226 && identity_kind == "full_period" && frequency == "monthly")
      (identity_kind == "point") (frequency == "monthly") (frequency == "moving_quarter")
      (frequency == "quarterly") (frequency == "annual")
      (frequency == "daily" || frequency == "market")
  where
    by_method :
        (full series point monthly moving quarterly annual daily : Bool)
        → Moved reference (
            if full
            then (if series then some (reference, "eligible_period_start") else none)
            else if not point
            then none
            else if monthly
            then some (month_end reference, "observation_month_end")
            else if moving
            then some (month_end reference, "reference_month_end")
            else if quarterly
            then some (
              date reference.year
                  (quarter_end_month reference.month)
                  (month_length reference.year (quarter_end_month reference.month)),
              "calendar_quarter_end",
            )
            else if annual
            then some (date reference.year 12 31, "calendar_year_end")
            else if daily
            then some (reference, "observation_date")
            else none)
    by_method true true point monthly moving quarterly annual daily = kept "eligible_period_start"
    by_method true false point monthly moving quarterly annual daily = refused
    by_method false series false monthly moving quarterly annual daily = refused
    by_method false series true true moving quarterly annual daily =
        ended reference.month "observation_month_end" (omega arith)
    by_method false series true false true quarterly annual daily =
        ended reference.month "reference_month_end" (omega arith)
    by_method false series true false false true annual daily =
        ended (quarter_end_month reference.month) "calendar_quarter_end"
          (quarter_end-le reference.month v.month_low)
    by_method false series true false false false true daily =
        ended 12 "calendar_year_end" v.month_high
    by_method false series true false false false false true = kept "observation_date"
    by_method false series true false false false false false = refused

abbrev basis_ordinal : ℕ → Option (Date × String) → ℕ
basis_ordinal default none = default
basis_ordinal default (some basis) = ordinal basis.0

Moved-late :
    (reference : Date) (o : Option (Date × String))
    → IsDate reference
    → Moved reference o
    → ordinal reference ≤ basis_ordinal (ordinal reference) o
Moved-late reference _ v refused = omega arith
Moved-late reference _ v (kept kind) = omega arith
Moved-late reference _ v (ended month kind h) = ordinal-month_end reference month v h

abbrev fields_of : ReferenceFreshness → Option ReferenceFreshness → ReferenceFreshness
fields_of default none = default
fields_of default (some f) = f

-- What a resolution that returns is made of.
resolve-fields :
    (reference as_of : Date) (frequency method identity_kind : String) (days code : ℕ)
    (f : ReferenceFreshness)
    → resolve_reference_freshness reference as_of frequency method days code identity_kind ≡ some f
    → (is_accepted reference as_of frequency method days code identity_kind ≡ true)
      × (freshness_at as_of days (basis_of reference frequency method code identity_kind) ≡ some f)
unfolding resolve_reference_freshness
resolve-fields reference as_of frequency method identity_kind days code f h =
    elim (Bool-cases (is_accepted reference as_of frequency method days code identity_kind)) [
      | inl accepted ↦ (accepted, rw accepted at h)
      | inr refused_ ↦ absurd (ground (arith, rw refused_ at h))
    ]

freshness_at-later :
    (as_of later : Date) (days : ℕ) (basis : Option (Date × String)) (f : ReferenceFreshness)
    → ordinal as_of ≤ ordinal later
    → freshness_at as_of days basis ≡ some f
    → f.stale ≡ true
    → (g : ReferenceFreshness) × (freshness_at later days basis ≡ some g)
      × (g.stale ≡ true)
      × (g.deadline ≡ f.deadline)
freshness_at-later as_of later days none f le h stale = absurd (ground arith)
freshness_at-later as_of later days (some basis) f le h stale =
    elim (Bool-cases (ltb max_ordinal (ordinal basis.0 + days))) [
      | inl beyond ↦ absurd (ground (arith, rw beyond at h))
      | inr in_range ↦
          let at_once = ap (fields_of f) (rw in_range at h) in
          rw in_range
            (_, refl, ground (arith, ap (λ g. g.stale) at_once), ap (λ g. g.deadline) at_once)
    ]

and-last :
    (p q r s t u v : Bool)
    → (p && q && r && s && t && u) ≡ true
    → (u ≡ true → v ≡ true)
    → (p && q && r && s && t && v) ≡ true
and-last p q r s t u v h k = ground arith

-- A unit that is stale at a date of reporting is stale, with the same deadline, at every later one.
pub stale_stays_stale :
    (reference as_of later : Date) (frequency method identity_kind : String) (days code : ℕ)
    (f : ReferenceFreshness)
    → IsDate as_of
    → IsDate later
    → rank as_of ≤ rank later
    → resolve_reference_freshness reference as_of frequency method days code identity_kind ≡ some f
    → f.stale ≡ true
    → (g : ReferenceFreshness) × (resolve_reference_freshness reference later frequency method days
          code identity_kind
        ≡ some g)
      × (g.stale ≡ true)
      × (g.deadline ≡ f.deadline)
unfolding resolve_reference_freshness
stale_stays_stale reference as_of later frequency method identity_kind days code f v v' after h
      stale =
    let fields = resolve-fields reference as_of frequency method identity_kind days code f h in
    let accepted : is_accepted reference later frequency method days code identity_kind ≡ true =
      and-last (leb 1 code) (identity_kind == "point" || identity_kind == "full_period")
        (leb 1 days) (is_frequency frequency) (method == "date_range" || method == "full_period")
        (leb (rank reference) (rank as_of)) (leb (rank reference) (rank later)) fields.0
        (λ k. ground (arith, k, after)) in
    rw accepted (
      freshness_at-later as_of later days (basis_of reference frequency method code identity_kind) f
        (ordinal_mono as_of later v v' after) fields.1 stale)

freshness_at-deadline :
    (as_of : Date) (days low : ℕ) (basis : Option (Date × String)) (f : ReferenceFreshness)
    → low ≤ basis_ordinal low basis
    → freshness_at as_of days basis ≡ some f
    → (low + days ≤ f.deadline) × (f.deadline ≤ max_ordinal)
freshness_at-deadline as_of days low none f le h = absurd (ground arith)
freshness_at-deadline as_of days low (some basis) f le h =
    elim (Bool-cases (ltb max_ordinal (ordinal basis.0 + days))) [
      | inl beyond ↦ absurd (ground (arith, rw beyond at h))
      | inr in_range ↦
          let due = ap (λ g. g.deadline) (ap (fields_of f) (rw in_range at h)) in
          (ground (arith, due, le), ground (arith, due, in_range))
    ]

-- A deadline is a date, no earlier than the allowed days after the reference: the basis, a month,
-- quarter or year end, never lies before the reference.
pub deadline_allows_days :
    (reference as_of : Date) (frequency method identity_kind : String) (days code : ℕ)
    (f : ReferenceFreshness)
    → IsDate reference
    → resolve_reference_freshness reference as_of frequency method days code identity_kind ≡ some f
    → (ordinal reference + days ≤ f.deadline) × (f.deadline ≤ max_ordinal)
deadline_allows_days reference as_of frequency method identity_kind days code f v h =
    let basis = basis_of reference frequency method code identity_kind in
    freshness_at-deadline as_of days (ordinal reference) basis f
      (Moved-late reference basis v
        (basis_of-Moved reference frequency method identity_kind code v))
      (resolve-fields reference as_of frequency method identity_kind days code f h).1
