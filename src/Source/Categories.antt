-- ===== src/Source/Categories.antt =====
-- `classify_exception` of backend/ingestion_policy.py: the category of an exception, which decides
-- whether a failed item may be tried again.
use x_bray.Base.{
  ℕ, String, Bool, true, false, Option, none, some, List, [], ◌∷◌, ◌≡◌, refl, ap, ◌==◌, ◌&&◌, ◌||◌,
  not, arith, ltb, nat_eq, if◌then◌else◌,
}
use x_bray.Refresh.RetryPolicy.{in_retryable_failed_categories, failed_item_is_retryable}

pub data ErrorCategory : Type 0 where
  network_timeout network_reset temporary_server_error rate_limited envelope_error invalid_schema
        semantic_conflict incomplete_coverage persistence_failure freshness_failure logging_failure
        configuration_error authentication_error forbidden_host internal_error deferred
        circuit_open :
      ErrorCategory

-- `category.value`
abbrev pub category_value : ErrorCategory → String
category_value network_timeout = "network_timeout"
category_value network_reset = "network_reset"
category_value temporary_server_error = "temporary_server_error"
category_value rate_limited = "rate_limited"
category_value envelope_error = "envelope_error"
category_value invalid_schema = "invalid_schema"
category_value semantic_conflict = "semantic_conflict"
category_value incomplete_coverage = "incomplete_coverage"
category_value persistence_failure = "persistence_failure"
category_value freshness_failure = "freshness_failure"
category_value logging_failure = "logging_failure"
category_value configuration_error = "configuration_error"
category_value authentication_error = "authentication_error"
category_value forbidden_host = "forbidden_host"
category_value internal_error = "internal_error"
category_value deferred = "deferred"
category_value circuit_open = "circuit_open"

-- The first class in the order of the tests that an exception is an instance of.
pub data ErrorClass : Type 0 where
  host_rejected decoding_error timeout network_error other_error : ErrorClass
  retry_policy_error : ErrorCategory → ErrorClass
  http_status_error : ℕ → ErrorClass

-- The attributes that are read; an attribute of another type counts as absent.
pub record ErrorDetails : Type 0 where
  pub stage : Option String
  pub error_category : Option ErrorCategory
  pub category : Option ErrorCategory
  pub error_class : ErrorClass

-- An exception without a `__cause__`, or with one.
pub data Exception : Type 0 where
  plain : ErrorDetails → Exception
  caused : ErrorDetails → Exception → Exception

abbrev pub is_temporary_status : ℕ → Bool
is_temporary_status status =
    nat_eq status 500 || nat_eq status 502 || nat_eq status 503 || nat_eq status 504

abbrev pub status_category : ℕ → ErrorCategory
status_category status =
    if nat_eq status 429
    then rate_limited
    else if is_temporary_status status
    then temporary_server_error
    else if nat_eq status 401
    then authentication_error
    else configuration_error

abbrev pub is_stage : String → Option String → Bool
is_stage name none = false
is_stage name (some stage) = stage == name

abbrev pub stage_category : Option String → ErrorCategory
stage_category stage =
    if is_stage "validation" stage
    then invalid_schema
    else if is_stage "persistence" stage
    then persistence_failure
    else if is_stage "freshness" stage
    then freshness_failure
    else if is_stage "logging" stage
    then logging_failure
    else if is_stage "network" stage
    then network_reset
    else internal_error

abbrev pub class_category : ErrorClass → Option String → ErrorCategory
class_category (retry_policy_error category) stage = category
class_category host_rejected stage = forbidden_host
class_category decoding_error stage = envelope_error
class_category (http_status_error status) stage = status_category status
class_category timeout stage = network_timeout
class_category network_error stage = network_reset
class_category other_error stage = stage_category stage

abbrev pub category_or : Option ErrorCategory → ErrorCategory → ErrorCategory
category_or none category = category
category_or (some explicit) category = explicit

-- The classification without a look at the cause.
unfoldable pub own_category : ErrorDetails → ErrorCategory
own_category details =
    category_or details.error_category
      (category_or details.category (class_category details.error_class details.stage))

abbrev pub is_internal : ErrorCategory → Bool
is_internal internal_error = true
is_internal _ = false

unfoldable pub classify_exception : Exception → ErrorCategory
unfolding own_category
classify_exception (plain details) = own_category details
classify_exception (caused details cause) =
    let cause_category = classify_exception cause in
    if is_stage "network" details.stage && not (is_internal cause_category)
    then cause_category
    else own_category details

status_category-retryable :
    (status : ℕ)
    → in_retryable_failed_categories (category_value (status_category status))
      ≡ is_temporary_status status
status_category-retryable status =
    by_tests (nat_eq status 429) (is_temporary_status status) (nat_eq status 401)
      (λ h. ground (arith, h))
  where
    by_tests :
        (limited temporary unauthorized : Bool)
        → (limited ≡ true → temporary ≡ false)
        → in_retryable_failed_categories (
            category_value (
              if limited
              then rate_limited
              else if temporary
              then temporary_server_error
              else if unauthorized
              then authentication_error
              else configuration_error))
          ≡ temporary
    by_tests true true unauthorized h = absurd (ground (arith, h refl))
    by_tests true false unauthorized h = refl
    by_tests false true unauthorized h = refl
    by_tests false false true h = refl
    by_tests false false false h = refl

-- An HTTP error that says nothing else of itself is tried again exactly for the statuses 500, 502,
-- 503 and 504, while acquisitions are left.
pub http_retry-statuses :
    (details : ErrorDetails) (status acquisitions max_attempts : ℕ)
    → details.error_category ≡ none
    → details.category ≡ none
    → details.error_class ≡ http_status_error status
    → failed_item_is_retryable
        (some (category_value (classify_exception (plain details))))
        acquisitions
        max_attempts
      ≡ (is_temporary_status status && ltb acquisitions max_attempts)
unfolding classify_exception own_category failed_item_is_retryable
http_retry-statuses details status acquisitions max_attempts e c k =
    rw (e, c, k) (ap (λ b. b && ltb acquisitions max_attempts) (status_category-retryable status))

-- An exception inside any number of others.
abbrev pub wrapped : List ErrorDetails → Exception → Exception
wrapped [] error = error
wrapped (details ∷ rest) error = caused details (wrapped rest error)

abbrev pub AreNetworkStages : List ErrorDetails → Type 0
AreNetworkStages [] = Unit
AreNetworkStages (details ∷ rest) =
    (is_stage "network" details.stage ≡ true) × AreNetworkStages rest

-- A category other than `internal_error` survives any number of wrappers of the network stage,
-- whatever these say of themselves.
pub wrapped-category :
    (wrappers : List ErrorDetails) (error : Exception)
    → AreNetworkStages wrappers
    → is_internal (classify_exception error) ≡ false
    → classify_exception (wrapped wrappers error) ≡ classify_exception error
unfolding classify_exception
wrapped-category [] error h known = refl
wrapped-category (details ∷ rest) error h known =
    rw (h.0, wrapped-category rest error h.1 known, known) refl
