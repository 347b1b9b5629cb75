-- ===== src/Refresh/Scheduler.antt =====
-- backend/refresh_run_scheduler.py: whether a task's provider may be asked now. It reads the
-- stored circuit and claims nothing.
use mathlib.Core.Option
use x_bray.Base.{
  ℕ, String, Bool, true, false, Option, none, some, List, ◌==◌, ◌||◌, starts_with, find_where,
  is_after, later_of, if◌then◌else◌,
}
use x_bray.Refresh.Models.{Backend, sqlite, postgres, CircuitState, closed, AccessRow}

-- `task == prefix or task.startswith(f"{prefix}_")`, the two texts written out.
abbrev pub provider_task : String → String → String → Bool
provider_task prefix prefix_ task = task == prefix || starts_with task prefix_

unfoldable pub source_scope_for_task : String → Option String
source_scope_for_task task =
    if starts_with task "sgs_" || starts_with task "ipca_grupos"
    then some "bcb_sgs:primary:primary"
    else if provider_task "tesouro" "tesouro_" task
    then some "tesouro:primary:primary"
    else if provider_task "focus" "focus_" task
    then some "focus:primary:primary"
    else if provider_task "anbima" "anbima_" task
    then some "anbima:primary:primary"
    else if provider_task "b3" "b3_" task
    then some "b3:primary:primary"
    else if provider_task "ibge_sidra" "ibge_sidra_" task
    then some "ibge_sidra:primary:primary"
    else none

-- A column of `source_access_state` as the driver hands it over: text from SQLite, a `datetime`
-- from the TIMESTAMPTZ columns that migration 015 makes in PostgreSQL.
pub data Cell : Type 0 where
  null : Cell
  text : ℕ → Cell
  timestamptz : ℕ → Cell

abbrev pub column_value : Backend → Option ℕ → Cell
column_value backend none = null
column_value sqlite (some t) = text t
column_value postgres (some t) = timestamptz t

-- `_timestamp` reads text only.
abbrev pub timestamp : Cell → Option ℕ
timestamp null = none
timestamp (text t) = some t
timestamp (timestamptz t) = none

-- One value of the mapping of states.
pub record AccessState : Type 0 where
  pub state : CircuitState
  pub opened_until : Cell
  pub retry_not_before : Cell
  pub probe_lease_until : Cell

pub record Eligibility : Type 0 where
  pub eligible : Bool
  pub next_at : Option ℕ
  pub reason : Option String

abbrev pub eligible_now : Eligibility
eligible_now = record { eligible = true; next_at = none; reason = none }

abbrev pub wait_until : Option ℕ → String → Eligibility
wait_until at why = record { eligible = false; next_at = at; reason = some why }

abbrev pub is_closed : CircuitState → Bool
is_closed closed = true
is_closed _ = false

abbrev pub state_eligibility : AccessState → ℕ → Eligibility
state_eligibility state now =
    let lease_until = timestamp state.probe_lease_until in
    let next_at = later_of (timestamp state.retry_not_before) (timestamp state.opened_until) in
    if is_closed state.state
    then eligible_now
    else if is_after lease_until now
    then wait_until lease_until "probe_lease_active"
    else if is_after next_at now
    then wait_until next_at "publisher_cooldown"
    else eligible_now

unfoldable pub provider_eligibility : Option AccessState → ℕ → Eligibility
provider_eligibility none now = eligible_now
provider_eligibility (some state) now = state_eligibility state now

abbrev pub access_state : Backend → AccessRow → AccessState
access_state backend row = record {
  state = row.state;
  opened_until = column_value backend row.opened_until;
  retry_not_before = column_value backend row.retry_not_before;
  probe_lease_until = column_value backend row.probe_lease_until;
}

abbrev pub is_scope : String → AccessRow → Bool
is_scope scope row = row.scope_id == scope

-- `states.get(scope) if scope else None`
abbrev pub state_of_scope : Backend → List AccessRow → Option String → Option AccessState
state_of_scope backend access none = none
state_of_scope backend access (some scope) =
    Option.map (access_state backend) (find_where (is_scope scope) access)

unfoldable pub item_eligibility : Backend → List AccessRow → String → ℕ → Eligibility
unfolding provider_eligibility
item_eligibility backend access task now =
    provider_eligibility (state_of_scope backend access (source_scope_for_task task)) now
