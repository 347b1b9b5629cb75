-- ===== src/Admin/Cleanup.antt =====
-- `cleanup` of backend/db/admin_auth.py: the bounded deletion of rows past their retention.
pub mod Deletion
pub mod Retention
use x_bray.Base.{
  ℕ, zero, suc, ◌+◌, ◌*◌, String, Bool, true, false, Option, none, some, List, [], ◌∷◌, leb, ltb,
  ◌||◌, ◌&&◌, not, count_where, if◌then◌else◌,
}
use x_bray.Admin.Tables.{
  FlowRow, SessionRow, EventRow, AuthDb, Outcome, raised, returned, value_error,
}
use x_bray.Admin.Flows.{hour}

-- `DELETE … WHERE id IN (SELECT id … WHERE … LIMIT n)` on a table with the primary key `id`.
-- Which rows a SELECT without an order picks is open: here the first ones.
unfoldable pub delete_limit {ℓ} : {A : Type ℓ} → (A → Bool) → ℕ → List A → List A
delete_limit p n [] = []
delete_limit p zero (x ∷ xs) = x ∷ xs
delete_limit p (suc n) (x ∷ xs) =
    let skipped = delete_limit p n xs in
    let kept = delete_limit p (suc n) xs in if p x then skipped else x ∷ kept

-- The row count of that statement.
abbrev pub deleted_limit {ℓ} : {A : Type ℓ} → (A → Bool) → ℕ → List A → ℕ
deleted_limit p n rows = let found = count_where p rows in if leb found n then found else n

abbrev pub retention_day : ℕ
retention_day = 24 * hour

-- `column < now - age`, without a subtraction that stops at 0; a NULL column is not before it.
abbrev pub is_older : ℕ → ℕ → ℕ → Bool
is_older age now instant = ltb (instant + age) now

abbrev pub is_older_than : ℕ → ℕ → Option ℕ → Bool
is_older_than age now none = false
is_older_than age now (some instant) = is_older age now instant

abbrev pub is_dead_flow : ℕ → FlowRow → Bool
is_dead_flow now row = is_older (24 * hour) now row.expires_at

abbrev pub is_dead_session : ℕ → SessionRow → Bool
is_dead_session now row =
    is_older (30 * retention_day) now row.absolute_expires_at
    || is_older_than (30 * retention_day) now row.revoked_at

abbrev pub is_dead_event : ℕ → EventRow → Bool
is_dead_event now row = is_older (180 * retention_day) now row.created_at

pub record Deleted : Type 0 where
  pub admin_oauth_flows : ℕ
  pub admin_sessions : ℕ
  pub admin_auth_events : ℕ

unfoldable pub cleanup : ℕ → ℕ → AuthDb → Outcome (Deleted × AuthDb)
unfolding delete_limit
cleanup batch_size now db =
    if not (leb 1 batch_size && leb batch_size 1000)
    then raised (value_error "batch_size must be between 1 and 1000")
    else returned (
      record {
        admin_oauth_flows = deleted_limit (is_dead_flow now) batch_size db.flows;
        admin_sessions = deleted_limit (is_dead_session now) batch_size db.sessions;
        admin_auth_events = deleted_limit (is_dead_event now) batch_size db.events;
      },
      record db {
        flows = delete_limit (is_dead_flow now) batch_size db.flows;
        sessions = delete_limit (is_dead_session now) batch_size db.sessions;
        events = delete_limit (is_dead_event now) batch_size db.events;
      },
    )
