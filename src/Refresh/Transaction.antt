-- ===== src/Refresh/Transaction.antt =====
-- backend/db/refresh_run_sql.py and the errors of backend/db/refresh_run_models.py: normalised
-- timestamps, transactions that commit on return and roll back on an exception, and snapshots.
use mathlib.Core.Option
use x_bray.Base.{
  ℕ, String, Bool, true, false, Option, none, some, ◌==◌, ◌&&◌, select_where, find_where, order_by,
  if◌then◌else◌,
}
use x_bray.Refresh.Models.{
  RawTimestamp, aware, naive, malformed, RefreshRunRecord, RefreshWorkItemRecord,
  RefreshRunSnapshot, Lease, Db,
}

-- `integrity` is the driver's IntegrityError, `type_error` the TypeError of a column accessor.
pub data Error : Type 0 where
  input_error : String → Error
  lease_conflict : String → String → Error
  idempotency : String → Error
  cutoff_order : String → Error
  persistence : String → Error
  not_found : String → Error
  integrity : Error
  type_error : String → Error

-- What a function comes to: the exception that left it, or its value.
pub data Result {ℓ} (A : Type ℓ) : Type ℓ where
  err : Error → Result A
  ok : A → Result A

-- The next statement runs unless the one before it raised.
infixl 10 ◌>>=◌
abbrev pub ◌>>=◌ {κ ℓ} : {B : Type κ} {A : Type ℓ} → Result B → (B → Result A) → Result A
err exception >>= next = err exception
ok value >>= next = next value

-- `if test: raise error`
abbrev pub raise_if : Bool → Error → Result (Unit {0})
raise_if false exception = ok tt
raise_if true exception = err exception

infixl 10 ◌>>◌
abbrev pub ◌>>◌ {ℓ} : {A : Type ℓ} → Result (Unit {0}) → Result A → Result A
check >> rest = check >>= λ done. rest

-- The body of a `with transaction()` block.
abbrev pub Tx {ℓ} : Type ℓ → Type ℓ
Tx A = Db → Result (A × Db)

-- Commit on return; on an exception the database is as before.
abbrev pub settle {ℓ} : {A : Type ℓ} → Db → Result (A × Db) → Result A × Db
settle db (ok (a, db')) = (ok a, db')
settle db (err e) = (err e, db)

unfoldable pub transaction {ℓ} : {A : Type ℓ} → Result (Tx A) → Db → Result A × Db
transaction (ok body) db = settle db (body db)
transaction (err e) db = (err e, db)

unfoldable pub utc_iso : RawTimestamp → String → Result ℕ
utc_iso (aware t) field = ok t
utc_iso naive field = err (input_error field)
utc_iso malformed field = err (input_error field)

abbrev pub optional_utc_iso : Option RawTimestamp → String → Result (Option ℕ)
optional_utc_iso none field = ok none
optional_utc_iso (some raw) field = utc_iso raw field >>= λ t. ok (some t)

abbrev pub is_run : String → RefreshRunRecord → Bool
is_run run_id row = row.run_id == run_id

abbrev pub in_run : String → RefreshWorkItemRecord → Bool
in_run run_id row = row.run_id == run_id

abbrev pub is_item : String → String → RefreshWorkItemRecord → Bool
is_item run_id item_key row = row.run_id == run_id && row.item_key == item_key

abbrev pub owned_by : String → Option Lease → Option Lease
owned_by run_id none = none
owned_by run_id (some lease) = if lease.owner == run_id then some lease else none

abbrev pub task_order_of : RefreshWorkItemRecord → ℕ
task_order_of row = row.task_order

unfoldable pub read_snapshot : Db → String → Option RefreshRunSnapshot
read_snapshot db run_id =
    Option.map
      (λ run. record {
        run = run;
        items = order_by task_order_of (select_where (in_run run_id) db.items);
        lease_expires_at = Option.map (λ l. l.expires_at) (owned_by run_id db.lease);
      })
      (find_where (is_run run_id) db.runs)
