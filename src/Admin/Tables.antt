-- ===== src/Admin/Tables.antt =====
-- The four tables of migration 022 (backend/db/migration_steps/v022_admin_auth.py) and what a
-- statement on them comes to. Every instant is a count of microseconds, the precision that
-- `_timestamp` writes; `now` is an argument.
use x_bray.Base.{ℕ, String, Bool, true, false, Option, List, ◌++◌, ◌∷◌, []}

abbrev pub Bytes : Type 0
Bytes = List ℕ

pub record FlowRow : Type 0 where
  pub id : String
  pub flow_handle_hash : String
  pub state_hash : String
  pub browser_binding_hash : String
  pub verifier_ciphertext : Bytes
  pub nonce : Bytes
  pub key_version : String
  pub callback_url : String
  pub created_at : ℕ
  pub expires_at : ℕ
  pub consumed_at : Option ℕ

pub record SessionRow : Type 0 where
  pub id : String
  pub session_token_hash : String
  pub user_id : String
  pub created_at : ℕ
  pub last_activity_at : ℕ
  pub idle_expires_at : ℕ
  pub absolute_expires_at : ℕ
  pub revoked_at : Option ℕ
  pub csrf_token_hash : String

pub record MembershipRow : Type 0 where
  pub user_id : String
  pub granted_at : ℕ
  pub granted_by : Option String
  pub revoked_at : Option ℕ
  pub reason : String

pub record EventRow : Type 0 where
  pub id : String
  pub user_id : Option String
  pub event : String
  pub created_at : ℕ
  pub reason : String

pub record AuthDb : Type 0 where
  pub flows : List FlowRow
  pub sessions : List SessionRow
  pub memberships : List MembershipRow
  pub events : List EventRow

-- `database` is any psycopg.Error or sqlite3.Error, a broken constraint included.
pub data Failure : Type 0 where
  database : Failure
  value_error : String → Failure

-- The exception that left a function, which rolled its transaction back, or its value.
pub data Outcome {ℓ} (A : Type ℓ) : Type ℓ where
  raised : Failure → Outcome A
  returned : A → Outcome A

infixl 10 ◌>>=◌
abbrev pub ◌>>=◌ {κ ℓ} : {B : Type κ} {A : Type ℓ} → Outcome B → (B → Outcome A) → Outcome A
raised exception >>= next = raised exception
returned value >>= next = next value

-- INSERT INTO a table whose PRIMARY KEY and UNIQUE columns must not repeat.
abbrev pub insert_unique {ℓ} : {A : Type ℓ} → Bool → A → List A → Outcome (List A)
insert_unique true row rows = raised database
insert_unique false row rows = returned (rows ++ row ∷ [])

-- The database after a function: as before when an exception left it.
abbrev pub committed {ℓ} : {A : Type ℓ} → AuthDb → Outcome (A × AuthDb) → AuthDb
committed db (raised exception) = db
committed db (returned (value, db')) = db'
