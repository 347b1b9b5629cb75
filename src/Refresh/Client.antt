-- ===== src/Refresh/Client.antt =====
-- The workflow's client of a run, backend/refresh_run_client.py: its documents, and the world that it
-- acts on through requests, clocks and sleeps.
pub mod Requests
pub mod Choice
pub mod Rounds
pub mod Bounds
pub mod Limits
pub mod Origins
pub mod Result
pub mod Scenarios
use x_bray.Base.{
  ℕ, String, Bool, true, false, Option, none, some, List, [], ◌∷◌, ◌==◌, ◌&&◌, ◌||◌, not,
  if◌then◌else◌,
}
use x_bray.Refresh.Models.{RawTimestamp, RefreshRunState, RefreshWorkItemStatus}

pub data RefreshStatus : Type 0 where
  ok partial error : RefreshStatus

pub record FinalTask : Type 0 where
  pub name : String
  pub status : String
  pub error_code : Option String
  pub acquisition_status : Option String
  pub retry_not_before : Option String
  pub deferral_reason : Option String
  pub error_category : Option String
  pub last_error_code : Option String

pub record FinalResult : Type 0 where
  pub status : RefreshStatus
  pub tasks : List FinalTask

-- The text of a final result, by what parsing and validation make of it.
pub data FinalText : Type 0 where
  parsed : FinalResult → FinalText
  unreadable : FinalText

pub record Run : Type 0 where
  pub run_id : String
  pub cycle_id : String
  pub state : RefreshRunState
  pub force : Bool
  pub manifest_version : String
  pub final_result : Option FinalText
  pub next_due_at : Option RawTimestamp
  pub due_work_item_key : Option String

pub record WorkItem : Type 0 where
  pub item_key : String
  pub task : Option String
  pub status : RefreshWorkItemStatus
  pub attempt : ℕ
  pub claim_expires_at : Option RawTimestamp
  pub acquisition_attempts : ℕ
  pub next_attempt_at : Option RawTimestamp
  pub error_category : Option String
  pub last_error_category : Option String

pub record Snapshot : Type 0 where
  pub run : Run
  pub items : List WorkItem

-- The fields of RefreshRunClientConfig that decide; seconds that are not positive stand as 0.
pub record ClientConfig : Type 0 where
  pub run_id : String
  pub cycle_id : String
  pub force : Bool
  pub max_wait_seconds : ℕ
  pub max_in_run_wait_seconds : ℕ
  pub resume_existing : Bool

-- RefreshRunClientError by its text, with the status where the text has one; `crash` is the ValueError
-- or TypeError of a timestamp that is no instant.
pub data ClientError : Type 0 where
  client_error : String → ClientError
  http_error : String → ℕ → ClientError
  crash : ClientError

pub data Answer {ℓ} (A : Type ℓ) : Type ℓ where
  fails : ClientError → Answer A
  gives : A → Answer A

pub data Call : Type 0 where
  get_run post_run post_finalize : Call
  post_advance : String → Call

-- `failed` is RuntimeError, URLError or TimeoutError; a payload that is no valid document is none.
pub data Reply : Type 0 where
  failed : Reply
  replied : ℕ → Option Snapshot → Reply

-- What the client can do to the state of everything else. Clocks count microseconds; one monotonic
-- clock stands for `perf_counter` and `monotonic`.
pub record World (S : Type 0) : Type 0 where
  pub request : Call → S → Reply × S
  pub wall : S → ℕ × S
  pub monotonic : S → ℕ × S
  pub sleep : ℕ → S → S

abbrev pub Action : Type 0 → Type 0 → Type 0
Action S A = S → Answer A × S

abbrev pub answered : {S A B : Type 0} → Answer A × S → (A → Action S B) → Answer B × S
answered (fails e, s) next = (fails e, s)
answered (gives a, s) next = next a s

infixl 10 ◌>>=◌
unfoldable pub ◌>>=◌ : {S A B : Type 0} → Action S A → (A → Action S B) → Action S B
(m >>= next) s = answered (m s) next

abbrev pub give : {S A : Type 0} → A → Action S A
give a s = (gives a, s)

abbrev pub raise : {S A : Type 0} → ClientError → Action S A
raise e s = (fails e, s)

abbrev pub lift : {S A : Type 0} → Answer A → Action S A
lift answer s = (answer, s)

abbrev pub pair : {S A : Type 0} → A × S → Answer A × S
pair (a, s) = (gives a, s)

module _ {S : Type 0} (world : World S) where
  unfoldable pub send : Call → Action S Reply
  send call s = pair (world.request call s)

  unfoldable pub wall_now : Action S ℕ
  wall_now s = pair (world.wall s)

  unfoldable pub monotonic_now : Action S ℕ
  monotonic_now s = pair (world.monotonic s)

  unfoldable pub sleep_for : ℕ → Action S (Unit {0})
  sleep_for microseconds s = (gives tt, world.sleep microseconds s)

abbrev pub second : ℕ
second = 1_000_000

abbrev pub current_manifest_version : String
current_manifest_version = "daily-refresh-v6"

abbrev pub is_supported : String → Bool
is_supported version =
    version == current_manifest_version
    || version == "daily-refresh-v4"
    || version == "daily-refresh-v5"
    || version == "daily-refresh-v3"
    || version == "daily-refresh-v2"
    || version == "daily-refresh-v1"

abbrev pub is_accepted_version : ClientConfig → String → Bool
is_accepted_version config version =
    if config.resume_existing then is_supported version else version == current_manifest_version

abbrev pub equal_flags : Bool → Bool → Bool
equal_flags true b = b
equal_flags false b = not b

abbrev pub is_own : ClientConfig → Snapshot → Bool
is_own config snapshot =
    snapshot.run.run_id == config.run_id
    && snapshot.run.cycle_id == config.cycle_id
    && equal_flags snapshot.run.force config.force
    && is_accepted_version config snapshot.run.manifest_version

-- `_snapshot`
unfoldable pub checked_snapshot : ClientConfig → Option Snapshot → Answer Snapshot
checked_snapshot config none =
    fails (client_error "refresh run returned an invalid status document")
checked_snapshot config (some snapshot) =
    if not (is_own config snapshot)
    then fails (client_error "refresh run status disagrees with the stable workflow identity")
    else gives snapshot
