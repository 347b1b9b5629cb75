-- ===== src/Refresh/Commands.antt =====
-- The operations of backend/db/refresh_runs.py as the commands of any number of workers. Each
-- transaction runs alone, as under SQLite's BEGIN IMMEDIATE, so a history is a list of commands.
pub mod Exclusion
pub mod History
pub mod KeptByItems
pub mod KeptByRuns
pub mod KeptByCreate
pub mod Endings
pub mod Fenced
use x_bray.Base.{ℕ, ◌≤◌, String, List, [], ◌∷◌}
use x_bray.Refresh.Models.{
  RawTimestamp, aware, RefreshRunStart, RefreshWorkItemClaimRequest, RefreshWorkItemDeferral,
  RefreshWorkItemCompletion, RefreshRunCutoffUpdate, RefreshRunFinalization, Db,
}
use x_bray.Refresh.Items.Claim.{claim_next_work_item}
use x_bray.Refresh.Items.Settle.{defer_work_item_claim, complete_work_item_claim}
use x_bray.Refresh.Lifecycle.Create.{create_or_resume_run}
use x_bray.Refresh.Finalize.{persist_run_cutoff, finalize_and_release_run}

-- A claim carries the `uuid4` that it draws.
pub data Command : Type 0 where
  create : RefreshRunStart → Command
  claim : RefreshWorkItemClaimRequest → String → Command
  defer : RefreshWorkItemDeferral → Command
  complete : RefreshWorkItemCompletion → Command
  cutoff : RefreshRunCutoffUpdate → Command
  finalize : RefreshRunFinalization → Command

-- The database that a command leaves, whether it returns or raises.
unfoldable pub execute : Command → Db → Db
execute (create start) db = (create_or_resume_run start db).1
execute (claim request token) db = (claim_next_work_item request token db).1
execute (defer request) db = (defer_work_item_claim request db).1
execute (complete completion) db = (complete_work_item_claim completion db).1
execute (cutoff update) db = (persist_run_cutoff update db).1
execute (finalize finalization) db = (finalize_and_release_run finalization db).1

unfoldable pub execute_all : List Command → Db → Db
execute_all [] db = db
execute_all (c ∷ cs) db = execute_all cs (execute c db)

-- The clock reading that a command carries.
abbrev pub reading : Command → RawTimestamp
reading (create start) = start.now
reading (claim request token) = request.now
reading (defer request) = request.now
reading (complete completion) = completion.finished_at
reading (cutoff update) = update.now
reading (finalize finalization) = finalization.finished_at

-- A reading that is no instant makes its command raise, and the time stands.
abbrev pub time_of : ℕ → RawTimestamp → ℕ
time_of t (aware now) = now
time_of t _ = t

abbrev pub end_time : ℕ → List Command → ℕ
end_time t [] = t
end_time t (c ∷ cs) = end_time (time_of t (reading c)) cs

-- The readings never go back.
abbrev pub InOrder : ℕ → List Command → Type 0
InOrder t [] = Unit
InOrder t (c ∷ cs) = (t ≤ time_of t (reading c)) × InOrder (time_of t (reading c)) cs
