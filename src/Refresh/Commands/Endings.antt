-- ===== src/Refresh/Commands/Endings.antt =====
-- Runs that have ended, over any sequence of commands.
use x_bray.Base.{String, false, some, List, [], ◌∷◌, ◌≡◌, find_where}
use x_bray.Refresh.Models.{RefreshRunRecord, Db, is_running}
use x_bray.Refresh.Transaction.{is_run}
use x_bray.Refresh.Commands.{
  Command, create, claim, defer, complete, cutoff, finalize, execute, execute_all,
}
use x_bray.Refresh.Commands.History.{HasEnded}
use x_bray.Refresh.Commands.KeptByItems.{claim-HasEnded, defer-HasEnded, complete-HasEnded}
use x_bray.Refresh.Commands.KeptByRuns.{cutoff-HasEnded, finalize-HasEnded}
use x_bray.Refresh.Commands.KeptByCreate.{create-HasEnded}

module _ (run_id : String) (run : RefreshRunRecord) where
  execute-HasEnded :
      (c : Command) (db : Db)
      → HasEnded run_id run db.runs
      → HasEnded run_id run (execute c db).runs
  unfolding execute
  execute-HasEnded (create start) db h = create-HasEnded run_id run start db h
  execute-HasEnded (claim request token) db h = claim-HasEnded run_id run db h request token
  execute-HasEnded (defer request) db h = defer-HasEnded run_id run db h request
  execute-HasEnded (complete completion) db h = complete-HasEnded run_id run db h completion
  execute-HasEnded (cutoff update) db h = cutoff-HasEnded run_id run db h update
  execute-HasEnded (finalize finalization) db h = finalize-HasEnded run_id run db h finalization

  execute_all-HasEnded :
      (commands : List Command) (db : Db)
      → HasEnded run_id run db.runs
      → HasEnded run_id run (execute_all commands db).runs
  unfolding execute_all
  execute_all-HasEnded [] db h = h
  execute_all-HasEnded (c ∷ cs) db h =
      execute_all-HasEnded cs (execute c db) (execute-HasEnded c db h)

-- A stored run that is no longer running keeps its row, every column of it, through any commands
-- whatever.
pub ended_run_is_final :
    (run_id : String) (run : RefreshRunRecord) (commands : List Command) (db : Db)
    → find_where (is_run run_id) db.runs ≡ some run
    → is_running run.state ≡ false
    → find_where (is_run run_id) (execute_all commands db).runs ≡ some run
ended_run_is_final run_id run commands db stored ended =
    (execute_all-HasEnded run_id run commands db (record { stored = stored; ended = ended })).stored
