-- ===== src/Refresh/Client/Limits.antt =====
-- How many requests a whole run of the client sends, and how long it waits.
use x_bray.Base.{
  ℕ, zero, suc, ◌+◌, ◌-◌, ◌*◌, ◌≤◌, String, Bool, true, false, Option, none, some, arith, leb,
}
use x_bray.Refresh.Client.{Snapshot, WorkItem, ClientConfig, client_error, World, lift, second}
use x_bray.Refresh.Client.Choice.{next_item, is_terminal}
use x_bray.Refresh.Client.Rounds.{
  first_progress, Progress, found_or, updated_or, check_deadline, finalize_round, await_due,
  idle_by_due, idle_round, claimed_round, advance_round, item_round, chosen_round, round, rounds,
  run_resumable_refresh, is_awaitable,
}
use x_bray.Refresh.Client.Bounds.{
  IsMeter, SendsAtMost, give-bound, raise-bound, lift-bound, bind-bound, weaken-bound, if-bound,
  wall-bound, monotonic-bound, sleep-bound, read_status-bound, start_run-bound, post_item-bound,
  finalize-bound,
}

module _ {S : Type 0} (world : World S) (config : ClientConfig) (sent : S → ℕ)
    (meter : IsMeter world sent) where
  found_or-bound :
      (message : String) (found : Option Snapshot)
      → SendsAtMost sent 0 (found_or world config message found)
  found_or-bound message none = raise-bound (client_error message)
  found_or-bound message (some snapshot) = give-bound

  updated_or-bound :
      (message : String) (updated : Option Snapshot)
      → SendsAtMost sent 3 (updated_or world config message updated)
  updated_or-bound message none =
      bind-bound 3 0 (read_status-bound world config sent meter)
        (λ found. found_or-bound message found)
  updated_or-bound message (some snapshot) = give-bound

  check_deadline-bound :
      (progress : Progress) → SendsAtMost sent 0 (check_deadline world config progress)
  check_deadline-bound progress = bind-bound 0 0 (monotonic-bound world config sent meter) (λ now.
      if-bound (leb progress.deadline now)
        (raise-bound (client_error "refresh run exceeded the bounded wait time")) give-bound)

  finalize_round-bound :
      (progress : Progress) → SendsAtMost sent 7 (finalize_round world config progress)
  finalize_round-bound progress =
      bind-bound 4 3 (finalize-bound world config sent meter) (λ updated.
        bind-bound 3 0 (updated_or-bound "refresh run disappeared during finalization" updated)
          (λ snapshot. check_deadline-bound _))

  await_due-bound :
      (progress : Progress) (delay : ℕ) → SendsAtMost sent 7 (await_due world config progress delay)
  await_due-bound progress delay = weaken-bound 3 7 (omega arith) (
      bind-bound 0 3 (sleep-bound world config sent meter delay) (λ done.
        bind-bound 3 0 (read_status-bound world config sent meter) (λ current.
          bind-bound 0 0
            (found_or-bound "refresh run disappeared while awaiting provider eligibility" current)
            (λ snapshot. give-bound))))

  idle_by_due-bound :
      (progress : Progress) (due : Option ℕ) (now monotonic : ℕ)
      → SendsAtMost sent 7 (idle_by_due world config progress due now monotonic)
  idle_by_due-bound progress none now monotonic = finalize_round-bound progress
  idle_by_due-bound progress (some due) now monotonic =
      if-bound (is_awaitable world config progress due now monotonic)
        (await_due-bound progress (due - now)) (finalize_round-bound progress)

  idle_round-bound :
      (progress : Progress) (due : Option ℕ)
      → SendsAtMost sent 7 (idle_round world config progress due)
  idle_round-bound progress due = bind-bound 0 7 (wall-bound world config sent meter) (λ now.
      bind-bound 0 7 (monotonic-bound world config sent meter)
        (λ monotonic. idle_by_due-bound progress due now monotonic))

  claimed_round-bound :
      (progress : Progress) → SendsAtMost sent 7 (claimed_round world config progress)
  claimed_round-bound progress = weaken-bound 3 7 (omega arith) (
      bind-bound 0 3 (check_deadline-bound progress) (λ checked.
        bind-bound 0 3 (sleep-bound world config sent meter (2 * second)) (λ done.
          bind-bound 3 0 (read_status-bound world config sent meter) (λ current.
            bind-bound 0 0 (found_or-bound "refresh run disappeared while work was claimed" current)
              (λ snapshot. check_deadline-bound progress)))))

  advance_round-bound :
      (progress : Progress) (item : WorkItem)
      → SendsAtMost sent 7 (advance_round world config progress item)
  advance_round-bound progress item =
      bind-bound 4 3 (post_item-bound world config sent meter item.item_key) (λ updated.
        bind-bound 3 0
          (updated_or-bound "refresh run disappeared after an uncertain advance" updated)
          (λ snapshot. check_deadline-bound _))

  item_round-bound :
      (progress : Progress) (item : WorkItem) (active : Bool)
      → SendsAtMost sent 7 (item_round world config progress item active)
  item_round-bound progress item true = claimed_round-bound progress
  item_round-bound progress item false = advance_round-bound progress item

  chosen_round-bound :
      (progress : Progress) (item : Option WorkItem)
      → SendsAtMost sent 7 (chosen_round world config progress item)
  chosen_round-bound progress none =
      bind-bound 0 7 lift-bound (λ due. idle_round-bound progress due)
  chosen_round-bound progress (some item) =
      bind-bound 0 7 (wall-bound world config sent meter)
        (λ now. bind-bound 0 7 lift-bound (λ active. item_round-bound progress item active))

  choice-bound :
      (now : ℕ) (progress : Progress)
      → SendsAtMost sent 0 (lift {S = S} (next_item now progress.snapshot))
  choice-bound now progress = lift-bound

  round-bound : (progress : Progress) → SendsAtMost sent 7 (round world config progress)
  unfolding round
  round-bound progress =
      bind-bound 0 7 (wall-bound world config sent meter) (λ now.
        bind-bound 0 7 (choice-bound now progress) (λ item. chosen_round-bound progress item))

  rounds-bound :
      (left : ℕ) (progress : Progress)
      → SendsAtMost sent (left * 7) (rounds world config left progress)
  unfolding rounds
  rounds-bound zero progress =
      raise-bound (client_error "refresh run exceeded the bounded operation count")
  rounds-bound (suc left) progress = if-bound (is_terminal progress.snapshot.run.state) lift-bound (
      weaken-bound (left * 7 + 7) (suc left * 7) (omega arith)
        (bind-bound 7 (left * 7) (round-bound progress) (λ next. rounds-bound left next)))

-- Whatever the server, the clocks and the network do, a run of the client comes to an end, in a result
-- or an error, after at most 7011 requests: eleven for the start and seven for each of a thousand
-- rounds.
pub run_resumable_refresh-sends_at_most :
    {S : Type 0} (world : World S) (config : ClientConfig) (sent : S → ℕ) (s : S)
    → IsMeter world sent
    → sent (run_resumable_refresh world config s).1 ≤ 7011 + sent s
unfolding run_resumable_refresh
run_resumable_refresh-sends_at_most world config sent s meter = by_bound.bound s
  where
    by_bound : SendsAtMost sent 7011 (run_resumable_refresh world config)
    by_bound = bind-bound 0 7011 (monotonic-bound world config sent meter) (λ started.
        bind-bound 11 7000 (start_run-bound world config sent meter) (λ snapshot.
          rounds-bound world config sent meter 1000 (first_progress world config started snapshot)))
