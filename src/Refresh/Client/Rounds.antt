-- ===== src/Refresh/Client/Rounds.antt =====
-- The loop `run_resumable_refresh` of backend/refresh_run_client.py.
use x_bray.Base.{
  ℕ, zero, suc, ◌+◌, ◌-◌, ◌*◌, String, Bool, true, false, Option, none, some, ◌&&◌, leb, ltb,
  if◌then◌else◌,
}
use x_bray.Refresh.Client.{
  FinalResult, WorkItem, Snapshot, ClientConfig, client_error, World, Action, ◌>>=◌, give, raise,
  lift, wall_now, monotonic_now, sleep_for, second,
}
use x_bray.Refresh.Client.Requests.{read_status, start_run, post_item, finalize}
use x_bray.Refresh.Client.Choice.{next_item, next_due, active_claim, is_terminal, client_result}

abbrev pub smaller_of : ℕ → ℕ → ℕ
smaller_of a b = if ltb b a then b else a

-- `min(max(config.max_in_run_wait_seconds, 0), 300)`, in microseconds.
abbrev pub wait_budget : ClientConfig → ℕ
wait_budget config = smaller_of config.max_in_run_wait_seconds 300 * second

-- What a round keeps: the deadline, what has been waited, and the snapshot.
pub record Progress : Type 0 where
  pub deadline : ℕ
  pub waited : ℕ
  pub snapshot : Snapshot

abbrev pub with_snapshot : Progress → Snapshot → Progress
with_snapshot progress snapshot = record progress { snapshot = snapshot }

abbrev pub has_waited : Progress → ℕ → Snapshot → Progress
has_waited progress delay snapshot = record progress {
  waited = progress.waited + delay;
  snapshot = snapshot;
}

module _ {S : Type 0} (world : World S) (config : ClientConfig) where
  abbrev pub found_or : String → Option Snapshot → Action S Snapshot
  found_or message none = raise (client_error message)
  found_or message (some snapshot) = give snapshot

  -- `updated`, or what a further read of the status gives.
  abbrev pub updated_or : String → Option Snapshot → Action S Snapshot
  updated_or message none = read_status world config >>= λ found. found_or message found
  updated_or message (some snapshot) = give snapshot

  -- The check at the end of a round.
  abbrev pub check_deadline : Progress → Action S Progress
  check_deadline progress = monotonic_now world >>= λ now.
      if leb progress.deadline now
      then raise (client_error "refresh run exceeded the bounded wait time")
      else give progress

  abbrev pub finalize_round : Progress → Action S Progress
  finalize_round progress = finalize world config >>= λ updated.
      updated_or "refresh run disappeared during finalization" updated >>= λ snapshot.
      check_deadline (with_snapshot progress snapshot)

  -- The delay, where there is one, within what is left of the run and of the budget.
  abbrev pub is_awaitable : Progress → ℕ → ℕ → ℕ → Bool
  is_awaitable progress due now monotonic =
      ltb now due
      && leb (monotonic + (due - now)) progress.deadline
      && leb (progress.waited + (due - now)) (wait_budget config)

  abbrev pub await_due : Progress → ℕ → Action S Progress
  await_due progress delay = sleep_for world delay >>= λ done.
      read_status world config >>= λ current.
      found_or "refresh run disappeared while awaiting provider eligibility" current >>= λ snapshot.
      give (has_waited progress delay snapshot)

  abbrev pub idle_by_due : Progress → Option ℕ → ℕ → ℕ → Action S Progress
  idle_by_due progress none now monotonic = finalize_round progress
  idle_by_due progress (some due) now monotonic =
      if is_awaitable progress due now monotonic
      then await_due progress (due - now)
      else finalize_round progress

  abbrev pub idle_round : Progress → Option ℕ → Action S Progress
  idle_round progress due = wall_now world >>= λ now.
      monotonic_now world >>= λ monotonic. idle_by_due progress due now monotonic

  -- The status that is read here is not kept: the assignment stands behind the `raise`.
  abbrev pub claimed_round : Progress → Action S Progress
  claimed_round progress = check_deadline progress >>= λ checked.
      sleep_for world (2 * second) >>= λ done. read_status world config >>= λ current.
      found_or "refresh run disappeared while work was claimed" current >>= λ snapshot.
      check_deadline progress

  abbrev pub advance_round : Progress → WorkItem → Action S Progress
  advance_round progress item = post_item world config item.item_key >>= λ updated.
      updated_or "refresh run disappeared after an uncertain advance" updated >>= λ snapshot.
      check_deadline (with_snapshot progress snapshot)

  abbrev pub item_round : Progress → WorkItem → Bool → Action S Progress
  item_round progress item true = claimed_round progress
  item_round progress item false = advance_round progress item

  abbrev pub chosen_round : Progress → Option WorkItem → Action S Progress
  chosen_round progress none = lift (next_due progress.snapshot) >>= λ due. idle_round progress due
  chosen_round progress (some item) = wall_now world >>= λ now.
      lift (active_claim now item) >>= λ active. item_round progress item active

  unfoldable pub round : Progress → Action S Progress
  unfolding next_item active_claim read_status post_item finalize ◌>>=◌ wall_now monotonic_now
      sleep_for
  round progress = wall_now world >>= λ now.
      lift (next_item now progress.snapshot) >>= λ item. chosen_round progress item

  -- `for _attempt in range(1000)`
  unfoldable pub rounds : ℕ → Progress → Action S FinalResult
  unfolding round client_result ◌>>=◌
  rounds zero progress = raise (client_error "refresh run exceeded the bounded operation count")
  rounds (suc left) progress =
      if is_terminal progress.snapshot.run.state
      then lift (client_result progress.snapshot)
      else round progress >>= (λ next. rounds left next)

  abbrev pub first_progress : ℕ → Snapshot → Progress
  first_progress started snapshot = record {
    deadline = started + config.max_wait_seconds * second;
    waited = 0;
    snapshot = snapshot;
  }

  unfoldable pub run_resumable_refresh : Action S FinalResult
  unfolding rounds start_run monotonic_now ◌>>=◌
  run_resumable_refresh = monotonic_now world >>= λ started.
      start_run world config >>= λ snapshot. rounds 1000 (first_progress started snapshot)
