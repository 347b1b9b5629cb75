-- ===== src/Refresh/Client/Result.antt =====
-- Where the result of the client comes from.
use x_bray.Base.{
  List, [], ℕ, zero, suc, ◌-◌, ◌*◌, String, Bool, true, false, Option, none, some, ◌≡◌, refl, sym,
  subst, leb, Bool-cases, inl, inr,
}
use x_bray.Refresh.Client.{
  Snapshot, FinalResult, WorkItem, ClientConfig, client_error, Reply, replied, Answer, fails, gives,
  World, ◌>>=◌, give, second, is_own,
}
use x_bray.Refresh.Client.Choice.{next_item, next_due, active_claim, client_result, is_terminal}
use x_bray.Refresh.Client.Rounds.{
  Progress, first_progress, has_waited, with_snapshot, found_or, updated_or, check_deadline,
  finalize_round, await_due, idle_by_due, idle_round, claimed_round, advance_round, item_round,
  chosen_round, round, rounds, run_resumable_refresh, is_awaitable,
}
use x_bray.Refresh.Client.Origins.{
  Satisfies, Ensures, IsIn, IsLog, wall_now-Ensures, monotonic_now-Ensures, sleep_for-Ensures,
  later-IsOwn, Trivial, any_lift-Ensures, give-Ensures, raise-Ensures, lift-Ensures, bind-Ensures,
  if-Ensures, IsOwn, IsOwnOption, KeepsOwn, read_status-Ensures, start_run-Ensures,
  post_item-Ensures, finalize-Ensures,
}

-- The result was read from a snapshot that a reply brought: of the configured run, ended, and without
-- an error.
abbrev pub IsOwnResult : ClientConfig → List Reply → FinalResult → Type 0
IsOwnResult config seen result =
    (snapshot : Snapshot) × IsIn (replied 200 (some snapshot)) seen
    × (is_own config snapshot ≡ true)
    × (is_terminal snapshot.run.state ≡ true)
    × (client_result snapshot ≡ gives result)

module _ {S : Type 0} {log : S → List Reply} (world : World S) (config : ClientConfig)
    (is_log : IsLog world log) where
  given-IsOwn :
      {seen : List Reply}
      → (snapshot : Snapshot) → IsOwn config seen snapshot
      → Ensures log seen (IsOwn config) (give snapshot)
  given-IsOwn {seen} snapshot own =
      give-Ensures (IsOwn config) snapshot
        (λ later more. later-IsOwn config seen later snapshot more own)

  given_progress :
      {seen : List Reply}
      → (progress : Progress) → KeepsOwn config seen progress
      → Ensures log seen (KeepsOwn config) (give progress)
  given_progress {seen} progress own =
      give-Ensures (KeepsOwn config) progress
        (λ later more. later-IsOwn config seen later progress.snapshot more own)

  found_or-Ensures :
      {seen : List Reply}
      → (message : String) (found : Option Snapshot) → IsOwnOption config seen found
      → Ensures log seen (IsOwn config) (found_or world config message found)
  found_or-Ensures message none own = raise-Ensures (IsOwn config) (client_error message)
  found_or-Ensures message (some snapshot) own = given-IsOwn snapshot own

  updated_or-Ensures :
      {seen : List Reply}
      → (message : String) (updated : Option Snapshot) → IsOwnOption config seen updated
      → Ensures log seen (IsOwn config) (updated_or world config message updated)
  updated_or-Ensures message none own =
      bind-Ensures (IsOwnOption config) (IsOwn config) (read_status-Ensures world config is_log)
        (λ found now w own'. found_or-Ensures message found own')
  updated_or-Ensures message (some snapshot) own = given-IsOwn snapshot own

  check_deadline-Ensures :
      {seen : List Reply}
      → (progress : Progress) → KeepsOwn config seen progress
      → Ensures log seen (KeepsOwn config) (check_deadline world config progress)
  check_deadline-Ensures {seen} progress own =
      bind-Ensures Trivial (KeepsOwn config) (monotonic_now-Ensures world is_log) (λ time now w t.
        if-Ensures (leb progress.deadline time)
          (λ e.
            raise-Ensures (KeepsOwn config)
              (client_error "refresh run exceeded the bounded wait time"))
          (given_progress progress (later-IsOwn config seen now progress.snapshot w own)))

  -- A snapshot taken over into the progress, before the deadline is checked.
  with_snapshot-Ensures :
      {seen : List Reply}
      → (message : String) (progress : Progress) (updated : Option Snapshot)
      → IsOwnOption config seen updated
      → Ensures log seen (KeepsOwn config) (
          updated_or world config message updated >>= λ snapshot.
          check_deadline world config (with_snapshot progress snapshot))
  with_snapshot-Ensures message progress updated own =
      bind-Ensures (IsOwn config) (KeepsOwn config) (updated_or-Ensures message updated own)
        (λ snapshot now w own'. check_deadline-Ensures (with_snapshot progress snapshot) own')

  finalize_round-Ensures :
      {seen : List Reply}
      → (progress : Progress)
      → Ensures log seen (KeepsOwn config) (finalize_round world config progress)
  finalize_round-Ensures progress =
      bind-Ensures (IsOwnOption config) (KeepsOwn config) (finalize-Ensures world config is_log)
        (λ updated now w own.
          with_snapshot-Ensures "refresh run disappeared during finalization" progress updated own)

  await_due-Ensures :
      {seen : List Reply}
      → (progress : Progress) (delay : ℕ)
      → Ensures log seen (KeepsOwn config) (await_due world config progress delay)
  await_due-Ensures progress delay =
      bind-Ensures Trivial (KeepsOwn config) (sleep_for-Ensures world is_log delay) (λ done now w t.
        bind-Ensures (IsOwnOption config) (KeepsOwn config)
          (read_status-Ensures world config is_log)
          (λ current now' w' own.
            bind-Ensures (IsOwn config) (KeepsOwn config)
              (found_or-Ensures "refresh run disappeared while awaiting provider eligibility"
                current own)
              (λ snapshot later w'' own'.
                given_progress (has_waited progress delay snapshot) own')))

  idle_by_due-Ensures :
      {seen : List Reply}
      → (progress : Progress) (due : Option ℕ) (now monotonic : ℕ)
      → Ensures log seen (KeepsOwn config) (idle_by_due world config progress due now monotonic)
  idle_by_due-Ensures progress none now monotonic = finalize_round-Ensures progress
  idle_by_due-Ensures progress (some due) now monotonic =
      if-Ensures (is_awaitable world config progress due now monotonic)
        (λ e. await_due-Ensures progress (due - now)) (finalize_round-Ensures progress)

  idle_round-Ensures :
      {seen : List Reply}
      → (progress : Progress) (due : Option ℕ)
      → Ensures log seen (KeepsOwn config) (idle_round world config progress due)
  idle_round-Ensures progress due =
      bind-Ensures Trivial (KeepsOwn config) (wall_now-Ensures world is_log) (λ time now w t.
        bind-Ensures Trivial (KeepsOwn config) (monotonic_now-Ensures world is_log)
          (λ monotonic later w' u. idle_by_due-Ensures progress due time monotonic))

  claimed_round-Ensures :
      {seen : List Reply}
      → (progress : Progress) → KeepsOwn config seen progress
      → Ensures log seen (KeepsOwn config) (claimed_round world config progress)
  claimed_round-Ensures {seen} progress own =
      bind-Ensures (KeepsOwn config) (KeepsOwn config) (check_deadline-Ensures progress own)
        (λ checked one w1 t.
          bind-Ensures Trivial (KeepsOwn config) (sleep_for-Ensures world is_log (2 * second))
            (λ done two w2 u.
              bind-Ensures (IsOwnOption config) (KeepsOwn config)
                (read_status-Ensures world config is_log)
                (λ current three w3 v.
                  bind-Ensures (IsOwn config) (KeepsOwn config)
                    (found_or-Ensures "refresh run disappeared while work was claimed" current v)
                    (λ snapshot four w4 x. check_deadline-Ensures progress (
                      later-IsOwn config seen four progress.snapshot
                        (λ reply k. w4 reply (w3 reply (w2 reply (w1 reply k)))) own)))))

  advance_round-Ensures :
      {seen : List Reply}
      → (progress : Progress) (item : WorkItem)
      → Ensures log seen (KeepsOwn config) (advance_round world config progress item)
  advance_round-Ensures progress item =
      bind-Ensures (IsOwnOption config) (KeepsOwn config)
        (post_item-Ensures world config is_log item.item_key)
        (λ updated now w own.
          with_snapshot-Ensures "refresh run disappeared after an uncertain advance" progress
            updated own)

  item_round-Ensures :
      {seen : List Reply}
      → (progress : Progress) (item : WorkItem) (active : Bool) → KeepsOwn config seen progress
      → Ensures log seen (KeepsOwn config) (item_round world config progress item active)
  item_round-Ensures progress item true own = claimed_round-Ensures progress own
  item_round-Ensures progress item false own = advance_round-Ensures progress item

  chosen_round-Ensures :
      {seen : List Reply}
      → (progress : Progress) (item : Option WorkItem) → KeepsOwn config seen progress
      → Ensures log seen (KeepsOwn config) (chosen_round world config progress item)
  chosen_round-Ensures progress none own =
      bind-Ensures Trivial (KeepsOwn config) (any_lift-Ensures (next_due progress.snapshot))
        (λ due now w t. idle_round-Ensures progress due)
  chosen_round-Ensures {seen} progress (some item) own =
      bind-Ensures Trivial (KeepsOwn config) (wall_now-Ensures world is_log) (λ time now w t.
        bind-Ensures Trivial (KeepsOwn config) (any_lift-Ensures (active_claim time item))
          (λ active later w' u. item_round-Ensures progress item active (
            later-IsOwn config seen later progress.snapshot (λ reply k. w' reply (w reply k)) own)))

  round-Ensures :
      {seen : List Reply}
      → (progress : Progress) → KeepsOwn config seen progress
      → Ensures log seen (KeepsOwn config) (round world config progress)
  unfolding round
  round-Ensures {seen} progress own =
      bind-Ensures Trivial (KeepsOwn config) (wall_now-Ensures world is_log) (λ time now w t.
        bind-Ensures Trivial (KeepsOwn config) (any_lift-Ensures (next_item time progress.snapshot))
          (λ item later w' u. chosen_round-Ensures progress item (
            later-IsOwn config seen later progress.snapshot (λ reply k. w' reply (w reply k)) own)))

  given-IsOwnResult :
      (seen : List Reply) (snapshot : Snapshot) (answer : Answer FinalResult)
      → IsOwn config seen snapshot
      → is_terminal snapshot.run.state ≡ true
      → client_result snapshot ≡ answer
      → Satisfies (IsOwnResult config seen) answer
  given-IsOwnResult seen snapshot (fails e) own ended h = tt
  given-IsOwnResult seen snapshot (gives result) (own, received) ended h =
      (snapshot, received, own, ended, h)

  rounds-Ensures :
      {seen : List Reply}
      → (left : ℕ) (progress : Progress) → KeepsOwn config seen progress
      → Ensures log seen (IsOwnResult config) (rounds world config left progress)
  unfolding rounds
  rounds-Ensures zero progress own =
      raise-Ensures (IsOwnResult config)
        (client_error "refresh run exceeded the bounded operation count")
  rounds-Ensures {seen} (suc left) progress own =
      elim (Bool-cases (is_terminal progress.snapshot.run.state)) [
        | inl ended ↦ rw ended (
            lift-Ensures (IsOwnResult config) (client_result progress.snapshot) (λ later more.
              given-IsOwnResult later progress.snapshot (client_result progress.snapshot)
                (later-IsOwn config seen later progress.snapshot more own) ended refl))
        | inr runs ↦ rw runs (
            bind-Ensures (KeepsOwn config) (IsOwnResult config) (round-Ensures progress own)
              (λ next now w own'. rounds-Ensures left next own'))
      ]

-- A result of the client was read from a snapshot that one of the replies received in the run, with the
-- status 200, brought, whatever the server and the network did; the snapshot is of the configured run
-- (its run id, cycle id, force flag and an accepted manifest), which had ended in it, and its final
-- result is not an error. `log` is a record of the replies received.
pub run_resumable_refresh-IsOwnResult :
    {S : Type 0}
    → (world : World S) (log : S → List Reply) (config : ClientConfig) (s : S) → IsLog world log
    → log s ≡ []
    → Satisfies
        (IsOwnResult config (log (run_resumable_refresh world config s).1))
        (run_resumable_refresh world config s).0
unfolding run_resumable_refresh
run_resumable_refresh-IsOwnResult world log config s is_log fresh =
    by_parts.ensured s (λ reply k. subst (IsIn reply) (sym fresh) k)
  where
    by_parts : Ensures log [] (IsOwnResult config) (run_resumable_refresh world config)
    by_parts =
        bind-Ensures Trivial (IsOwnResult config) (monotonic_now-Ensures world is_log)
          (λ started now w t.
            bind-Ensures (IsOwn config) (IsOwnResult config) (start_run-Ensures world config is_log)
              (λ snapshot later w' own.
                rounds-Ensures world config is_log 1000
                  (first_progress world config started snapshot) own))
