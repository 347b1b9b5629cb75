-- ===== src/Refresh/Client/Requests.antt =====
-- The requests of backend/refresh_run_client.py: `_read_status`, `_start_run`, `_post_item` and
-- `_post_finalize`.
use x_bray.Base.{ℕ, zero, suc, ◌*◌, String, Bool, Option, none, some, ◌||◌, nat_eq, if◌then◌else◌}
use x_bray.Refresh.Client.{
  Snapshot, ClientConfig, client_error, http_error, get_run, post_run, post_finalize, post_advance,
  Reply, failed, replied, World, Action, ◌>>=◌, give, raise, lift, send, sleep_for, second,
  checked_snapshot,
}

-- `status in (401, 403, 409, 422, 503)`
abbrev pub is_refused : ℕ → Bool
is_refused status =
    nat_eq status 401
    || nat_eq status 403
    || nat_eq status 409
    || nat_eq status 422
    || nat_eq status 503

-- `status in (401, 403, 404, 422, 503)`
abbrev pub is_rejected : ℕ → Bool
is_rejected status =
    nat_eq status 401
    || nat_eq status 403
    || nat_eq status 404
    || nat_eq status 422
    || nat_eq status 503

module _ {S : Type 0} (world : World S) (config : ClientConfig) where
  abbrev pub own_snapshot : Option Snapshot → Action S Snapshot
  own_snapshot payload = lift (checked_snapshot config payload)

  abbrev pub own_found : Option Snapshot → Action S (Option Snapshot)
  own_found payload = own_snapshot payload >>= λ snapshot. give (some snapshot)

  -- One reply of the status route; `again` is the rest of the loop.
  abbrev pub status_reply : Reply → Action S (Option Snapshot) → Action S (Option Snapshot)
  status_reply failed again = again
  status_reply (replied status payload) again =
      if nat_eq status 404
      then give none
      else if nat_eq status 200
      then own_found payload
      else if is_refused status
      then raise (http_error "refresh run status" status)
      else again

  -- `for attempt in range(3)`: `rest` attempts are left after this one.
  unfoldable pub read_attempts : ℕ → ℕ → Action S (Option Snapshot)
  unfolding send sleep_for checked_snapshot ◌>>=◌
  read_attempts attempt zero = send world get_run >>= λ reply.
      status_reply reply (raise (client_error "refresh run status could not reconcile the request"))
  read_attempts attempt (suc rest) = send world get_run >>= λ reply.
      status_reply reply
        (sleep_for world (suc attempt * second) >>= λ done. read_attempts (suc attempt) rest)

  unfoldable pub read_status : Action S (Option Snapshot)
  unfolding read_attempts
  read_status = read_attempts 0 2

  abbrev pub or_else : Option Snapshot → Action S Snapshot → Action S Snapshot
  or_else none again = again
  or_else (some snapshot) again = give snapshot

  abbrev pub start_refusal : ℕ → Action S Snapshot
  start_refusal status = raise (http_error "refresh run start" status)

  -- After a 409 the run may exist all the same.
  abbrev pub conflicted_start : ℕ → Action S Snapshot
  conflicted_start status = read_status >>= λ found. or_else found (start_refusal status)

  abbrev pub refused_start : ℕ → Action S Snapshot
  refused_start status = if nat_eq status 409 then conflicted_start status else start_refusal status

  abbrev pub start_reply : Reply → Action S Snapshot → Action S Snapshot
  start_reply failed again = read_status >>= λ found. or_else found again
  start_reply (replied status payload) again =
      if nat_eq status 200
      then own_snapshot payload
      else if is_refused status
      then refused_start status
      else read_status >>= λ found. or_else found again

  abbrev pub unreconciled : Action S Snapshot
  unreconciled = raise (client_error "refresh run start outcome could not be reconciled")

  -- `for attempt in range(2)`
  unfoldable pub start_attempts : ℕ → Action S Snapshot
  unfolding send read_status checked_snapshot ◌>>=◌
  start_attempts zero = send world post_run >>= λ reply. start_reply reply unreconciled
  start_attempts (suc rest) =
      send world post_run >>= λ reply. start_reply reply (start_attempts rest)

  abbrev pub resumed : Option Snapshot → Action S Snapshot
  resumed none =
      raise (client_error "requested refresh run does not exist; refusing to create a new run")
  resumed (some snapshot) = start_attempts 1

  unfoldable pub start_run : Action S Snapshot
  unfolding start_attempts read_status ◌>>=◌
  start_run =
      if config.resume_existing then read_status >>= (λ found. resumed found) else start_attempts 1

  abbrev pub item_reply : Reply → Action S (Option Snapshot)
  item_reply failed = read_status
  item_reply (replied status payload) =
      if nat_eq status 200
      then own_found payload
      else if nat_eq status 409
      then read_status
      else if is_rejected status
      then raise (http_error "refresh item advance" status)
      else read_status

  unfoldable pub post_item : String → Action S (Option Snapshot)
  unfolding send read_status checked_snapshot ◌>>=◌
  post_item item_key = send world (post_advance item_key) >>= λ reply. item_reply reply

  abbrev pub finalize_reply : Reply → Action S (Option Snapshot)
  finalize_reply failed = read_status
  finalize_reply (replied status payload) =
      if nat_eq status 200
      then own_found payload
      else if is_rejected status
      then raise (http_error "refresh run finalization" status)
      else read_status

  unfoldable pub finalize : Action S (Option Snapshot)
  unfolding send read_status checked_snapshot ◌>>=◌
  finalize = send world post_finalize >>= λ reply. finalize_reply reply
