-- ===== src/Refresh/Client/Bounds.antt =====
-- How many requests the client of a run sends.
use x_bray.Base.{
  ℕ, zero, suc, ◌+◌, ◌*◌, ◌≤◌, String, Bool, true, false, Option, none, some, ◌≡◌, arith, nat_eq,
  if◌then◌else◌,
}
use x_bray.Refresh.Client.{
  Snapshot, ClientConfig, ClientError, client_error, http_error, Answer, fails, gives, Call,
  get_run, post_run, post_finalize, post_advance, Reply, failed, replied, World, Action, answered,
  ◌>>=◌, give, raise, lift, send, wall_now, monotonic_now, sleep_for, second,
}
use x_bray.Refresh.Client.Requests.{
  is_refused, is_rejected, read_attempts, read_status, start_attempts, start_run, post_item,
  finalize, status_reply, start_reply, item_reply, finalize_reply, or_else, own_found,
  refused_start, resumed,
}

-- A count of the requests that a world has been sent: one more for each, and the same after anything
-- else.
pub record IsMeter {S : Type 0} (world : World S) (sent : S → ℕ) : Type 0 where
  pub request : (call : Call) (s : S) → sent (world.request call s).1 ≡ suc (sent s)
  pub wall : (s : S) → sent (world.wall s).1 ≡ sent s
  pub monotonic : (s : S) → sent (world.monotonic s).1 ≡ sent s
  pub sleep : (microseconds : ℕ) (s : S) → sent (world.sleep microseconds s) ≡ sent s

-- The action sends no more than `n` requests, from any state.
pub record SendsAtMost {S A : Type 0} (sent : S → ℕ) (n : ℕ) (m : Action S A) : Type 0 where
  pub bound : (s : S) → sent (m s).1 ≤ n + sent s

module _ {S : Type 0} {sent : S → ℕ} where
  pub give-bound : {A : Type 0} {n : ℕ} {a : A} → SendsAtMost sent n (give a)
  give-bound = record { bound = λ s. omega arith }

  pub raise-bound : {A : Type 0} {n : ℕ} (e : ClientError) → SendsAtMost {A = A} sent n (raise e)
  raise-bound e = record { bound = λ s. omega arith }

  pub lift-bound : {A : Type 0} {n : ℕ} {answer : Answer A} → SendsAtMost sent n (lift answer)
  lift-bound = record { bound = λ s. omega arith }

  answered-sent :
      {A B : Type 0} (n : ℕ) (result : Answer A × S) (next : A → Action S B)
      → ((a : A) → SendsAtMost sent n (next a))
      → sent (answered result next).1 ≤ n + sent result.1
  answered-sent n (fails e, s) next h = omega arith
  answered-sent n (gives a, s) next h = (h a).bound s

  pub bind-bound :
      {A B : Type 0} (n k : ℕ) {m : Action S A} {next : A → Action S B}
      → SendsAtMost sent n m
      → ((a : A) → SendsAtMost sent k (next a))
      → SendsAtMost sent (k + n) (m >>= next)
  unfolding ◌>>=◌
  bind-bound n k {m} {next} h g = record {
    bound = λ s. omega (arith, answered-sent k (m s) next g, h.bound s);
  }

  pub weaken-bound :
      {A : Type 0} (n k : ℕ) {m : Action S A} → n ≤ k → SendsAtMost sent n m → SendsAtMost sent k m
  weaken-bound n k below h = record { bound = λ s. omega (arith, h.bound s, below) }

  pub if-bound :
      {A : Type 0} {n : ℕ} (test : Bool) {m other : Action S A}
      → SendsAtMost sent n m
      → SendsAtMost sent n other
      → SendsAtMost sent n (if test then m else other)
  if-bound true h g = h
  if-bound false h g = g

module _ {S : Type 0} (world : World S) (config : ClientConfig) (sent : S → ℕ)
    (meter : IsMeter world sent) where
  pub send-bound : (call : Call) → SendsAtMost sent 1 (send world call)
  unfolding send
  send-bound call = record { bound = λ s. omega (arith, meter.request call s) }

  pub wall-bound : SendsAtMost sent 0 (wall_now world)
  unfolding wall_now
  wall-bound = record { bound = λ s. omega (arith, meter.wall s) }

  pub monotonic-bound : SendsAtMost sent 0 (monotonic_now world)
  unfolding monotonic_now
  monotonic-bound = record { bound = λ s. omega (arith, meter.monotonic s) }

  pub sleep-bound : (delay : ℕ) → SendsAtMost sent 0 (sleep_for world delay)
  unfolding sleep_for
  sleep-bound delay = record { bound = λ s. omega (arith, meter.sleep delay s) }

  pub own_found-bound :
      (payload : Option Snapshot) → SendsAtMost sent 0 (own_found world config payload)
  own_found-bound payload = bind-bound 0 0 lift-bound (λ snapshot. give-bound)

  pub status_reply-bound :
      (n : ℕ) (reply : Reply) {again : Action S (Option Snapshot)}
      → SendsAtMost sent n again
      → SendsAtMost sent n (status_reply world config reply again)
  status_reply-bound n failed h = h
  status_reply-bound n (replied status payload) h = if-bound (nat_eq status 404) give-bound (
      if-bound (nat_eq status 200) (weaken-bound 0 n (omega arith) (own_found-bound payload))
        (if-bound (is_refused status) (raise-bound (http_error "refresh run status" status)) h))

  pub read_attempts-bound :
      (attempt rest : ℕ) → SendsAtMost sent (rest + 1) (read_attempts world config attempt rest)
  unfolding read_attempts
  read_attempts-bound attempt zero = bind-bound 1 0 (send-bound get_run) (λ reply.
      status_reply-bound 0 reply
        (raise-bound (client_error "refresh run status could not reconcile the request")))
  read_attempts-bound attempt (suc rest) =
      weaken-bound (rest + 1 + 0 + 1) (suc rest + 1) (omega arith) (
        bind-bound 1 (rest + 1 + 0) (send-bound get_run) (λ reply.
          status_reply-bound (rest + 1 + 0) reply (
            bind-bound 0 (rest + 1) (sleep-bound (suc attempt * second))
              (λ done. read_attempts-bound (suc attempt) rest))))

  pub read_status-bound : SendsAtMost sent 3 (read_status world config)
  unfolding read_status
  read_status-bound = read_attempts-bound 0 2

  pub or_else-bound :
      (n : ℕ) (found : Option Snapshot) {again : Action S Snapshot}
      → SendsAtMost sent n again
      → SendsAtMost sent n (or_else world config found again)
  or_else-bound n none h = h
  or_else-bound n (some snapshot) h = give-bound

  pub refused_start-bound :
      (n status : ℕ) → SendsAtMost sent (n + 3) (refused_start world config status)
  refused_start-bound n status =
      if-bound (nat_eq status 409)
        (bind-bound 3 n read_status-bound
          (λ found. or_else-bound n found (raise-bound (http_error "refresh run start" status))))
        (raise-bound (http_error "refresh run start" status))

  pub start_reply-bound :
      (n : ℕ) (reply : Reply) {again : Action S Snapshot}
      → SendsAtMost sent n again
      → SendsAtMost sent (n + 3) (start_reply world config reply again)
  start_reply-bound n failed h = bind-bound 3 n read_status-bound (λ found. or_else-bound n found h)
  start_reply-bound n (replied status payload) h = if-bound (nat_eq status 200) lift-bound (
      if-bound (is_refused status) (refused_start-bound n status)
        (bind-bound 3 n read_status-bound (λ found. or_else-bound n found h)))

  pub start_attempts-bound : SendsAtMost sent 8 (start_attempts world config 1)
  unfolding start_attempts
  start_attempts-bound = bind-bound 1 7 (send-bound post_run) (λ reply. start_reply-bound 4 reply (
      bind-bound 1 3 (send-bound post_run) (λ reply'.
        start_reply-bound 0 reply'
          (raise-bound (client_error "refresh run start outcome could not be reconciled")))))

  pub resumed-bound : (found : Option Snapshot) → SendsAtMost sent 8 (resumed world config found)
  resumed-bound none =
      raise-bound
        (client_error "requested refresh run does not exist; refusing to create a new run")
  resumed-bound (some snapshot) = start_attempts-bound

  pub start_run-bound : SendsAtMost sent 11 (start_run world config)
  unfolding start_run
  start_run-bound =
      if-bound config.resume_existing
        (bind-bound 3 8 read_status-bound (λ found. resumed-bound found))
        (weaken-bound 8 11 (omega arith) start_attempts-bound)

  pub item_reply-bound : (reply : Reply) → SendsAtMost sent 3 (item_reply world config reply)
  item_reply-bound failed = read_status-bound
  item_reply-bound (replied status payload) =
      if-bound (nat_eq status 200) (weaken-bound 0 3 (omega arith) (own_found-bound payload)) (
        if-bound (nat_eq status 409) read_status-bound (
          if-bound (is_rejected status) (raise-bound (http_error "refresh item advance" status))
            read_status-bound))

  pub finalize_reply-bound :
      (reply : Reply) → SendsAtMost sent 3 (finalize_reply world config reply)
  finalize_reply-bound failed = read_status-bound
  finalize_reply-bound (replied status payload) =
      if-bound (nat_eq status 200) (weaken-bound 0 3 (omega arith) (own_found-bound payload)) (
        if-bound (is_rejected status) (raise-bound (http_error "refresh run finalization" status))
          read_status-bound)

  pub post_item-bound : (item_key : String) → SendsAtMost sent 4 (post_item world config item_key)
  unfolding post_item
  post_item-bound item_key =
      bind-bound 1 3 (send-bound (post_advance item_key)) (λ reply. item_reply-bound reply)

  pub finalize-bound : SendsAtMost sent 4 (finalize world config)
  unfolding finalize
  finalize-bound = bind-bound 1 3 (send-bound post_finalize) (λ reply. finalize_reply-bound reply)
