-- ===== src/Refresh/Client/Origins.antt =====
-- What the requests of the client give: snapshots of the configured run.
use x_bray.Base.{
  List, ◌∷◌, refl, sym, subst, arith, ℕ, zero, suc, ◌*◌, String, Bool, true, false, Option, none,
  some, ◌≡◌, nat_eq, if◌then◌else◌, Bool-cases, inl, inr,
}
use x_bray.Refresh.Client.{
  Snapshot, ClientConfig, ClientError, client_error, http_error, Answer, fails, gives, get_run,
  post_run, post_finalize, post_advance, Call, Reply, failed, replied, World, Action, answered,
  ◌>>=◌, give, raise, lift, send, wall_now, monotonic_now, sleep_for, second, is_own,
  checked_snapshot,
}
use x_bray.Refresh.Client.Requests.{
  is_refused, is_rejected, read_attempts, read_status, start_attempts, start_run, post_item,
  finalize, status_reply, start_reply, item_reply, finalize_reply, or_else, own_found, own_snapshot,
  refused_start, resumed,
}
use x_bray.Refresh.Client.Rounds.{Progress}

-- A given value has the property; a failure says nothing.
abbrev pub Satisfies : {A : Type 0} → (A → Type 0) → Answer A → Type 0
Satisfies P (fails e) = Unit {0}
Satisfies P (gives a) = P a

-- The reply is one of those received.
pub data IsIn (reply : Reply) : List Reply → Type 0 where
  newest : (replies : List Reply) → IsIn reply (reply ∷ replies)
  older : (other : Reply) (replies : List Reply) → IsIn reply replies → IsIn reply (other ∷ replies)

abbrev pub Within : List Reply → List Reply → Type 0
Within replies others = (reply : Reply) → IsIn reply replies → IsIn reply others

-- A record of the replies that a world has given: one more for each request, and the same after
-- anything else.
pub record IsLog {S : Type 0} (world : World S) (log : S → List Reply) : Type 0 where
  pub request :
      (call : Call) (s : S) → log (world.request call s).1 ≡ (world.request call s).0 ∷ log s
  pub wall : (s : S) → log (world.wall s).1 ≡ log s
  pub monotonic : (s : S) → log (world.monotonic s).1 ≡ log s
  pub sleep : (microseconds : ℕ) (s : S) → log (world.sleep microseconds s) ≡ log s

-- From a state in which the replies `seen` have been received, the action only adds to the replies, and a
-- value that it gives has the property with the replies received then.
pub record Ensures {S A : Type 0} (log : S → List Reply) (seen : List Reply)
    (P : List Reply → A → Type 0) (m : Action S A) : Type 0 where
  pub grows : (s : S) → Within seen (log s) → Within (log s) (log (m s).1)
  pub ensured : (s : S) → Within seen (log s) → Satisfies (P (log (m s).1)) (m s).0

abbrev pub Trivial : {A : Type 0} → List Reply → A → Type 0
Trivial seen a = Unit {0}

-- The reply has been received.
abbrev pub Received : List Reply → Reply → Type 0
Received seen reply = IsIn reply seen

trivially : {A : Type 0} (seen : List Reply) (answer : Answer A) → Satisfies (Trivial seen) answer
trivially seen (fails e) = tt
trivially seen (gives a) = tt

module _ {S : Type 0} {log : S → List Reply} where
  answered-grows :
      {A B : Type 0} (P : List Reply → A → Type 0) (Q : List Reply → B → Type 0)
      (result : Answer A × S) (next : A → Action S B)
      → Satisfies (P (log result.1)) result.0
      → ((a : A) → P (log result.1) a → Ensures log (log result.1) Q (next a))
      → Within (log result.1) (log (answered result next).1)
  answered-grows P Q (fails e, s) next p h reply k = k
  answered-grows P Q (gives a, s) next p h reply k = (h a p).grows s (λ other m. m) reply k

  answered-Ensures :
      {A B : Type 0} (P : List Reply → A → Type 0) (Q : List Reply → B → Type 0)
      (result : Answer A × S) (next : A → Action S B)
      → Satisfies (P (log result.1)) result.0
      → ((a : A) → P (log result.1) a → Ensures log (log result.1) Q (next a))
      → Satisfies (Q (log (answered result next).1)) (answered result next).0
  answered-Ensures P Q (fails e, s) next p h = tt
  answered-Ensures P Q (gives a, s) next p h = (h a p).ensured s (λ other m. m)

module _ {S : Type 0} {log : S → List Reply} {seen : List Reply} where
  -- An action after which the record is the same.
  quiet-Ensures :
      {A : Type 0} (m : Action S A) → ((s : S) → log (m s).1 ≡ log s) → Ensures log seen Trivial m
  quiet-Ensures m same = record {
    grows = λ s within reply k. subst (IsIn reply) (sym (same s)) k;
    ensured = λ s within. trivially (log (m s).1) (m s).0;
  }

  pub give-Ensures :
      {A : Type 0} (P : List Reply → A → Type 0) (a : A)
      → ((later : List Reply) → Within seen later → P later a)
      → Ensures log seen P (give a)
  give-Ensures P a p = record {
    grows = λ s within reply k. k;
    ensured = λ s within. p (log s) within;
  }

  pub raise-Ensures :
      {A : Type 0} (P : List Reply → A → Type 0) (e : ClientError) → Ensures log seen P (raise e)
  raise-Ensures P e = record { grows = λ s within reply k. k; ensured = λ s within. tt }

  pub lift-Ensures :
      {A : Type 0} (P : List Reply → A → Type 0) (answer : Answer A)
      → ((later : List Reply) → Within seen later → Satisfies (P later) answer)
      → Ensures log seen P (lift answer)
  lift-Ensures P answer h = record {
    grows = λ s within reply k. k;
    ensured = λ s within. h (log s) within;
  }

  pub any_lift-Ensures : {A : Type 0} (answer : Answer A) → Ensures log seen Trivial (lift answer)
  any_lift-Ensures answer = lift-Ensures Trivial answer (λ later within. trivially later answer)

  pub weaken-Ensures :
      {A : Type 0} {P : List Reply → A → Type 0} {m : Action S A} (later : List Reply)
      → Within seen later
      → Ensures log seen P m
      → Ensures log later P m
  weaken-Ensures later more h = record {
    grows = λ s within. h.grows s (λ reply k. within reply (more reply k));
    ensured = λ s within. h.ensured s (λ reply k. within reply (more reply k));
  }

  -- What comes next starts from more replies.
  pub bind-Ensures :
      {A B : Type 0} (P : List Reply → A → Type 0) (Q : List Reply → B → Type 0) {m : Action S A}
      {next : A → Action S B}
      → Ensures log seen P m
      → ((a : A) (later : List Reply)
          → Within seen later
          → P later a
          → Ensures log later Q (next a))
      → Ensures log seen Q (m >>= next)
  unfolding ◌>>=◌
  bind-Ensures P Q {m} {next} h g = record {
    grows = λ s within reply k.
        answered-grows P Q (m s) next (h.ensured s within)
          (λ a p. g a (log (m s).1) (λ other n. h.grows s within other (within other n)) p) reply
          (h.grows s within reply k);
    ensured = λ s within.
        answered-Ensures P Q (m s) next (h.ensured s within)
          (λ a p. g a (log (m s).1) (λ other n. h.grows s within other (within other n)) p);
  }

  -- A branch knows the value of its test.
  pub if-Ensures :
      {A : Type 0} {P : List Reply → A → Type 0} (test : Bool) {m other : Action S A}
      → (test ≡ true → Ensures log seen P m)
      → Ensures log seen P other
      → Ensures log seen P (if test then m else other)
  if-Ensures true h g = h refl
  if-Ensures false h g = g

module _ {S : Type 0} {log : S → List Reply} (world : World S) (is_log : IsLog world log) where
  pub send-Ensures :
      {seen : List Reply} → (call : Call) → Ensures log seen Received (send world call)
  unfolding send
  send-Ensures call = record {
    grows = λ s within reply k.
        subst (IsIn reply) (sym (is_log.request call s)) (older (world.request call s).0 (log s) k);
    ensured = λ s within.
        subst (IsIn (world.request call s).0) (sym (is_log.request call s)) (newest (log s));
  }

  pub wall_now-Ensures : {seen : List Reply} → Ensures log seen Trivial (wall_now world)
  unfolding wall_now
  wall_now-Ensures = quiet-Ensures (wall_now world) is_log.wall

  pub monotonic_now-Ensures : {seen : List Reply} → Ensures log seen Trivial (monotonic_now world)
  unfolding monotonic_now
  monotonic_now-Ensures = quiet-Ensures (monotonic_now world) is_log.monotonic

  pub sleep_for-Ensures :
      {seen : List Reply}
      → (microseconds : ℕ) → Ensures log seen Trivial (sleep_for world microseconds)
  unfolding sleep_for
  sleep_for-Ensures microseconds =
      quiet-Ensures (sleep_for world microseconds) (is_log.sleep microseconds)

-- A snapshot of the configured run that a reply with the status 200 brought, where there is one, and
-- progress that keeps one.
abbrev pub IsOwn : ClientConfig → List Reply → Snapshot → Type 0
IsOwn config seen snapshot =
    (is_own config snapshot ≡ true) × Received seen (replied 200 (some snapshot))

abbrev pub IsOwnOption : ClientConfig → List Reply → Option Snapshot → Type 0
IsOwnOption config seen none = Unit {0}
IsOwnOption config seen (some snapshot) = IsOwn config seen snapshot

abbrev pub KeepsOwn : ClientConfig → List Reply → Progress → Type 0
KeepsOwn config seen progress = IsOwn config seen progress.snapshot

pub later-IsOwn :
    (config : ClientConfig) (seen later : List Reply) (snapshot : Snapshot)
    → Within seen later
    → IsOwn config seen snapshot
    → IsOwn config later snapshot
later-IsOwn config seen later snapshot within (own, received) =
    (own, within (replied 200 (some snapshot)) received)

module _ {S : Type 0} {log : S → List Reply} (world : World S) (config : ClientConfig)
    (is_log : IsLog world log) where
  checked_snapshot-IsOwn :
      (seen : List Reply) (payload : Option Snapshot)
      → Received seen (replied 200 payload)
      → Satisfies (IsOwn config seen) (checked_snapshot config payload)
  unfolding checked_snapshot
  checked_snapshot-IsOwn seen none received = tt
  checked_snapshot-IsOwn seen (some snapshot) received =
      elim (Bool-cases (is_own config snapshot)) [
        | inl own ↦ rw own (own, received)
        | inr other ↦ rw other tt
      ]

  own_snapshot-Ensures :
      {seen : List Reply}
      → (status : ℕ) (payload : Option Snapshot) → Received seen (replied status payload)
      → nat_eq status 200 ≡ true
      → Ensures log seen (IsOwn config) (own_snapshot world config payload)
  own_snapshot-Ensures {seen} status payload received ok =
      let same : status ≡ 200 = ground (arith, ok) in
      let given : Received seen (replied 200 payload) =
        subst (λ n. Received seen (replied n payload)) same received in
      lift-Ensures (IsOwn config) (checked_snapshot config payload)
        (λ later within. checked_snapshot-IsOwn later payload (within (replied 200 payload) given))

  own_found-Ensures :
      {seen : List Reply}
      → (status : ℕ) (payload : Option Snapshot) → Received seen (replied status payload)
      → nat_eq status 200 ≡ true
      → Ensures log seen (IsOwnOption config) (own_found world config payload)
  own_found-Ensures status payload received ok =
      bind-Ensures (IsOwn config) (IsOwnOption config)
        (own_snapshot-Ensures status payload received ok)
        (λ snapshot now w own. given_option now snapshot own)
    where
      given_option :
          (now : List Reply) (snapshot : Snapshot)
          → IsOwn config now snapshot
          → Ensures log now (IsOwnOption config) (give (some snapshot))
      given_option now snapshot own =
          give-Ensures (IsOwnOption config) (some snapshot)
            (λ later more. later-IsOwn config now later snapshot more own)

  status_reply-Ensures :
      {seen : List Reply}
      → (reply : Reply) {again : Action S (Option Snapshot)} → Received seen reply
      → Ensures log seen (IsOwnOption config) again
      → Ensures log seen (IsOwnOption config) (status_reply world config reply again)
  status_reply-Ensures failed received h = h
  status_reply-Ensures (replied status payload) received h =
      if-Ensures (nat_eq status 404)
        (λ e. give-Ensures (IsOwnOption config) none (λ later more. tt))
        (if-Ensures (nat_eq status 200) (own_found-Ensures status payload received) (
          if-Ensures (is_refused status)
            (λ e. raise-Ensures (IsOwnOption config) (http_error "refresh run status" status)) h))

  read_attempts-Ensures :
      {seen : List Reply}
      → (attempt rest : ℕ)
      → Ensures log seen (IsOwnOption config) (read_attempts world config attempt rest)
  unfolding read_attempts
  read_attempts-Ensures attempt zero =
      bind-Ensures Received (IsOwnOption config) (send-Ensures world is_log get_run)
        (λ reply now w received. status_reply-Ensures reply received (
          raise-Ensures (IsOwnOption config)
            (client_error "refresh run status could not reconcile the request")))
  read_attempts-Ensures attempt (suc rest) =
      bind-Ensures Received (IsOwnOption config) (send-Ensures world is_log get_run)
        (λ reply now w received. status_reply-Ensures reply received (
          bind-Ensures Trivial (IsOwnOption config)
            (sleep_for-Ensures world is_log (suc attempt * second))
            (λ done later more u. read_attempts-Ensures (suc attempt) rest)))

  pub read_status-Ensures :
      {seen : List Reply} → Ensures log seen (IsOwnOption config) (read_status world config)
  unfolding read_status
  read_status-Ensures = read_attempts-Ensures 0 2

  or_else-Ensures :
      {seen : List Reply}
      → (found : Option Snapshot) {again : Action S Snapshot} → IsOwnOption config seen found
      → Ensures log seen (IsOwn config) again
      → Ensures log seen (IsOwn config) (or_else world config found again)
  or_else-Ensures none own h = h
  or_else-Ensures {seen} (some snapshot) own h =
      give-Ensures (IsOwn config) snapshot
        (λ later more. later-IsOwn config seen later snapshot more own)

  -- The status of the run, or else what comes next.
  found_or_else-Ensures :
      {seen : List Reply}
      → {again : Action S Snapshot} → Ensures log seen (IsOwn config) again
      → Ensures log seen
          (IsOwn config)
          (read_status world config >>= λ found. or_else world config found again)
  found_or_else-Ensures h =
      bind-Ensures (IsOwnOption config) (IsOwn config) read_status-Ensures
        (λ found now w own. or_else-Ensures found own (weaken-Ensures now w h))

  refused_start-Ensures :
      {seen : List Reply}
      → (status : ℕ) → Ensures log seen (IsOwn config) (refused_start world config status)
  refused_start-Ensures status =
      if-Ensures (nat_eq status 409)
        (λ e.
          found_or_else-Ensures
            (raise-Ensures (IsOwn config) (http_error "refresh run start" status)))
        (raise-Ensures (IsOwn config) (http_error "refresh run start" status))

  start_reply-Ensures :
      {seen : List Reply}
      → (reply : Reply) {again : Action S Snapshot} → Received seen reply
      → Ensures log seen (IsOwn config) again
      → Ensures log seen (IsOwn config) (start_reply world config reply again)
  start_reply-Ensures failed received h = found_or_else-Ensures h
  start_reply-Ensures (replied status payload) received h =
      if-Ensures (nat_eq status 200) (own_snapshot-Ensures status payload received) (
        if-Ensures (is_refused status) (λ e. refused_start-Ensures status)
          (found_or_else-Ensures h))

  start_attempts-Ensures :
      {seen : List Reply}
      → (rest : ℕ) → Ensures log seen (IsOwn config) (start_attempts world config rest)
  unfolding start_attempts
  start_attempts-Ensures zero =
      bind-Ensures Received (IsOwn config) (send-Ensures world is_log post_run)
        (λ reply now w received. start_reply-Ensures reply received (
          raise-Ensures (IsOwn config)
            (client_error "refresh run start outcome could not be reconciled")))
  start_attempts-Ensures (suc rest) =
      bind-Ensures Received (IsOwn config) (send-Ensures world is_log post_run)
        (λ reply now w received. start_reply-Ensures reply received (start_attempts-Ensures rest))

  resumed-Ensures :
      {seen : List Reply}
      → (found : Option Snapshot) → Ensures log seen (IsOwn config) (resumed world config found)
  resumed-Ensures none =
      raise-Ensures (IsOwn config)
        (client_error "requested refresh run does not exist; refusing to create a new run")
  resumed-Ensures (some snapshot) = start_attempts-Ensures 1

  pub start_run-Ensures :
      {seen : List Reply} → Ensures log seen (IsOwn config) (start_run world config)
  unfolding start_run
  start_run-Ensures =
      if-Ensures config.resume_existing
        (λ e.
          bind-Ensures (IsOwnOption config) (IsOwn config) read_status-Ensures
            (λ found now w own. resumed-Ensures found))
        (start_attempts-Ensures 1)

  item_reply-Ensures :
      {seen : List Reply}
      → (reply : Reply) → Received seen reply
      → Ensures log seen (IsOwnOption config) (item_reply world config reply)
  item_reply-Ensures failed received = read_status-Ensures
  item_reply-Ensures (replied status payload) received =
      if-Ensures (nat_eq status 200) (own_found-Ensures status payload received) (
        if-Ensures (nat_eq status 409) (λ e. read_status-Ensures)
          (if-Ensures (is_rejected status)
            (λ e. raise-Ensures (IsOwnOption config) (http_error "refresh item advance" status))
            read_status-Ensures))

  finalize_reply-Ensures :
      {seen : List Reply}
      → (reply : Reply) → Received seen reply
      → Ensures log seen (IsOwnOption config) (finalize_reply world config reply)
  finalize_reply-Ensures failed received = read_status-Ensures
  finalize_reply-Ensures (replied status payload) received =
      if-Ensures (nat_eq status 200) (own_found-Ensures status payload received) (
        if-Ensures (is_rejected status)
          (λ e. raise-Ensures (IsOwnOption config) (http_error "refresh run finalization" status))
          read_status-Ensures)

  pub post_item-Ensures :
      {seen : List Reply}
      → (item_key : String)
      → Ensures log seen (IsOwnOption config) (post_item world config item_key)
  unfolding post_item
  post_item-Ensures item_key =
      bind-Ensures Received (IsOwnOption config) (send-Ensures world is_log (post_advance item_key))
        (λ reply now w received. item_reply-Ensures reply received)

  pub finalize-Ensures :
      {seen : List Reply} → Ensures log seen (IsOwnOption config) (finalize world config)
  unfolding finalize
  finalize-Ensures =
      bind-Ensures Received (IsOwnOption config) (send-Ensures world is_log post_finalize)
        (λ reply now w received. finalize_reply-Ensures reply received)
