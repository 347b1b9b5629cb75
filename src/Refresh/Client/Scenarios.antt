-- ===== src/Refresh/Client/Scenarios.antt =====
-- Runs of the client against scripted servers.
use x_bray.Base.{ℕ, suc, ◌+◌, ◌*◌, ◌≤◌, false, none, some, List, [], ◌∷◌, ◌≡◌, refl}
use x_bray.Refresh.Models.{aware, RefreshRunState, RefreshWorkItemStatus}
use x_bray.Refresh.Client.{
  RefreshStatus, FinalResult, parsed, WorkItem, Snapshot, ClientConfig, gives, fails, http_error,
  Reply, failed, replied, World, second,
}
use x_bray.Refresh.Client.Bounds.{IsMeter}
use x_bray.Refresh.Client.Limits.{run_resumable_refresh-sends_at_most}
use x_bray.Refresh.Client.Origins.{Satisfies, IsLog}
use x_bray.Refresh.Client.Result.{IsOwnResult, run_resumable_refresh-IsOwnResult}
use x_bray.Refresh.Client.Rounds.{run_resumable_refresh}

-- Replies that come in turn and then stop, a clock, and a count of requests.
record Server : Type 0 where
  replies : List Reply
  clock : ℕ
  sent : ℕ
  received : List Reply

abbrev reply_of : List Reply → Reply
reply_of [] = failed
reply_of (reply ∷ replies) = reply

abbrev others_of : List Reply → List Reply
others_of [] = []
others_of (reply ∷ replies) = replies

abbrev scripted : World Server
scripted = record {
  request = λ call server. (
    reply_of server.replies,
    record server {
      replies = others_of server.replies;
      clock = server.clock + second;
      sent = suc server.sent;
      received = reply_of server.replies ∷ server.received;
    },
  );
  wall = λ server. (server.clock, server);
  monotonic = λ server. (server.clock, server);
  sleep = λ microseconds server. record server { clock = server.clock + microseconds };
}

abbrev config : ClientConfig
config = record {
  run_id = "run-1";
  cycle_id = "2026-01-02";
  force = false;
  max_wait_seconds = 7200;
  max_in_run_wait_seconds = 300;
  resume_existing = false;
}

abbrev pending_item : WorkItem
pending_item = record {
  item_key = "001-sgs_ipca";
  task = some "sgs_ipca";
  status = RefreshWorkItemStatus.pending;
  attempt = 0;
  claim_expires_at = none;
  acquisition_attempts = 0;
  next_attempt_at = none;
  error_category = none;
  last_error_category = none;
}

abbrev running : Snapshot
running = record {
  run = record {
    run_id = "run-1";
    cycle_id = "2026-01-02";
    state = RefreshRunState.running;
    force = false;
    manifest_version = "daily-refresh-v6";
    final_result = none;
    next_due_at = none;
    due_work_item_key = none;
  };
  items = pending_item ∷ [];
}

abbrev final : FinalResult
final = record { status = RefreshStatus.ok; tasks = [] }

abbrev succeeded : Snapshot
succeeded = record running {
  run = record (running.run) {
    state = RefreshRunState.succeeded;
    final_result = some (parsed final);
  };
  items = record pending_item { status = RefreshWorkItemStatus.succeeded; attempt = 1 } ∷ [];
}

-- The start is answered, the advance fails on the network, and the status shows the end of the run.
abbrev server : Server
server = record {
  replies = replied 200 (some running) ∷ failed ∷ replied 200 (some succeeded) ∷ [];
  clock = 0;
  sent = 0;
  received = [];
}

refresh_succeeds : (run_resumable_refresh scripted config server).0 ≡ gives final
unfolding run_resumable_refresh
refresh_succeeds = refl

-- The item is claimed by another worker for some seconds.
abbrev claimed : Snapshot
claimed = record running {
  items =
      record pending_item {
        status = RefreshWorkItemStatus.claimed;
        attempt = 1;
        claim_expires_at = some (aware (3 * second));
      }
      ∷ [];
}

abbrev claimed_server : Server
claimed_server = record {
  replies = replied 200 (some claimed) ∷ replied 200 (some succeeded) ∷ replied 403 none ∷ [];
  clock = 0;
  sent = 0;
  received = [];
}

-- The status that is read while the item is claimed shows a run that has ended; once the claim has
-- expired the client advances the item all the same, and fails.
claimed_run_is_advanced :
    (run_resumable_refresh scripted config claimed_server).0
    ≡ fails (http_error "refresh item advance" 403)
unfolding run_resumable_refresh
claimed_run_is_advanced = refl

sent-IsMeter : IsMeter scripted (λ server. server.sent)
sent-IsMeter = record {
  request = λ call server. refl;
  wall = λ server. refl;
  monotonic = λ server. refl;
  sleep = λ microseconds server. refl;
}

run_resumable_refresh-sends_at_most_example :
    (run_resumable_refresh scripted config server).1.sent ≤ 7011 + 0
run_resumable_refresh-sends_at_most_example =
    run_resumable_refresh-sends_at_most scripted config (λ server. server.sent) server sent-IsMeter

received-IsLog : IsLog scripted (λ server. server.received)
received-IsLog = record {
  request = λ call s. refl;
  wall = λ s. refl;
  monotonic = λ s. refl;
  sleep = λ microseconds s. refl;
}

run_resumable_refresh-IsOwnResult_example :
    Satisfies
      (IsOwnResult config (run_resumable_refresh scripted config server).1.received)
      (run_resumable_refresh scripted config server).0
run_resumable_refresh-IsOwnResult_example =
    run_resumable_refresh-IsOwnResult scripted (λ server. server.received) config server
      received-IsLog refl
