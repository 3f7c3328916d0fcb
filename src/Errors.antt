-- ===== src/Errors.antt =====
-- The errors of cork that its own code tells apart (errors.go; the `Err…` values of workers.go,
-- launch.go and buildplane.go). A formatted error that wraps one of these values is the value: only
-- `errors.Is` and `errors.As` read it, and no message text is modelled. An error of the docker
-- client is what the tests of the code report of it.
use challenge_orchestrator.Common.{String, Bool, true, false, ◌||◌}

pub record CallError : Type 0 where
  pub deadline : Bool
  pub conn_failed : Bool
  pub is_net : Bool
  pub is_url : Bool
  pub is_not_found : Bool
  pub is_conflict : Bool

pub data Err : Type 0 where
  all_workers_overloaded all_workers_unresponsive all_workers_down no_workers : Err
  worker_busy worker_unreachable pull_timeout : Err
  unknown_identifier : String → String → Err
  call : CallError → Err
  other : Err

-- errors.Is(err, context.DeadlineExceeded)
unfoldable pub is_deadline : Err → Bool
is_deadline (call e) = e.deadline
is_deadline _ = false

unfoldable pub is_not_found : Err → Bool
is_not_found (call e) = e.is_not_found
is_not_found _ = false

unfoldable pub is_conflict : Err → Bool
is_conflict (call e) = e.is_conflict
is_conflict _ = false

unfoldable pub is_worker_unreachable : Err → Bool
is_worker_unreachable worker_unreachable = true
is_worker_unreachable _ = false

unfoldable pub is_worker_busy : Err → Bool
is_worker_busy worker_busy = true
is_worker_busy _ = false

unfoldable pub is_pull_timeout : Err → Bool
is_pull_timeout pull_timeout = true
is_pull_timeout _ = false

-- A connection-level failure rather than an answer of the daemon.
unfoldable pub is_transport_error : Err → Bool
is_transport_error (call e) = e.deadline || (e.conn_failed || (e.is_net || e.is_url))
is_transport_error _ = false
