-- ===== src/Manager.antt =====
-- service/manager.go: the manager that starts the services of the process and shuts them down.
pub mod Orders
mod Examples
use zkcertificates_queue_pro.Base.{
  String, Bool, true, false, Option, none, some, List, [], ◌∷◌, ◌++◌,
}
use zkcertificates_queue_pro.Sentry.{Report, capture_error}

-- What the manager asks of a service, on the state that the services keep, `W`: `start` is what
-- `Start` does, and `shutdown` relates the state when `Shutdown` is called, the error that it may
-- return, and the state when it returns.
pub record Service (W : Type 0) : Type 1 where
  pub start : W → W
  pub shutdown : W → Option String → W → Type 0

module _ {W : Type 0} where
  unfoldable pub new_manager : List (Service W)
  new_manager = []

  unfoldable pub register : Service W → List (Service W) → List (Service W)
  register service services = services ++ service ∷ []

  unfoldable pub start_all : List (Service W) → W → W
  start_all [] w = w
  start_all (service ∷ services) w = start_all services (service.start w)

-- The errors that the channel holds: each goroutine sends the one that its service's `Shutdown`
-- returns, if it is not nil. `results` are these, in the order in which the calls return.
unfoldable pub collected : List (Option String) → List String
collected [] = []
collected (none ∷ results) = collected results
collected (some e ∷ results) = e ∷ collected results

-- The loop that reads the closed channel.
first_of : Option String → List String → Option String
first_of first_error [] = first_error
first_of none (e ∷ errors) = first_of (some e) errors
first_of (some first_error) (e ∷ errors) = first_of (some first_error) errors

-- `ShutdownAll`: the error that it returns and those that it logs.
unfoldable pub shutdown_all : List (Option String) → Option String × List String
unfolding collected first_of
shutdown_all results = (first_of none (collected results), collected results)

-- Whether the exit code is 1, the error that is logged last, those of the services that are logged
-- before, and the reports sent to Sentry.
pub record Exit : Type 0 where
  pub failed : Bool
  pub error : Option String
  pub logged : List String
  pub reports : List Report

exit_with : Option String × List String → Exit
unfolding capture_error
exit_with (none, logged) = record { failed = false; error = none; logged = logged; reports = [] }
exit_with (some e, logged) = record {
  failed = true;
  error = some e;
  logged = logged;
  reports = capture_error (some e) (("location", "shutdown") ∷ []);
}

-- `WaitForShutdown` from the signal on.
unfoldable pub wait_for_shutdown : List (Option String) → Exit
unfolding shutdown_all exit_with
wait_for_shutdown results = exit_with (shutdown_all results)
