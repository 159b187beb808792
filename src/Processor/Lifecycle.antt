-- ===== src/Processor/Lifecycle.antt =====
-- queueprocessor/processor.go: `Start`, `Shutdown` and `SetCheckInterval`.
pub mod Restart
use mathlib.Core.List.{Memᴰ}
use zkcertificates_queue_pro.Base.{
  ℕ, zero, suc, ◌≡◌, ◌⊎◌, String, Bool, true, false, Option, none, some, List, [], ◌∷◌, ◌++◌,
  if◌then◌else◌,
}
use zkcertificates_queue_pro.Base.Int.{ℤ}
use zkcertificates_queue_pro.Evm.Types.{Address}
use zkcertificates_queue_pro.Processor.Types.{OperationQueuedEvent, Registry, Service}
use zkcertificates_queue_pro.Processor.Queue.{handle_operation_queued}

-- A monitoring loop with the interval of its ticker.
pub record Loop : Type 0 where
  pub address : Address
  pub interval : ℤ

-- The service, and around it: whether there is an event bus, how often the service has subscribed to
-- it, whether its context is cancelled (none before the first start), and the loops that run. A loop
-- reads `s.ctx` anew each time it looks whether it is to end, so there is one context for all.
pub record Running : Type 0 where
  pub service : Service
  pub event_bus : Bool
  pub subscriptions : ℕ
  pub cancelled : Option Bool
  pub loops : List Loop

-- One loop per registry, with the interval that is set at the start.
unfoldable pub loops_for : ℤ → List (Address × Registry) → List Loop
loops_for interval [] = []
loops_for interval ((address, registry) ∷ rest) =
    record { address = address; interval = interval } ∷ loops_for interval rest

begin_service : Running → Running
unfolding loops_for
begin_service p = record p {
  service = record p.service { is_running = true };
  subscriptions = if p.event_bus then suc p.subscriptions else p.subscriptions;
  cancelled = some false;
  loops = loops_for p.service.check_interval p.service.registries ++ p.loops;
}

-- `Start`
unfoldable pub start_service : Running → Running
unfolding begin_service
start_service p = if p.service.is_running then p else begin_service p

unfoldable pub set_check_interval : ℤ → Service → Service
set_check_interval interval s = record s { check_interval = interval }

-- `isRunning` is reset and the context cancelled; `left` are the loops that still run then.
unfoldable pub stop_service : List Loop → Running → Running
stop_service left p = record p {
  service = record p.service { is_running = false };
  cancelled = some true;
  loops = left;
}

-- `Shutdown`, and the error that it returns: it waits until no loop runs or the time is out, with the
-- error of the context then.
pub data Shutdown (p : Running) : Option String → Running → Type 0 where
  not_running : p.service.is_running ≡ false → Shutdown p none p
  waited : p.service.is_running ≡ true → Shutdown p none (stop_service [] p)
  timed_out :
      (e : String) (left : List Loop)
      → p.service.is_running ≡ true
      → ((loop : Loop) → Memᴰ loop left → Memᴰ loop p.loops)
      → Shutdown p (some e) (stop_service left p)

-- Each subscription runs the handler once for a published event.
unfoldable pub notify : ℕ → OperationQueuedEvent → Service → Service
notify zero event s = s
notify (suc subscriptions) event s = notify subscriptions event (handle_operation_queued event s)

unfoldable pub publish_all : List OperationQueuedEvent → Running → Running
unfolding notify
publish_all [] p = p
publish_all (event ∷ events) p =
    publish_all events (record p { service = notify p.subscriptions event p.service })

-- Calls of the service's methods and published events; `starts` counts the calls of `Start` that find
-- the service not running.
pub data Steps (p : Running) : ℕ → Running → Type 0 where
  here : Steps p 0 p
  started :
      {n : ℕ} {q : Running}
      → Steps p n q
      → q.service.is_running ≡ false
      → Steps p (suc n) (start_service q)
  started_again :
      {n : ℕ} {q : Running}
      → Steps p n q
      → q.service.is_running ≡ true
      → Steps p n (start_service q)
  stopped : {n : ℕ} {q t : Running} → Steps p n q → Shutdown q none t → Steps p n t
  interval_set :
      {n : ℕ} {q : Running} (interval : ℤ)
      → Steps p n q
      → Steps p n (record q { service = set_check_interval interval q.service })
  published :
      {n : ℕ} {q : Running} (events : List OperationQueuedEvent)
      → Steps p n q
      → Steps p n (publish_all events q)

-- A service as the constructor makes it, with a bus.
pub record IsNew (p : Running) : Type 0 where
  pub idle : p.service.is_running ≡ false
  pub bus : p.event_bus ≡ true
  pub unsubscribed : p.subscriptions ≡ 0
  pub no_loop : p.loops ≡ []
