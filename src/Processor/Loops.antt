-- ===== src/Processor/Loops.antt =====
-- queueprocessor/processor.go: the running service, as its loops' ticks, the events that it is
-- told of and the calls of its methods, one after the other. The world changes in any way in between, and with every call.
pub mod Justified
use zkcertificates_queue_pro.Base.{◌≡◌, Bool, some, lookup}
use zkcertificates_queue_pro.Base.Int.{ℤ}
use zkcertificates_queue_pro.Processor.Lifecycle.{set_check_interval}
use zkcertificates_queue_pro.Evm.Types.{Address}
use zkcertificates_queue_pro.Processor.Types.{OperationQueuedEvent, Registry, Backend, State}
use zkcertificates_queue_pro.Processor.Queue.{
  check_and_process_registry_queue, handle_operation_queued,
}

module _ (b : Backend) where
  open b use {World}

  pub data Runs (s : State World) : State World → Type 0 where
    begun : Runs s s
    -- A tick of the loop of a registry of the service.
    ticked :
        {t : State World} (address : Address) (registry : Registry)
        → Runs s t
        → lookup address t.service.registries ≡ some registry
        → Runs s (check_and_process_registry_queue b address registry t).1
    handled :
        {t : State World} (event : OperationQueuedEvent)
        → Runs s t
        → Runs s (record t { service = handle_operation_queued event t.service })
    -- `Start` and `Shutdown` of the service, and `SetCheckInterval`.
    running_set :
        {t : State World} (is_running : Bool)
        → Runs s t
        → Runs s (record t { service = record t.service { is_running = is_running } })
    interval_set :
        {t : State World} (interval : ℤ)
        → Runs s t
        → Runs s (record t { service = set_check_interval interval t.service })
    elapsed : {t : State World} (w : World) → Runs s t → Runs s (record t { world = w })
