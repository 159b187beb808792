-- ===== src/Processor/Examples/Lifecycle.antt =====
-- The theorems about the start of the processor: it is started, shut down and started again.
use mathlib.Core.Option
use zkcertificates_queue_pro.Base.{◌≡◌, refl, true, false, none, [], map, lookup, if◌then◌else◌}
use zkcertificates_queue_pro.Processor.Queue.Keys.{keys}
use zkcertificates_queue_pro.Processor.Queue.Memory.{operations_for, with_operations}
use zkcertificates_queue_pro.Processor.Lifecycle.{
  Loop, Running, start_service, stop_service, waited, publish_all, Steps, here, started, stopped,
  IsNew,
}
use zkcertificates_queue_pro.Processor.Lifecycle.Restart.{
  repeated, one_loop_each, restart_duplicates,
}
use zkcertificates_queue_pro.Processor.Examples.{keyed, some_events}

abbrev fresh : Running
fresh = record {
  service = record keyed { is_running = false };
  event_bus = true;
  subscriptions = 0;
  cancelled = none;
  loops = [];
}

fresh-IsNew : IsNew fresh
fresh-IsNew = record { idle = refl; bus = refl; unsubscribed = refl; no_loop = refl }

abbrev twice : Running
twice = start_service (stop_service [] (start_service fresh))

twice_reached : Steps fresh 2 twice
unfolding start_service stop_service
twice_reached = started (stopped (started here refl) (waited refl)) refl

one_loop_each_example :
    map (λ (l : Loop). l.address) twice.loops
    ≡ (if twice.service.is_running then keys twice.service.registries else [])
one_loop_each_example = one_loop_each fresh-IsNew twice_reached

restart_duplicates_example :
    lookup 7 (publish_all some_events twice).service.registries
    ≡ Option.map
        (with_operations (operations_for 7 (repeated 2 some_events)))
        (lookup 7 twice.service.registries)
restart_duplicates_example = restart_duplicates some_events 7 fresh-IsNew twice_reached
