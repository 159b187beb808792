-- ===== src/Evm/Examples/Lifecycle.antt =====
-- The theorems about the start and the shutdown of the service, at a node that answers.
use mathlib.Core.List.{Memᴰ}
use zkcertificates_queue_pro.Base.{◌≡◌, refl, true, false, none, [], arith}
use zkcertificates_queue_pro.Evm.{new_service, register_contract}
use zkcertificates_queue_pro.Evm.Options.{with_max_block_range}
use zkcertificates_queue_pro.Evm.Lifecycle.{
  Running, start_service, Shutdown, Steps, here, started, IsNew,
}
use zkcertificates_queue_pro.Evm.Lifecycle.Runs.{listeners_connected, listeners_end}
use zkcertificates_queue_pro.Evm.Examples.{node, watching}

abbrev fresh : Running (Unit {0})
fresh = record {
  service = watching;
  world = tt;
  contexts = 0;
  cancels = none;
  cancelled = [];
  listeners = [];
  closed = false;
  reports = [];
}

fresh-IsNew : IsNew node fresh
unfolding new_service register_contract with_max_block_range
fresh-IsNew = record {
  no_client = refl;
  no_cancel = refl;
  none_cancelled = refl;
  no_listener = refl;
  no_report = refl;
}

abbrev running : Running (Unit {0})
running = start_service node fresh

running_reached : Steps node fresh 1 running
running_reached = started here

running_listens : Memᴰ 0 running.listeners
unfolding start_service
running_listens = Memᴰ.head refl

listeners_connected_example : running.service.client ≡ true
listeners_connected_example = listeners_connected node 0 fresh-IsNew running_reached running_listens

listeners_end_example :
    (t : Running (Unit {0})) × Shutdown node running none t
    × (t.listeners ≡ [])
    × (running.service.client ≡ true → t.closed ≡ true)
listeners_end_example = listeners_end node fresh-IsNew running_reached (omega arith)
