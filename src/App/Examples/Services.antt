-- ===== src/App/Examples/Services.antt =====
-- The theorems about the start and the end of the process, at a small one.
use mathlib.Core.List.Perm
use zkcertificates_queue_pro.Base.{
  String, ◌≡◌, refl, ◌⊎◌, true, false, Option, none, some, List, [], ◌∷◌, map, ok,
}
use zkcertificates_queue_pro.Base.Int.{pos}
use zkcertificates_queue_pro.Evm.Types.{EthClient}
use zkcertificates_queue_pro.Evm.{new_service}
use zkcertificates_queue_pro.Evm.Lifecycle as Evm
use zkcertificates_queue_pro.Evm.Lifecycle.{waited as evm_waited}
use zkcertificates_queue_pro.Evm.Lifecycle.Runs.{Started}
use zkcertificates_queue_pro.Processor.Types.{Registry}
use zkcertificates_queue_pro.Processor.Lifecycle as Processor
use zkcertificates_queue_pro.Processor.Lifecycle.{timed_out}
use zkcertificates_queue_pro.Processor.Queue.Keys.{keys}
use zkcertificates_queue_pro.Manager.{wait_for_shutdown}
use zkcertificates_queue_pro.App.Services.{Process, start_services}
use zkcertificates_queue_pro.App.Services.Ends.{services_start, main_ends}

abbrev node : EthClient
node = record {
  World = Unit {0};
  dial = λ url w. (ok tt, w);
  chain_id = λ w. (ok (pos 1), w);
  header_by_number = λ w. (ok (pos 10), w);
  filter_logs = λ a from to w. (ok [], w);
}

abbrev kyc : Registry
kyc = record { name = "kyc"; address = 7; current_queue_pointer = 0; queue = [] }

abbrev evm : Evm.Running (Unit {0})
evm = record {
  service = new_service "evm" "url" [];
  world = tt;
  contexts = 0;
  cancels = none;
  cancelled = [];
  listeners = [];
  closed = false;
  reports = [];
}

abbrev processor : Processor.Running
processor = record {
  service = record {
    name = "queue-processor";
    registries = (7, kyc) ∷ [];
    is_running = false;
    check_interval = pos 10_000_000_000;
    merkle_service_url = "url";
    merkle_service_tls = true;
    private_key = none;
    chain_id = pos 843_843;
    current_nonce = none;
  };
  event_bus = true;
  subscriptions = 0;
  cancelled = none;
  loops = [];
}

abbrev process : Process node
process = record { http_started = false; evm = evm; processor = processor }

services_start_example :
    let q = start_services node process in
    (q.http_started ≡ true)
    × Started node evm q.evm
    × (q.processor.service.is_running ≡ true)
    × (map (λ (l : Processor.Loop). l.address) q.processor.loops ≡ keys ((7, kyc) ∷ []))
    × (q.processor.subscriptions ≡ 1)
services_start_example =
    services_start node process
      (record { idle = refl; bus = refl; unsubscribed = refl; no_loop = refl })

-- The processor runs with a loop that does not end in time; the EVM service was never started.
abbrev loop : Processor.Loop
loop = record { address = 7; interval = pos 10_000_000_000 }

abbrev busy : Process node
busy = record process {
  processor = record processor {
    service = record processor.service { is_running = true };
    loops = loop ∷ [];
  };
}

abbrev after : Process node
after = record busy {
  evm = Evm.close_client node (record (Evm.cancel_context node evm) { listeners = [] });
  processor = Processor.stop_service (loop ∷ []) busy.processor;
}

abbrev no_error : Option String
no_error = none

abbrev deadline : Option String
deadline = some "context deadline exceeded"

abbrev results : List (Option String)
results = no_error ∷ no_error ∷ deadline ∷ []

main_ends_example :
    (((wait_for_shutdown results).failed ≡ false)
      × (no_error ≡ none)
      × (after.processor.loops ≡ []))
    ⊎ (((wait_for_shutdown results).failed ≡ true)
        × ((e : String) × ((no_error ≡ some e) ⊎ (deadline ≡ some e))))
main_ends_example =
    main_ends node busy after no_error no_error deadline results refl
      (evm_waited (λ x m. elim m [ ]))
      (timed_out "context deadline exceeded" (loop ∷ []) refl (λ l m. m)) (Perm.refl results)
