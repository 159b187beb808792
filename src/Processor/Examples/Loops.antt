-- ===== src/Processor/Examples/Loops.antt =====
-- The theorem about the running service, after one tick and one event.
use zkcertificates_queue_pro.Base.{ℕ, ◌≡◌, refl, true, false, none, some, [], ◌∷◌, ok, All}
use zkcertificates_queue_pro.Base.Int.{pos}
use zkcertificates_queue_pro.Processor.Types.{Registry, Service, State}
use zkcertificates_queue_pro.Processor.Queue.{
  check_and_process_registry_queue, handle_operation_queued,
}
use zkcertificates_queue_pro.Processor.Setup.{new_service_with_multiple_registries, new_registry}
use zkcertificates_queue_pro.Processor.Loops.{begun, ticked, handled}
use zkcertificates_queue_pro.Processor.Loops.Justified.{IsDueFor, IsConfigured, every_sent_due}
use zkcertificates_queue_pro.Processor.Examples.{small, environment, configs, event_for}

abbrev kyb : Registry
kyb = record { name = "kyb"; address = 7; current_queue_pointer = 0; queue = [] }

abbrev made : Service
made = record {
  name = "queue-processor";
  registries = (7, kyb) ∷ [];
  is_running = false;
  check_interval = pos 10_000_000_000;
  merkle_service_url = "grpc-merkle-843843.galactica.com:443";
  merkle_service_tls = true;
  private_key = none;
  chain_id = pos 843_843;
  current_nonce = none;
}

made_lem :
    new_service_with_multiple_registries environment "queue-processor" configs (ok (pos 843_843))
    ≡ ok made
unfolding new_service_with_multiple_registries new_registry
made_lem = refl

abbrev begin : State ℕ
begin = record {
  service = record made { private_key = some 42; is_running = true };
  world = 0;
  sent = [];
  outputs = [];
}

-- The tick sends two transactions.
abbrev ticked_once : State ℕ
ticked_once = (check_and_process_registry_queue small 7 kyb begin).1

abbrev told : State ℕ
told = record ticked_once {
  service = handle_operation_queued (event_for 7 1004) ticked_once.service;
}

every_sent_due_example : All (λ x. IsDueFor small begin x × IsConfigured small configs x) told.sent
every_sent_due_example =
    every_sent_due small environment "queue-processor" configs (ok (pos 843_843)) made begin told
      made_lem refl refl (handled (event_for 7 1004) (ticked 7 kyb begun refl))
