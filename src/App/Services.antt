-- ===== src/App/Services.antt =====
-- main.go: the three services that the manager starts and shuts down.
pub mod Ends
use zkcertificates_queue_pro.Base.{Bool, true, List}
use zkcertificates_queue_pro.Evm.Types.{EthClient}
use zkcertificates_queue_pro.Evm.Lifecycle as Evm
use zkcertificates_queue_pro.Processor.Lifecycle as Processor
use zkcertificates_queue_pro.Manager.{Service, new_manager, register, start_all}

-- The states of the services, and whether the HTTP server was started.
pub record Process (c : EthClient) : Type 0 where
  pub http_started : Bool
  pub evm : Evm.Running c.World
  pub processor : Processor.Running

module _ (c : EthClient) where
  -- The library's `Shutdown` of the server may return any error.
  abbrev pub http_server : Service (Process c)
  http_server = record { start = λ p. record p { http_started = true }; shutdown = λ p e q. Unit }

  abbrev pub evm_service : Service (Process c)
  evm_service = record {
    start = λ p. record p { evm = Evm.start_service c p.evm };
    shutdown = λ p e q. Evm.Shutdown c p.evm e q.evm;
  }

  abbrev pub queue_processor : Service (Process c)
  queue_processor = record {
    start = λ p. record p { processor = Processor.start_service p.processor };
    shutdown = λ p e q. Processor.Shutdown p.processor e q.processor;
  }

  -- `serviceManager` when `StartAll` is called.
  abbrev pub service_manager : List (Service (Process c))
  service_manager =
      register queue_processor (register evm_service (register http_server new_manager))

  -- `serviceManager.StartAll()`
  unfoldable pub start_services : Process c → Process c
  unfolding start_all register new_manager
  start_services p = start_all service_manager p
