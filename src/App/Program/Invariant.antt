-- ===== src/App/Program/Invariant.antt =====
-- What stays true of the whole program, step by step.
pub mod Starts
pub mod Tells
pub mod Steps
use zkcertificates_queue_pro.Base.{
  ◌≡◌, refl, sym, subst, false, List, [], ◌++◌, Result, All, if◌then◌else◌,
}
use zkcertificates_queue_pro.Evm.Types.{Address, Log, EthClient}
use zkcertificates_queue_pro.Evm.Scan.Ledger.{Ledger}
use zkcertificates_queue_pro.Evm.Listen.Runs.{IsReady, IsKept-refl}
use zkcertificates_queue_pro.Manager.{Service, new_manager, register}
use zkcertificates_queue_pro.Processor.Types.{Backend}
use zkcertificates_queue_pro.Processor.Types as Processor
use zkcertificates_queue_pro.Processor.Lifecycle.{IsNew, here}
use zkcertificates_queue_pro.Processor.Lifecycle as Loops
use zkcertificates_queue_pro.Processor.Lifecycle.Restart.{IsSound, Steps-IsSound}
use zkcertificates_queue_pro.Processor.Loops.{Runs, begun}
use zkcertificates_queue_pro.Processor.Queue.Memory.{with_operations-nil}
use zkcertificates_queue_pro.App.{OperationQueued, Loaded, relay_all}
use zkcertificates_queue_pro.App.Services.{
  Process, http_server, evm_service, queue_processor, service_manager,
}
use zkcertificates_queue_pro.App.Program.{Program, state_of}
use zkcertificates_queue_pro.App.Program as Program
use zkcertificates_queue_pro.App.Program.Parts.{IsPublishing, IsQueueing, unheard}

module _ (c : EthClient) (b : Backend) (ledger : Ledger) where
  -- The services that `main` registers.
  pub data IsRegistered (service : Service (Process c)) : Type 1 where
    is_server : service ≡ http_server c → IsRegistered service
    is_listener : service ≡ evm_service c → IsRegistered service
    is_processor : service ≡ queue_processor c → IsRegistered service

  -- The program as `main` calls `StartAll`.
  pub record IsLaunched (p : Program c b) : Type 1 where
    pub registered : p.starting ≡ service_manager c
    pub ready : IsReady ledger p.process.evm.service
    pub silent : p.process.evm.service.bus ≡ []
    pub unheard : (p.missed ≡ []) × (p.heard ≡ [])
    pub fresh : IsNew p.process.processor

  module _ (parse : Address → Log → Result OperationQueued) (loaded : List (Address × Loaded))
      (p : Program c b) where
    pub record IsInOrder (t : Program c b) : Type 1 where
      pub starts : All IsRegistered t.starting
      pub publishing :
          IsPublishing ledger p.process.evm.service t.process.evm.service (t.missed ++ t.heard)
      pub queueing :
          IsQueueing p.process.processor t.process.processor (relay_all parse loaded t.heard)
      pub unheard : t.process.processor.service.is_running ≡ false → t.heard ≡ []
      pub runs : Runs b (state_of c b p) (state_of c b t)

    pub launched-IsInOrder : IsLaunched p → IsInOrder p
    unfolding register new_manager relay_all
    launched-IsInOrder v = record {
      starts =
          subst (All IsRegistered) (sym v.registered)
            (is_server refl, (is_listener refl, (is_processor refl, tt)));
      publishing = record {
        ready = v.ready;
        kept = IsKept-refl p.process.evm.service;
        pending = [];
        behind = rw (v.silent, v.unheard.0, v.unheard.1) refl;
      };
      queueing = record {
        sound =
            subst (λ b. IsSound (if b then 1 else 0) p.process.processor) (sym v.fresh.idle)
              (Steps-IsSound v.fresh here);
        queues = λ a. rw (v.unheard.1, relay_all) (sym (with_operations-nil _));
      };
      unheard = λ _. v.unheard.1;
      runs = begun;
    }
