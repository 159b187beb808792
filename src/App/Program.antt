-- ===== src/App/Program.antt =====
-- main.go: the whole program from `StartAll` on, until a signal ends it. The manager starts the
-- services one after the other, and meanwhile those that run already work: the listener makes its
-- rounds, the bus tells the subscribers of what was published, and the processor's loops tick.
pub mod Parts
pub mod Invariant
pub mod Sound
pub mod Progress
use mathlib.Core.List.{Memᴰ}
use zkcertificates_queue_pro.Base.{ℕ, zero, suc, ◌≡◌, some, List, [], ◌∷◌, ◌++◌, Result, lookup}
use zkcertificates_queue_pro.Evm.Types.{Address, Log, ContractEvent, ContractInfo, EthClient}
use zkcertificates_queue_pro.Evm.Types as Evm
use zkcertificates_queue_pro.Evm.Listen.{IsVisit, scan_contracts}
use zkcertificates_queue_pro.Logging.Builder.{Output}
use zkcertificates_queue_pro.Processor.Types.{Registry, Sent, Backend, State}
use zkcertificates_queue_pro.Processor.Lifecycle.{Loop, publish_all}
use zkcertificates_queue_pro.Processor.Lifecycle as Processor
use zkcertificates_queue_pro.Processor.Queue.{check_and_process_registry_queue}
use zkcertificates_queue_pro.Manager.{Service}
use zkcertificates_queue_pro.App.{OperationQueued, Loaded, relay}
use zkcertificates_queue_pro.App.Services.{Process}

-- The services, those that `StartAll` has yet to start, the world of the processor's loops, and what
-- they sent and logged. The listener's events that the bus has told are `missed` as long as the
-- processor has not subscribed, and `heard` from then on.
pub record Program (c : EthClient) (b : Backend) : Type 1 where
  pub process : Process c
  pub starting : List (Service (Process c))
  pub missed : List ContractEvent
  pub heard : List ContractEvent
  pub world : b.World
  pub sent : List Sent
  pub outputs : List Output

module _ (c : EthClient) (b : Backend) where
  -- What a loop of the processor works on.
  abbrev pub state_of : Program c b → State b.World
  state_of p = record {
    service = p.process.processor.service;
    world = p.world;
    sent = p.sent;
    outputs = p.outputs;
  }

  abbrev pub with_processor : Processor.Running → Program c b → Program c b
  with_processor q p = record p { process = record p.process { processor = q } }

  abbrev pub with_state : State b.World → Program c b → Program c b
  with_state s p = record p {
    process = record p.process { processor = record p.process.processor { service = s.service } };
    world = s.world;
    sent = s.sent;
    outputs = s.outputs;
  }

  abbrev pub with_listener : Evm.Service → c.World → Program c b → Program c b
  with_listener s w p = record p {
    process = record p.process { evm = record p.process.evm { service = s; world = w } };
  }

  -- One more event is told, while there are so many subscriptions of the processor.
  told_to : ℕ → ContractEvent → Program c b → Program c b
  told_to zero event p = record p { missed = p.missed ++ event ∷ [] }
  told_to (suc subscriptions) event p = record p { heard = p.heard ++ event ∷ [] }

  module _ (parse : Address → Log → Result OperationQueued) (loaded : List (Address × Loaded)) where
    -- The bus tells `main`'s subscriber of an event of the listener, which publishes the operation.
    unfoldable pub tell : ContractEvent → Program c b → Program c b
    unfolding told_to
    tell event p =
        with_processor (publish_all (relay parse loaded event) p.process.processor)
          (told_to p.process.processor.subscriptions event p)

    pub data Execution (p : Program c b) : Program c b → Type 1 where
      launched : Execution p p
      -- `StartAll` starts the next service.
      next_started :
          {t : Program c b} (service : Service (Process c)) (rest : List (Service (Process c)))
          → Execution p t
          → t.starting ≡ service ∷ rest
          → Execution p (record t { process = service.start t.process; starting = rest })
      -- A listener makes a round.
      scanned :
          {t : Program c b} (listener : ℕ) (visit : List (Address × ContractInfo)) (s : Evm.Service)
          (w : c.World)
          → Execution p t
          → Memᴰ listener t.process.evm.listeners
          → IsVisit t.process.evm.service.contracts visit
          → scan_contracts c visit t.process.evm.service t.process.evm.world ≡ some (s, w)
          → Execution p (with_listener s w t)
      -- The bus tells of the next event that was published: at once or later, but in order.
      told :
          {t : Program c b} (event : ContractEvent) (later : List ContractEvent)
          → Execution p t
          → t.process.evm.service.bus ≡ (t.missed ++ t.heard) ++ event ∷ later
          → Execution p (tell event t)
      -- A loop of the processor ticks.
      ticked :
          {t : Program c b} (loop : Loop) (registry : Registry)
          → Execution p t
          → Memᴰ loop t.process.processor.loops
          → lookup loop.address t.process.processor.service.registries ≡ some registry
          → Execution p (
              with_state
                (check_and_process_registry_queue b loop.address registry (state_of t)).1
                t)
      -- Others change the chain and the proof service.
      elapsed :
          {t : Program c b} (v : c.World) (w : b.World)
          → Execution p t
          → Execution p (record (with_listener t.process.evm.service v t) { world = w })
