-- ===== src/App/Program/Sound.antt =====
-- The whole program, in every state that it comes to: what its queues hold, and why it sends what it
-- sends.
use zkcertificates_queue_pro.Base.{
  ℕ, String, ◌≡◌, refl, sym, ap, subst, ◌∙◌, true, none, some, List, [], ◌∷◌, ◌++◌, append_assoc,
  map, map-append, keep_if-append, Result, lookup, All, if◌then◌else◌,
}
use zkcertificates_queue_pro.Base.Int.{ℤ, pos, ◌+ℤ◌, gap, int_laws}
use zkcertificates_queue_pro.Evm.Types.{Address, Log, ContractEvent, ContractInfo, EthClient}
use zkcertificates_queue_pro.Evm.Types as Evm
use zkcertificates_queue_pro.Evm.Scan.Ledger.{Ledger, logs_range, IsFaithful}
use zkcertificates_queue_pro.Evm.Listen.Once.{events_of, IsDelivered}
use zkcertificates_queue_pro.Evm.Listen.Runs.{IsReady, IsFresh-IsDelivered}
use zkcertificates_queue_pro.Processor.Types.{QueuedOperation, Registry, Sent, Backend}
use zkcertificates_queue_pro.Processor.Types as Processor
use zkcertificates_queue_pro.Processor.Setup.{Environment}
use zkcertificates_queue_pro.Processor.Lifecycle.{Loop}
use zkcertificates_queue_pro.Processor.Queue.Keys.{keys}
use zkcertificates_queue_pro.Processor.Queue.Memory.{with_operations}
use zkcertificates_queue_pro.Processor.Loops.Justified.{IsDueFor, IsConfigured, Runs-sent}
use zkcertificates_queue_pro.App.{RegistryEntry, OperationQueued, Loaded, Launch, registry_config}
use zkcertificates_queue_pro.App.Starts.{start_from}
use zkcertificates_queue_pro.App.Loading.{empty_registry, last_of-last_entry}
use zkcertificates_queue_pro.App.Startup.{SetUp}
use zkcertificates_queue_pro.App.Pipeline.{
  operation_in, operations_in, operations_for-relay_all, logs_of-to_event,
}
use zkcertificates_queue_pro.App.EndToEnd.{keep_if-passes}
use zkcertificates_queue_pro.App.Services.{service_manager}
use zkcertificates_queue_pro.App.Program.{Program, state_of, Execution}
use zkcertificates_queue_pro.App.Program.Invariant.{IsLaunched, IsInOrder}
use zkcertificates_queue_pro.App.Program.Invariant.Steps.{Execution-IsInOrder}

module _ (parse : Address → Log → Result OperationQueued) (a : Address) where
  -- The operations that the events of the listener hold for a registry.
  abbrev pub operations_of : List ContractEvent → List QueuedOperation
  operations_of events = operations_in parse a (map (λ e. e.event) (events_of a events))

  operations_in-append :
      (xs ys : List Log)
      → operations_in parse a (xs ++ ys) ≡ operations_in parse a xs ++ operations_in parse a ys
  unfolding operations_in
  operations_in-append [] ys = refl
  operations_in-append (x ∷ xs) ys =
      ap (λ l. operation_in parse a (parse a x) ++ l) (operations_in-append xs ys)
      ∙ sym (
          append_assoc (operation_in parse a (parse a x)) (operations_in parse a xs)
            (operations_in parse a ys))

  operations_of-append :
      (xs ys : List ContractEvent) → operations_of (xs ++ ys) ≡ operations_of xs ++ operations_of ys
  operations_of-append xs ys =
      rw (keep_if-append, map-append)
        (operations_in-append (map (λ e. e.event) (events_of a xs))
          (map (λ e. e.event) (events_of a ys)))

  -- What a listener without filters has published of a contract are its logs.
  operations_of-bus :
      (ledger : Ledger) (s : Evm.Service) (info : ContractInfo)
      → IsDelivered ledger s
      → s.event_filters ≡ []
      → lookup a s.contracts ≡ some info
      → operations_in parse a (
          logs_range ledger a (info.start_block +ℤ pos 1) (gap info.start_block info.current_block))
        ≡ operations_of s.bus
  operations_of-bus ledger s info v plain h =
      rw (v.once a info h, plain, keep_if-passes, logs_of-to_event parse a) refl

module _ (env : Environment) (c : EthClient) (b : Backend)
    (init_block_height : Address → c.World → Result ℕ × c.World) (hex_to_address : String → Address)
    (read_file : String → Result (List ℕ)) (unmarshal : List ℕ → Result (List RegistryEntry))
    (order : List (Address × Loaded) → List (Address × Loaded))
    (parse : Address → Log → Result OperationQueued) (ledger : Ledger) where
  -- The program as `main` calls `StartAll`, with the services that it has set up.
  pub record IsSetUp {r : Launch}
      (up : SetUp env c init_block_height hex_to_address read_file unmarshal order r)
      (p : Program c b) : Type 1 where
    pub registered : p.starting ≡ service_manager c
    pub evm_service : p.process.evm.service ≡ up.evm_service
    pub queue_processor : p.process.processor.service ≡ up.queue_processor
    pub bus : p.process.processor.event_bus ≡ true
    pub unsubscribed : p.process.processor.subscriptions ≡ 0
    pub no_loop : p.process.processor.loops ≡ []
    pub unheard : (p.missed ≡ []) × (p.heard ≡ [])
    pub unsent : p.sent ≡ []

  -- Every operation of the chain, behind block `first` up to the cursor, is in the queue, or on its
  -- way there, or was published before the processor subscribed; and nothing else is in the queue.
  pub record IsAccounted (name : String) (a : Address) (first : ℤ) (t : Program c b) : Type 0 where
    pub info : ContractInfo
    pub monitored : lookup a t.process.evm.service.contracts ≡ some info
    pub pending : List ContractEvent
    pub published : t.process.evm.service.bus ≡ (t.missed ++ t.heard) ++ pending
    pub chain :
        operations_in parse a (logs_range ledger a (first +ℤ pos 1) (gap first info.current_block))
        ≡ (operations_of parse a t.missed ++ operations_of parse a t.heard)
          ++ operations_of parse a pending
    pub queue :
        lookup a t.process.processor.service.registries
        ≡ some (with_operations (operations_of parse a t.heard) (empty_registry a name))

  module _ {r : Launch}
      (up : SetUp env c init_block_height hex_to_address read_file unmarshal order r)
      (p t : Program c b) (v : IsSetUp up p) where
    pub SetUp-IsLaunched : IsLaunched c b ledger p
    SetUp-IsLaunched = record {
      registered = v.registered;
      ready = subst (IsReady ledger) (sym v.evm_service) (record {
        plain = up.unconfirmed;
        range = omega (int_laws, up.usable.range);
        delivered = IsFresh-IsDelivered ledger up.evm_service up.usable.fresh;
      });
      silent = ap (λ (s : Evm.Service). s.bus) v.evm_service ∙ up.usable.fresh.silent;
      unheard = v.unheard;
      fresh = record {
        idle = ap (λ (s : Processor.Service). s.is_running) v.queue_processor ∙ up.stopped;
        bus = v.bus;
        unsubscribed = v.unsubscribed;
        no_loop = v.no_loop;
      };
    }

    plain : IsInOrder c b ledger parse up.loaded p t → t.process.evm.service.event_filters ≡ []
    plain now =
        now.publishing.kept.filters
        ∙ ap (λ (s : Evm.Service). s.event_filters) v.evm_service
        ∙ up.unfiltered

    pub accounted :
        (a : Address) (registry : Loaded)
        → IsInOrder c b ledger parse up.loaded p t
        → lookup a up.loaded ≡ some registry
        → (w : c.World) × IsAccounted registry.name a
            (start_from registry.start_block (init_block_height a w).0)
            t
    accounted a registry now known =
        let (w, first) = up.starts a registry known in
        let here = ap (λ (s : Evm.Service). lookup a s.contracts) v.evm_service ∙ first in
        let (info, monitored, same, _) = now.publishing.kept.monitored a _ here in
        (
          w,
          record {
            info = info;
            monitored = monitored;
            pending = now.publishing.pending;
            published = now.publishing.behind;
            chain =
                subst
                  (λ first.
                    operations_in parse a
                      (logs_range ledger a (first +ℤ pos 1) (gap first info.current_block))
                    ≡ (operations_of parse a t.missed ++ operations_of parse a t.heard)
                      ++ operations_of parse a now.publishing.pending)
                  same
                  (operations_of-bus parse a ledger t.process.evm.service info
                      now.publishing.ready.delivered (plain now) monitored
                    ∙ ap (operations_of parse a) now.publishing.behind
                    ∙ operations_of-append parse a (t.missed ++ t.heard) now.publishing.pending
                    ∙ ap (λ l. l ++ operations_of parse a now.publishing.pending)
                        (operations_of-append parse a t.missed t.heard));
            queue =
                now.queueing.queues a
                ∙ rw
                    (
                      operations_for-relay_all parse a up.loaded registry t.heard known,
                      v.queue_processor,
                      up.registries a,
                      last_of-last_entry hex_to_address a up.entries none none registry (λ r e. cc)
                          (sym (up.known a) ∙ known),
                    )
                    refl;
          },
        )

    -- Let the node be faithful to the ledger. `main` starts the services that it has set up; meanwhile
    -- and afterwards the listener makes rounds with any failed queries, the bus tells of what was
    -- published, at once or later, and the loops tick, in any order and with any answers. In every state
    -- that this leads to: each operation of the chain for a loaded registry, behind its start block up
    -- to the listener's cursor, is in the registry's queue, once and in order, unless the bus has still
    -- to tell of it, or told of it before the processor had subscribed; the queue holds nothing else.
    -- Each transaction sent is for the contract of a config, and for an item that the contract said was
    -- due, with the leaf and the path that the proof service told for it, and a key was set. The
    -- processor runs one loop for each registry, if it is started.
    pub whole_program :
        IsFaithful c ledger
        → Execution c b parse up.loaded p t
        → ((a : Address) (registry : Loaded)
            → lookup a up.loaded ≡ some registry
            → (w : c.World) × IsAccounted registry.name a
                (start_from registry.start_block (init_block_height a w).0)
                t)
          × All
              (λ x.
                IsDueFor b (state_of c b p) x
                × IsConfigured b (map (registry_config hex_to_address) up.entries) x)
              t.sent
          × (map (λ (l : Loop). l.address) t.process.processor.loops ≡ (
              if t.process.processor.service.is_running
              then keys t.process.processor.service.registries
              else []))
    whole_program faithful run =
        let now = Execution-IsInOrder c b ledger parse up.loaded p faithful SetUp-IsLaunched run in
        (
          (λ a registry. accounted a registry now),
          Runs-sent b (map (registry_config hex_to_address) up.entries)
              (λ a.
                ap (λ (s : Processor.Service). lookup a s.registries) v.queue_processor
                ∙ up.registries a)
              v.unsent now.runs,
          now.queueing.sound.looping,
        )
