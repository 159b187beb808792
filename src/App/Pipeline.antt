-- ===== src/App/Pipeline.antt =====
-- main.go, end to end: the queues that the program fills in memory are those of the chain.
use mathlib.Core.Option
use zkcertificates_queue_pro.Base.{
  ◌≡◌, refl, ap, inl, inr, false, some, List, [], ◌∷◌, ◌++◌, map, Result, ok, err, Option-cases,
  Bool-cases, arith, keep_if, lookup, ◌==◌, ==_iff, if◌then◌else◌,
}
use zkcertificates_queue_pro.Base.Int.{pos, ◌+ℤ◌, ◌≤ℤ◌, gap}
use zkcertificates_queue_pro.Evm.Types.{Address, Log, ContractEvent, ContractInfo, EthClient}
use zkcertificates_queue_pro.Evm.Types as Evm
use zkcertificates_queue_pro.Evm.Scan.Ledger.{Ledger, logs_range, passes, to_event, IsFaithful}
use zkcertificates_queue_pro.Evm.Listen.{Listening}
use zkcertificates_queue_pro.Evm.Listen.Once.{events_of}
use zkcertificates_queue_pro.Evm.Listen.Runs.{IsFresh, listening_once}
use zkcertificates_queue_pro.Processor.Types.{QueuedOperation, OperationQueuedEvent}
use zkcertificates_queue_pro.Processor.Types as Processor
use zkcertificates_queue_pro.Processor.Queue.{queued_operation}
use zkcertificates_queue_pro.Processor.Queue.Memory.{
  handle_all, operations_for, with_operations, lookup-handle_all, operations_for-append,
}
use zkcertificates_queue_pro.App.{
  OperationQueued, Loaded, relay_parsed, relay_known, relay, relay_all,
}

module _ (parse : Address → Log → Result OperationQueued) (a : Address) where
  -- The operation that a log queues for the registry, if it is of that kind.
  pub operation_in : Result OperationQueued → List QueuedOperation
  operation_in (err e) = []
  operation_in (ok op) =
      record {
        hash = op.zk_certificate_leaf_hash;
        guardian = op.guardian;
        queue_index = op.queue_index;
        state = op.operation;
        is_processing = false;
      }
      ∷ []

  unfoldable pub operations_in : List Log → List QueuedOperation
  unfolding operation_in
  operations_in [] = []
  operations_in (log ∷ logs) = operation_in (parse a log) ++ operations_in logs

  operations_for-parsed :
      (event : ContractEvent) (registry : Loaded) (r : Result OperationQueued)
      → operations_for a (relay_parsed parse event registry r)
        ≡ (if event.contract == a then operation_in r else [])
  unfolding relay_parsed operation_in queued_operation
  operations_for-parsed event registry (err e) = ground arith
  operations_for-parsed event registry (ok op) = ground arith

  -- One event of the listener queues for the registry what its log holds.
  operations_for-relay :
      (loaded : List (Address × Loaded)) (registry : Loaded) (event : ContractEvent)
      → lookup a loaded ≡ some registry
      → operations_for a (relay parse loaded event)
        ≡ (if event.contract == a then operation_in (parse a event.event) else [])
  unfolding relay
  operations_for-relay loaded registry event h = elim (Bool-cases (event.contract == a)) [
    | inl same ↦
        let here : event.contract ≡ a = (==_iff event.contract a).0 same in
        let found : lookup event.contract loaded ≡ some registry = rw here h in
        rw (found, relay_known, operations_for-parsed, here) refl
    | inr other ↦ elim (Option-cases (lookup event.contract loaded)) [
      | inl missing ↦ rw (missing, relay_known, other) refl
      | inr (registry', found) ↦ rw (found, relay_known, operations_for-parsed, other) refl
    ]
  ]

  -- All events queue for the registry what the logs of its contract hold.
  pub operations_for-relay_all :
      (loaded : List (Address × Loaded)) (registry : Loaded) (events : List ContractEvent)
      → lookup a loaded ≡ some registry
      → operations_for a (relay_all parse loaded events)
        ≡ operations_in (map (λ e. e.event) (events_of a events))
  unfolding relay_all operations_in
  operations_for-relay_all loaded registry [] h = refl
  operations_for-relay_all loaded registry (event ∷ events) h =
      rw
        (
          operations_for-append,
          operations_for-relay loaded registry event h,
          operations_for-relay_all loaded registry events h,
        )
        (elim (Bool-cases (event.contract == a)) [
          | inl same ↦ rw same refl
          | inr other ↦ rw other refl
        ])

  pub logs_of-to_event : (logs : List Log) → map (λ e. e.event) (map to_event logs) ≡ logs
  logs_of-to_event [] = refl
  logs_of-to_event (log ∷ logs) = ap (◌∷◌ log) (logs_of-to_event logs)

module _ (c : EthClient) (ledger : Ledger) (parse : Address → Log → Result OperationQueued) where
  -- Let the node be faithful to the ledger, and the listener start from contracts that are registered
  -- and not yet scanned, with no confirmations asked for. After any rounds of the listener, with any
  -- failed queries, and after the subscribers have handled what it published: the queue in memory of
  -- each registry that `main` has loaded and that is monitored holds what it held before, and then
  -- the operations that `ParseOperationQueued` reads off the logs of its contract, of the blocks
  -- behind the start block up to the cursor, as far as they pass the filters: each once, in the order
  -- of the chain, and none of another registry.
  pub handle_all-relay_all :
      {s t : Evm.Service} (loaded : List (Address × Loaded)) (registry : Loaded)
      (p : Processor.Service) (a : Address) (info : ContractInfo)
      → IsFaithful c ledger
      → s.confirmations ≡ 0
      → pos 1 ≤ℤ s.max_block_range
      → IsFresh s
      → Listening c s t
      → lookup a loaded ≡ some registry
      → lookup a t.contracts ≡ some info
      → lookup a (handle_all (relay_all parse loaded t.bus) p).registries
        ≡ Option.map
            (with_operations (
              operations_in parse a (
                keep_if (passes t.event_filters) (
                  logs_range ledger a
                    (info.start_block +ℤ pos 1)
                    (gap info.start_block info.current_block)))))
            (lookup a p.registries)
  handle_all-relay_all loaded registry p a info faithful plain range fresh run known monitored =
      let once = (listening_once c ledger faithful plain range fresh run).once a info monitored in
      rw
        (
          lookup-handle_all,
          operations_for-relay_all parse a loaded registry _ known,
          once,
          logs_of-to_event parse a,
        )
        refl
