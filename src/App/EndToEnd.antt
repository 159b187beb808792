-- ===== src/App/EndToEnd.antt =====
-- main.go, from the config file to the queues in memory.
use zkcertificates_queue_pro.Base.{
  ℕ, String, ◌≡◌, refl, sym, ap, ◌∙◌, Option, none, some, List, [], ◌∷◌, Result, keep_if, lookup,
}
use zkcertificates_queue_pro.Base.Int.{ℤ, pos, ◌+ℤ◌, ◌≤ℤ◌, gap, int_laws}
use zkcertificates_queue_pro.Evm.Types.{Address, Log, EthClient}
use zkcertificates_queue_pro.Evm.Types as Evm
use zkcertificates_queue_pro.Evm.Scan.{filtered_out}
use zkcertificates_queue_pro.Evm.Scan.Ledger.{Ledger, logs_range, passes, IsFaithful}
use zkcertificates_queue_pro.Evm.Listen.{Listening}
use zkcertificates_queue_pro.Evm.Listen.Runs.{listening-IsKept}
use zkcertificates_queue_pro.Processor.Types.{Registry}
use zkcertificates_queue_pro.Processor.Setup.{Environment}
use zkcertificates_queue_pro.Processor.Queue.Memory.{handle_all, with_operations}
use zkcertificates_queue_pro.App.{RegistryEntry, OperationQueued, Loaded, Launch, relay_all}
use zkcertificates_queue_pro.App.Starts.{start_from}
use zkcertificates_queue_pro.App.Startup.{SetUp}
use zkcertificates_queue_pro.App.Loading.{empty_registry, last_of-last_entry}
use zkcertificates_queue_pro.App.Pipeline.{operations_in, handle_all-relay_all}

-- With no filters, every log passes.
pub keep_if-passes : (logs : List Log) → keep_if (passes []) logs ≡ logs
unfolding filtered_out
keep_if-passes [] = refl
keep_if-passes (log ∷ logs) = ap (◌∷◌ log) (keep_if-passes logs)

module _ (env : Environment) (c : EthClient)
    (init_block_height : Address → c.World → Result ℕ × c.World) (hex_to_address : String → Address)
    (read_file : String → Result (List ℕ)) (unmarshal : List ℕ → Result (List RegistryEntry))
    (order : List (Address × Loaded) → List (Address × Loaded))
    (parse : Address → Log → Result OperationQueued) (ledger : Ledger) where
  -- The queue of a registry holds the operations of the chain behind block `first`, up to the
  -- cursor of the listener at `t`, and nothing else.
  pub record HoldsChain (name : String) (a : Address) (first : ℤ) (t : Evm.Service)
      (queue : Option Registry) : Type 0 where
    pub info : Evm.ContractInfo
    pub monitored : lookup a t.contracts ≡ some info
    pub same :
        queue
        ≡ some (
            with_operations
              (operations_in parse a
                (logs_range ledger a (first +ℤ pos 1) (gap first info.current_block)))
              (empty_registry a name))

  -- Let the node be faithful to the ledger. After `main` has set up the services, any rounds of the
  -- listener with any failed queries, and the handling of what it published: the queue in memory of
  -- each loaded registry holds exactly the operations that `ParseOperationQueued` reads off the logs
  -- that its contract made behind its start block up to the listener's cursor, each once, in the
  -- order of the chain; the start block is the one of the config file, else the one before the block
  -- that the contract answers, else block 0.
  pub handle_all-start :
      {r : Launch} (up : SetUp env c init_block_height hex_to_address read_file unmarshal order r)
      (t : Evm.Service) (a : Address) (registry : Loaded)
      → IsFaithful c ledger
      → Listening c up.evm_service t
      → lookup a up.loaded ≡ some registry
      → (w : c.World) × HoldsChain registry.name a
          (start_from registry.start_block (init_block_height a w).0)
          t
          (lookup a (handle_all (relay_all parse up.loaded t.bus) up.queue_processor).registries)
  handle_all-start up t a registry faithful run known =
      let (w, first) = up.starts a registry known in
      let range : pos 1 ≤ℤ up.evm_service.max_block_range = omega (int_laws, up.usable.range) in
      let kept = listening-IsKept c ledger faithful up.unconfirmed range up.usable.fresh run in
      let (now, monitored, same, _) = kept.monitored a _ first in
      let queued =
        handle_all-relay_all c ledger parse up.loaded registry up.queue_processor a now faithful
          up.unconfirmed range up.usable.fresh run known monitored in
      (
        w,
        record {
          info = now;
          monitored = monitored;
          same =
              queued
              ∙ rw
                  (
                    kept.filters,
                    up.unfiltered,
                    keep_if-passes,
                    same,
                    up.registries a,
                    last_of-last_entry hex_to_address a up.entries none none registry (λ r e. cc)
                        (sym (up.known a) ∙ known),
                  )
                  refl;
        },
      )
