-- ===== src/App.antt =====
-- main.go: the registries of the config file, the contracts that the listener is given, and the
-- subscriber that turns a published log into a queued operation.
pub mod Starts
pub mod Loading
pub mod Startup
pub mod Pipeline
pub mod EndToEnd
pub mod Services
pub mod Program
mod Examples
use zkcertificates_queue_pro.Base.{
  ℕ, String, Option, none, some, List, [], ◌∷◌, ◌++◌, map, Result, ok, err, lookup, insert,
}
use text.Mathlib.Text.{◌==◌ as str_eq}
use zkcertificates_queue_pro.Base.{Bool, if◌then◌else◌}
use zkcertificates_queue_pro.Base.Int.{ℤ, pos, ◌-ℤ◌}
use zkcertificates_queue_pro.Evm.Types.{Address, Hash, Log, ContractEvent, EthClient}
use zkcertificates_queue_pro.Evm.Types as Evm
use zkcertificates_queue_pro.Evm.{new_service, register_contract, register_contract_from_current}
use zkcertificates_queue_pro.Processor.Types.{OperationQueuedEvent, RegistryConfig}
use zkcertificates_queue_pro.Processor.Types as Processor
use zkcertificates_queue_pro.Sentry.{Report, capture_error}
use zkcertificates_queue_pro.Processor.Setup.{
  Environment, or_default, new_service_with_multiple_registries, set_private_key,
}

-- One element of `Config.Registries`.
pub record RegistryEntry : Type 0 where
  pub name : String
  pub address : String
  pub start_block : Option ℕ

-- What `ParseOperationQueued` of the contract's bindings reads off a log.
pub record OperationQueued : Type 0 where
  pub zk_certificate_leaf_hash : Hash
  pub guardian : Address
  pub operation : ℕ
  pub queue_index : ℕ

-- `main` keeps three maps with the same keys: the contract (bound to its address), the name and the
-- start block of each registry that could be loaded.
pub record Loaded : Type 0 where
  pub name : String
  pub start_block : Option ℕ

module _ (hex_to_address : String → Address) where
  unfoldable pub registry_config : RegistryEntry → RegistryConfig
  registry_config entry = record { name = entry.name; address = hex_to_address entry.address }

module _ (env : Environment) (hex_to_address : String → Address) where
  load_registry :
      RegistryEntry → Result (Unit {0}) → List (Address × Loaded) → List (Address × Loaded)
  load_registry entry (err e) loaded = loaded
  load_registry entry (ok _) loaded =
      insert (hex_to_address entry.address)
        (record { name = entry.name; start_block = entry.start_block }) loaded

  unfoldable pub load_registries :
      List RegistryEntry → List (Address × Loaded) → List (Address × Loaded)
  unfolding load_registry
  load_registries [] loaded = loaded
  load_registries (entry ∷ entries) loaded =
      load_registries entries (
        load_registry entry (env.new_zk_certificate_registry (hex_to_address entry.address)) loaded)

module _ (parse_operation_queued : Address → Log → Result OperationQueued) where
  relay_parsed : ContractEvent → Loaded → Result OperationQueued → List OperationQueuedEvent
  relay_parsed event registry (err e) = []
  relay_parsed event registry (ok operation) =
      record {
        registry_address = event.contract;
        registry_name = registry.name;
        zk_certificate_leaf_hash = operation.zk_certificate_leaf_hash;
        guardian = operation.guardian;
        operation = operation.operation;
        queue_index = operation.queue_index;
      }
      ∷ []

  relay_known : ContractEvent → Option Loaded → List OperationQueuedEvent
  unfolding relay_parsed
  relay_known event none = []
  relay_known event (some registry) =
      relay_parsed event registry (parse_operation_queued event.contract event.event)

  -- What the subscriber publishes for one event of the listener.
  unfoldable pub relay : List (Address × Loaded) → ContractEvent → List OperationQueuedEvent
  unfolding relay_known
  relay loaded event = relay_known event (lookup event.contract loaded)

  -- And for the events that the listener published, in their order.
  unfoldable pub relay_all :
      List (Address × Loaded) → List ContractEvent → List OperationQueuedEvent
  unfolding relay
  relay_all loaded [] = []
  relay_all loaded (event ∷ events) = relay loaded event ++ relay_all loaded events

module _ (c : EthClient) (init_block_height : Address → c.World → Result ℕ × c.World) where
  open c use {World}

  from_contract : Address → Result ℕ → Evm.Service → World → Evm.Service × World
  from_contract address (err e) s w = register_contract_from_current c address s w
  from_contract address (ok height) s w =
      (register_contract address (some (pos height -ℤ pos 1)) s, w)

  register_registry : Address → Option ℕ → Evm.Service → World → Evm.Service × World
  unfolding from_contract
  register_registry address (some block) s w = (register_contract address (some (pos block)) s, w)
  register_registry address none s w =
      let (height, w') = init_block_height address w in from_contract address height s w'

  -- `for address, registry := range registryContracts`, in the order that the range clause takes.
  unfoldable pub register_registries :
      List (Address × Loaded) → Evm.Service → World → Evm.Service × World
  unfolding register_registry
  register_registries [] s w = (s, w)
  register_registries ((address, registry) ∷ rest) s w =
      let (s', w') = register_registry address registry.start_block s w in
      register_registries rest s' w'

abbrev pub evm_rpc_url : Environment → String
evm_rpc_url env =
    or_default "https://galactica-cassiopeia.g.alchemy.com/public" (env.getenv "EVM_RPC_URL")

abbrev pub config_file : Environment → String
config_file env = or_default "config.yaml" (env.getenv "CONFIG_FILE")

-- An invalid key is logged, and the processor runs without one.
key_or_none : Processor.Service → Result Processor.Service → Processor.Service
key_or_none p (err e) = p
key_or_none p (ok keyed) = keyed

unfoldable pub configure_key : Environment → Processor.Service → Processor.Service
unfolding key_or_none
configure_key env p =
    if str_eq (env.getenv "PRIVATE_KEY") ""
    then p
    else key_or_none p (set_private_key env (env.getenv "PRIVATE_KEY") p)

-- How `main` comes to its end or to `StartAll`: the two services that it made and the map of the loaded
-- registries, or the reports sent to Sentry before it exits with code 1.
pub data Launch : Type 0 where
  starts :
      (evm_service : Evm.Service) (queue_processor : Processor.Service)
      (loaded : List (Address × Loaded))
      → Launch
  exits : (reports : List Report) → Launch

-- `CaptureError(err, tags)`, and the exit.
unfoldable pub fail_with : String → List (String × String) → Launch
unfolding capture_error
fail_with e tags = exits (capture_error (some e) tags)

abbrev pub config_tags : Environment → List (String × String)
config_tags env = ("location", "config") ∷ ("file", config_file env) ∷ []

abbrev pub client_tags : Environment → List (String × String)
client_tags env = ("location", "eth_client") ∷ ("url", evm_rpc_url env) ∷ []

abbrev pub processor_tags : List (String × String)
processor_tags = ("location", "queue_processor_init") ∷ []

-- `read_file` is that of os and `unmarshal` that of yaml; `order` is the order of the range clause over
-- the map of the loaded contracts.
module _ (env : Environment) (c : EthClient)
    (init_block_height : Address → c.World → Result ℕ × c.World) (hex_to_address : String → Address)
    (read_file : String → Result (List ℕ)) (unmarshal : List ℕ → Result (List RegistryEntry))
    (order : List (Address × Loaded) → List (Address × Loaded)) where
  open c use {World}

  with_processor :
      List (Address × Loaded) → Evm.Service × World → Result Processor.Service → Launch × World
  unfolding fail_with
  with_processor loaded (s, w) (err e) = (fail_with e processor_tags, w)
  with_processor loaded (s, w) (ok p) = (starts s (configure_key env p) loaded, w)

  -- From the connected client on.
  with_client : List RegistryEntry → Result (Unit {0}) → World → Launch × World
  unfolding with_processor fail_with
  with_client entries (err e) w = (fail_with e (client_tags env), w)
  with_client entries (ok _) w =
      let loaded = load_registries env hex_to_address entries [] in
      let (s, w') =
        register_registries c init_block_height (order loaded)
          (new_service "evm" (evm_rpc_url env) []) w in
      let (chain_id, w'') = c.chain_id w' in
      with_processor loaded (s, w'')
        (new_service_with_multiple_registries env "queue-processor"
          (map (registry_config hex_to_address) entries) chain_id)

  with_config : Result (List RegistryEntry) → World → Launch × World
  unfolding with_client fail_with
  with_config (err e) w = (fail_with e (config_tags env), w)
  with_config (ok []) w = (fail_with "no registries configured in config file" (config_tags env), w)
  with_config (ok (entry ∷ entries)) w =
      let (dialed, w') = c.dial (evm_rpc_url env) w in with_client (entry ∷ entries) dialed w'

  with_data : Result (List ℕ) → World → Launch × World
  unfolding with_config fail_with
  with_data (err e) w = (fail_with e (config_tags env), w)
  with_data (ok bytes) w = with_config (unmarshal bytes) w

  -- `main` up to `StartAll`.
  unfoldable pub start : World → Launch × World
  unfolding with_data
  start w = with_data (read_file (config_file env)) w
