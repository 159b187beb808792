-- ===== src/App/Examples/Program.antt =====
-- The program of the example, as `main` calls `StartAll`: two operations are on the chain.
mod Run
use zkcertificates_queue_pro.Base.{
  ℕ, ◌≡◌, refl, sym, ap, ◌∙◌, inl, inr, true, false, none, some, List, [], ◌∷◌, ok, err, ◌==◌, ◌+◌,
  if◌then◌else◌,
}
use zkcertificates_queue_pro.Base.Int.{pos, negsuc, ◌+ℤ◌, gap}
use zkcertificates_queue_pro.Evm.Types.{Address, Log, ContractEvent, EthClient}
use zkcertificates_queue_pro.Evm.Scan.Ledger.{Ledger, logs_range, IsFaithful}
use zkcertificates_queue_pro.Evm.Types as Evm
use zkcertificates_queue_pro.Processor.Types as Processor
use zkcertificates_queue_pro.Processor.Types.{Backend}
use zkcertificates_queue_pro.Processor.Setup.{
  Environment, new_service_with_multiple_registries, set_private_key, new_registry,
}
use zkcertificates_queue_pro.Evm.{new_service, register_contract}
use zkcertificates_queue_pro.App.{
  Loaded, Launch, starts, exits, load_registries, start, register_registries, configure_key,
  registry_config,
}
use zkcertificates_queue_pro.App.Startup.{SetUp, start-SetUp}
use zkcertificates_queue_pro.App.Services.{evm_service, queue_processor, service_manager}
use zkcertificates_queue_pro.App.Program.{Program}
use zkcertificates_queue_pro.App.Program.Sound.{IsSetUp}
use zkcertificates_queue_pro.Evm.Lifecycle as Listener
use zkcertificates_queue_pro.App.Examples.{
  node, seven, height, file, config, in_order, in_order-IsRange, parse, kyc,
}

abbrev log_at : ℕ → Log
log_at n = record {
  address = 7;
  topics = 1 ∷ [];
  block_number = n;
  tx_hash = 100 + n;
  payload = [];
}

abbrev event_at : ℕ → ContractEvent
event_at n = record { contract = 7; event = log_at n }

-- Two logs, in the blocks 5 and 8.
abbrev ledger : Ledger
ledger (pos n) = if n == 5 then log_at 5 ∷ [] else (if n == 8 then log_at 8 ∷ [] else [])
ledger (negsuc n) = []

abbrev client : EthClient
client = record node {
  filter_logs = λ a from to w. (ok (logs_range ledger a from (gap from (to +ℤ pos 1))), w);
}

client-IsFaithful : IsFaithful client ledger
client-IsFaithful = record { filter_ok = λ a from to w logs h. cc }

-- The contract and the node answer that item 0 is due, and take each transaction.
abbrev accepting : Backend
accepting = record {
  World = Unit {0};
  Element = ℕ;
  current_queue_pointer = λ a w. (ok 0, w);
  get_zk_certificate_queue_length = λ a w. (ok 2, w);
  zk_certificate_queue = λ a i w. (ok 105, w);
  zk_certificate_processing_data =
      λ a h w. (ok (record { guardian = 3; queue_index = 0; state = 1 }), w);
  is_zk_certificate_in_turn = λ a h w. (ok true, w);
  process_next_operation = λ a opts leaf h proof w. (ok 77, w);
  pending_nonce_at = λ a w. (ok 9, w);
  get_empty_leaf_proof = λ a w. (ok (6, 11 ∷ 12 ∷ []), w);
  get_proof = λ a leaf w. (err "no such leaf", w);
  now = λ w. (0, w);
  sleep = λ t w. w;
  rand_read = λ n w. (10 ∷ 27 ∷ 44 ∷ 61 ∷ [], w);
  encode_to_string = λ bytes. "0a1b2c3d";
  bytes32 = λ e. e;
  hex = λ a. "0xaddress";
  hash_hex = λ h. "0xhash";
  big_int_string = λ n. "105";
  bytes_to_hex = λ h. "hash";
  key_address = λ k. 500;
  new_keyed_transactor = λ k id. ok 500;
}

abbrev keyed : Environment
keyed = record {
  getenv = λ name. "ab";
  new_zk_certificate_registry = λ a. ok tt;
  parse_bool = λ text. ok true;
  connect_to_merkle_proof_service = λ url tls. ok tt;
  hex_to_ecdsa = λ text. ok 42;
}

abbrev watching : Evm.Service
watching = record {
  client = false;
  rpc_url = "ab";
  name = "evm";
  bus = [];
  contracts = (7, record { address = 7; start_block = pos 2; current_block = pos 2 }) ∷ [];
  default_start_block = pos 0;
  polling_interval = pos 5_000_000_000;
  confirmations = 0;
  event_filters = [];
  max_block_range = pos 10_000;
  cancel = false;
}

abbrev queueing : Processor.Service
queueing = record {
  name = "queue-processor";
  registries =
      (7, record { name = "kyc"; address = 7; current_queue_pointer = 0; queue = [] }) ∷ [];
  is_running = false;
  check_interval = pos 10_000_000_000;
  merkle_service_url = "ab";
  merkle_service_tls = true;
  private_key = some 42;
  chain_id = pos 1;
  current_nonce = none;
}

made :
    (start keyed client height seven file config in_order tt).0
    ≡ starts watching queueing ((7, kyc) ∷ [])
unfolding start new_service_with_multiple_registries load_registries register_registries
    set_private_key new_registry register_contract configure_key new_service registry_config
made = refl

set_up :
    SetUp keyed client height seven file config in_order
      (start keyed client height seven file config in_order tt).0
set_up = elim (start-SetUp keyed client height seven file config in_order tt in_order-IsRange) [
  | inl up ↦ up
  | inr (e, tags, failed, _) ↦ let made' = made in cc
]

abbrev parts : Launch → Evm.Service × Processor.Service × List (Address × Loaded)
parts (starts s p loaded) = (s, p, loaded)
parts (exits reports) = (watching, queueing, [])

made_lem :
    parts (starts watching queueing ((7, kyc) ∷ []))
    ≡ (set_up.evm_service, set_up.queue_processor, set_up.loaded)
made_lem = ap parts (sym made ∙ set_up.same)

abbrev begin : Program client accepting
begin = record {
  process = record {
    http_started = false;
    evm = record {
      service = watching;
      world = tt;
      contexts = 0;
      cancels = none;
      cancelled = [];
      listeners = [];
      closed = false;
      reports = [];
    };
    processor = record {
      service = queueing;
      event_bus = true;
      subscriptions = 0;
      cancelled = none;
      loops = [];
    };
  };
  starting = service_manager client;
  missed = [];
  heard = [];
  world = tt;
  sent = [];
  outputs = [];
}

begin-IsSetUp :
    IsSetUp keyed client accepting height seven file config in_order parse ledger set_up begin
begin-IsSetUp = record {
  registered = refl;
  evm_service = ap (λ x. x.0) made_lem;
  queue_processor = ap (λ x. x.1) made_lem;
  bus = refl;
  unsubscribed = refl;
  no_loop = refl;
  unheard = (refl, refl);
  unsent = refl;
}
