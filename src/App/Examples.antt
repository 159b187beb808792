-- ===== src/App/Examples.antt =====
-- The theorem about `start` of main.go at one registry.
mod Services
mod Program
use zkcertificates_queue_pro.Base.{
  ℕ, String, ◌≡◌, ◌⊎◌, refl, sym, ap, inl, inr, some, List, [], ◌∷◌, Result, ok, err, lookup, ◌==◌,
  if◌then◌else◌,
}
use zkcertificates_queue_pro.Base.Int.{pos, negsuc, ◌+ℤ◌, gap, int_laws}
use zkcertificates_queue_pro.Evm.Types.{Address, Log, ContractInfo, EthClient}
use zkcertificates_queue_pro.Evm.Types as Evm
use zkcertificates_queue_pro.Evm.Scan.Ledger.{Ledger, logs_range, IsFaithful}
use zkcertificates_queue_pro.Evm.Listen.{IsVisit, scan_contracts, Listening, started, round}
use zkcertificates_queue_pro.Evm.Listen.Runs.{
  IsReady, IsKept, Leaves, IsFresh-IsDelivered, scan_contracts-Leaves,
}
use zkcertificates_queue_pro.Processor.Types as Processor
use zkcertificates_queue_pro.Processor.Setup.{Environment, new_service_with_multiple_registries}
use zkcertificates_queue_pro.App.{
  RegistryEntry, OperationQueued, Loaded, Launch, starts, exits, fail_with, load_registries,
  relay_all, start,
}
use zkcertificates_queue_pro.App.Starts.{start_from, entry_at}
use zkcertificates_queue_pro.App.Loading.{IsRange}
use zkcertificates_queue_pro.App.Startup.{Exits, SetUp, start-SetUp}
use zkcertificates_queue_pro.Processor.Queue.Memory.{handle_all}
use zkcertificates_queue_pro.App.EndToEnd.{HoldsChain, handle_all-start}

abbrev chain : Ledger
chain (pos n) =
    if n == 5
    then record { address = 7; topics = 1 ∷ []; block_number = 5; tx_hash = 105; payload = [] } ∷ []
    else []
chain (negsuc n) = []

abbrev node : EthClient
node = record {
  World = Unit {0};
  dial = λ url w. (ok tt, w);
  chain_id = λ w. (ok (pos 1), w);
  header_by_number = λ w. (ok (pos 10), w);
  filter_logs = λ a from to w. (ok (logs_range chain a from (gap from (to +ℤ pos 1))), w);
}

node-IsFaithful : IsFaithful node chain
node-IsFaithful = record { filter_ok = λ a from to w logs h. cc }

abbrev env : Environment
env = record {
  getenv = λ name. "";
  new_zk_certificate_registry = λ a. ok tt;
  parse_bool = λ text. err "invalid syntax";
  connect_to_merkle_proof_service = λ url tls. ok tt;
  hex_to_ecdsa = λ text. err "invalid length";
}

abbrev entries : List RegistryEntry
entries = record { name = "kyc"; address = "0x07"; start_block = some 2 } ∷ []

abbrev seven : String → Address
seven text = 7

abbrev height : Address → Unit {0} → Result ℕ × Unit {0}
height a w = (ok 3, w)

abbrev file : String → Result (List ℕ)
file name = ok (114 ∷ [])

abbrev config : List ℕ → Result (List RegistryEntry)
config bytes = ok entries

abbrev in_order : List (Address × Loaded) → List (Address × Loaded)
in_order m = m

in_order-IsRange : IsRange in_order
in_order-IsRange = record { distinct = λ m d. d; same = λ m a d. refl }

abbrev parse : Address → Log → Result OperationQueued
parse a log = ok (record {
  zk_certificate_leaf_hash = log.tx_hash;
  guardian = 3;
  operation = 1;
  queue_index = 0;
})

abbrev end : Launch
end = (start env node height seven file config in_order tt).0

start-SetUp_example :
    SetUp env node height seven file config in_order end
    ⊎ Exits env node height seven file config in_order end
start-SetUp_example = start-SetUp env node height seven file config in_order tt in_order-IsRange

abbrev kyc : Loaded
kyc = record { name = "kyc"; start_block = some 2 }
