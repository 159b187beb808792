-- ===== src/Evm.antt =====
-- evm/evm.go: the service's operations, but for its scan of the chain (Evm/Scan.antt).
pub mod Types
pub mod Options
pub mod Fresh
pub mod Scan
pub mod Listen
pub mod Lifecycle
mod Examples
use zkcertificates_queue_pro.Base.{
  ℕ, String, ◌≡◌, Bool, true, false, Option, none, some, List, [], ◌∷◌, Result, ok, err, insert,
  erase,
}
use zkcertificates_queue_pro.Base.Int.{ℤ, pos}
use zkcertificates_queue_pro.Evm.Types.{Address, ContractInfo, Service, EthClient}

unfoldable pub default_service : String → String → Service
default_service name rpc_url = record {
  client = false;
  rpc_url = rpc_url;
  name = name;
  bus = [];
  contracts = [];
  default_start_block = pos 0;
  polling_interval = pos 5_000_000_000;
  confirmations = 0;
  event_filters = [];
  max_block_range = pos 10_000;
  cancel = false;
}

-- `for _, opt := range opts { opt(s) }`
unfoldable pub apply_options : List (Service → Service) → Service → Service
apply_options [] s = s
apply_options (opt ∷ opts) s = apply_options opts (opt s)

unfoldable pub new_service : String → String → List (Service → Service) → Service
unfolding default_service apply_options
new_service name rpc_url opts = apply_options opts (default_service name rpc_url)

abbrev pub watch_from : Address → ℤ → Service → Service
watch_from address block s = record s {
  contracts =
      insert address (record { address = address; start_block = block; current_block = block })
        s.contracts;
}

-- `nil` for a start block means the default one.
unfoldable pub register_contract : Address → Option ℤ → Service → Service
register_contract address none s = watch_from address s.default_start_block s
register_contract address (some block) s = watch_from address block s

pub unregister_contract : Address → Service → Service
unregister_contract address s = record s { contracts = erase address s.contracts }

module _ (c : EthClient) where
  open c use {World, header_by_number}

  current_or_zero : Result ℤ → ℤ
  current_or_zero (ok number) = number
  current_or_zero (err e) = pos 0

  -- With no client yet, and when the node does not answer, the current block counts as 0.
  unfoldable pub register_contract_from_current : Address → Service → World → Service × World
  unfolding current_or_zero
  register_contract_from_current address s w = elim s.client [
    | true ↦ (watch_from address (current_or_zero (header_by_number w).0) s, (header_by_number w).1)
    | false ↦ (watch_from address (pos 0) s, w)
  ]
