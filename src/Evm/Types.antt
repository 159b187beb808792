-- ===== src/Evm/Types.antt =====
-- evm/evm.go: the events, the monitored contracts and the service's state, and the node's client.
use zkcertificates_queue_pro.Base.{ℕ, String, Bool, List, Result}
use zkcertificates_queue_pro.Base.Int.{ℤ}

-- `common.Address` and `common.Hash` are the numbers that their bytes stand for.
abbrev pub Address : Type 0
Address = ℕ

abbrev pub Hash : Type 0
Hash = ℕ

-- `types.Log` of go-ethereum; `payload` stands for the data bytes, which the service never reads.
pub record Log : Type 0 where
  pub address : Address
  pub topics : List Hash
  pub block_number : ℕ
  pub tx_hash : Hash
  pub payload : List ℕ

pub record ContractEvent : Type 0 where
  pub contract : Address
  pub event : Log

pub record ContractInfo : Type 0 where
  pub address : Address
  pub start_block : ℤ
  pub current_block : ℤ

-- `client` and `cancel` say whether the pointer is set; `bus` holds what was published on the event
-- bus, the oldest first. The locks guard single steps of this state, and are left out.
pub record Service : Type 0 where
  pub client : Bool
  pub rpc_url : String
  pub name : String
  pub bus : List ContractEvent
  pub contracts : List (Address × ContractInfo)
  pub default_start_block : ℤ
  pub polling_interval : ℤ
  pub confirmations : ℕ
  pub event_filters : List (Hash × Bool)
  pub max_block_range : ℤ
  pub cancel : Bool

-- The Ethereum node's client, of go-ethereum: each call reads the world and may change it.
pub record EthClient : Type 1 where
  pub World : Type 0
  pub dial : String → World → Result (Unit {0}) × World
  pub chain_id : World → Result ℤ × World
  -- The number of the latest block.
  pub header_by_number : World → Result ℤ × World
  -- The logs of one address from one block to another, both included.
  pub filter_logs : Address → ℤ → ℤ → World → Result (List Log) × World
