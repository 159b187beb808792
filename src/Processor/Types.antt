-- ===== src/Processor/Types.antt =====
-- queueprocessor/processor.go: the data of the service, and what it calls outside the repository.
use zkcertificates_queue_pro.Base.{ℕ, String, Bool, Option, List, Result}
use zkcertificates_queue_pro.Base.Int.{ℤ}
use zkcertificates_queue_pro.Evm.Types.{Address, Hash}
use zkcertificates_queue_pro.Logging.Builder.{Output}

-- `iota` from 0 on.
abbrev pub certificate_state_none : ℕ
certificate_state_none = 0

abbrev pub certificate_state_issuance_queued : ℕ
certificate_state_issuance_queued = 1

abbrev pub certificate_state_issuance_merkle_tree_added : ℕ
certificate_state_issuance_merkle_tree_added = 2

abbrev pub certificate_state_revocation_queued : ℕ
certificate_state_revocation_queued = 3

abbrev pub certificate_state_revocation_merkle_tree_added : ℕ
certificate_state_revocation_merkle_tree_added = 4

pub record QueuedOperation : Type 0 where
  pub hash : Hash
  pub guardian : Address
  pub queue_index : ℕ
  pub state : ℕ
  pub is_processing : Bool

pub record OperationQueuedEvent : Type 0 where
  pub registry_address : Address
  pub registry_name : String
  pub zk_certificate_leaf_hash : Hash
  pub guardian : Address
  pub operation : ℕ
  pub queue_index : ℕ

pub record RegistryConfig : Type 0 where
  pub name : String
  pub address : Address

-- The contract is bound to the address; its calls are in `Backend`.
pub record Registry : Type 0 where
  pub name : String
  pub address : Address
  pub current_queue_pointer : ℕ
  pub queue : List QueuedOperation

-- An ECDSA key is the number that it consists of. The clients, the bus and the context are left
-- out, and so are the locks.
pub record Service : Type 0 where
  pub name : String
  pub registries : List (Address × Registry)
  pub is_running : Bool
  pub check_interval : ℤ
  pub merkle_service_url : String
  pub merkle_service_tls : Bool
  pub private_key : Option ℕ
  pub chain_id : ℤ
  pub current_nonce : Option ℕ

-- What `bind.TransactOpts` is filled with here.
pub record TransactOpts : Type 0 where
  pub from : Address
  pub nonce : ℤ
  pub gas_limit : ℕ

-- `CertificateData` of the contract's bindings.
pub record CertificateData : Type 0 where
  pub guardian : Address
  pub queue_index : ℕ
  pub state : ℕ

-- The clients that the service calls: the contracts' bindings (which turn uint256 and bytes32
-- values into numbers), the node, the merkle proof service, the clock and the random source. Each
-- call reads the world and may change it. The last seven are pure functions
-- of Go's hex package, of go-ethereum and of the merkle package.
pub record Backend : Type 1 where
  pub World : Type 0
  pub Element : Type 0
  pub current_queue_pointer : Address → World → Result ℕ × World
  pub get_zk_certificate_queue_length : Address → World → Result ℕ × World
  pub zk_certificate_queue : Address → ℕ → World → Result Hash × World
  pub zk_certificate_processing_data : Address → Hash → World → Result CertificateData × World
  pub is_zk_certificate_in_turn : Address → Hash → World → Result Bool × World
  pub process_next_operation :
      Address → TransactOpts → ℤ → Hash → List Hash → World → Result Hash × World
  pub pending_nonce_at : Address → World → Result ℕ × World
  pub get_empty_leaf_proof : String → World → Result (ℕ × List Element) × World
  pub get_proof : String → String → World → Result (ℕ × List Element) × World
  pub now : World → ℕ × World
  pub sleep : ℤ → World → World
  pub rand_read : ℕ → World → List ℕ × World
  pub encode_to_string : List ℕ → String
  pub bytes32 : Element → Hash
  pub hex : Address → String
  pub hash_hex : Hash → String
  -- `String` of `big.Int`.
  pub big_int_string : ℕ → String
  pub bytes_to_hex : Hash → String
  pub key_address : ℕ → Address
  pub new_keyed_transactor : ℕ → ℤ → Result Address

-- One call of `ProcessNextOperation` with its answer: a transaction's hash, or an error.
pub record Sent : Type 0 where
  pub contract : Address
  pub opts : TransactOpts
  pub leaf_index : ℤ
  pub zk_certificate_hash : Hash
  pub merkle_proof : List Hash
  pub answer : Result Hash

-- The service, the world, the transactions it asked the node for and what it logged, in order.
pub record State (W : Type 0) : Type 0 where
  pub service : Service
  pub world : W
  pub sent : List Sent
  pub outputs : List Output

abbrev pub Act : Type 0 → Type 0 → Type 0
Act W A = State W → A × State W
