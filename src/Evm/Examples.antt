-- ===== src/Evm/Examples.antt =====
-- The theorems about evm/ at a small chain: two contracts, three logs, and a node that answers.
mod Progress
mod Lifecycle
use zkcertificates_queue_pro.Base.{
  ℕ, String, ◌+◌, ◌≡◌, refl, subst, Bool, true, none, some, List, [], ◌∷◌, ok, arith, lookup,
  insert, ◌==◌, if◌then◌else◌,
}
use zkcertificates_queue_pro.Base.Int.{ℤ, pos, negsuc, ◌+ℤ◌, ◌-ℤ◌, ◌≤ℤ◌, gap, int64}
use zkcertificates_queue_pro.Evm.Types.{Address, Log, ContractInfo, Service, EthClient}
use zkcertificates_queue_pro.Evm.{new_service, register_contract}
use zkcertificates_queue_pro.Evm.Options.{with_max_block_range, with_block_confirmations}
use zkcertificates_queue_pro.Evm.Scan.{
  process_contract_events, process_chunks, process_chunk, process_logs, process_log, publish,
  update_contract_block, chunk_end_block, filtered_out, unconfirmed,
}
use zkcertificates_queue_pro.Evm.Scan.Ledger.{Ledger, logs_range, IsFaithful}
use zkcertificates_queue_pro.Evm.Scan.Delivery.{ScanOutcome, process_contract_events_lem}
use zkcertificates_queue_pro.Evm.Scan.Confirmations.{IsOfBlock, first, events_at, unconfirmed_lost}
use zkcertificates_queue_pro.Evm.Listen.{IsVisit, scan_contracts, started, round}
use zkcertificates_queue_pro.Evm.Listen.Once.{IsDelivered}
use zkcertificates_queue_pro.Evm.Listen.Runs.{
  IsReady, IsKept, IsFresh-IsDelivered, Leaves, scan_contracts-Leaves, listening_once,
}
use zkcertificates_queue_pro.Evm.Fresh.{
  AreOptions, nil, cons, max_block_range, IsUsable, new_service-IsUsable, register,
  Registers-IsUsable,
}

abbrev log_of : Address → ℕ → Log
log_of a b = record {
  address = a;
  topics = 1 ∷ [];
  block_number = b;
  tx_hash = b + 100;
  payload = [];
}

-- Contract 7 logs in the blocks 5 and 9, contract 8 in block 5.
abbrev chain : Ledger
chain (pos n) =
    if n == 5 then log_of 7 5 ∷ log_of 8 5 ∷ [] else if n == 9 then log_of 7 9 ∷ [] else []
chain (negsuc n) = []

chain-IsOfBlock : (x : ℤ) → IsOfBlock x (chain x)
chain-IsOfBlock (pos n) = ground arith
chain-IsOfBlock (negsuc n) = tt

-- The node at block 10.
abbrev node : EthClient
node = record {
  World = Unit {0};
  dial = λ url w. (ok tt, w);
  chain_id = λ w. (ok (pos 1), w);
  header_by_number = λ w. (ok (pos 10), w);
  filter_logs = λ a from to w. (ok (logs_range chain a from (gap from (to +ℤ pos 1))), w);
}

node-IsFaithful : IsFaithful node chain
node-IsFaithful = record { filter_ok = λ a from to w logs h. cc }

hex_ok : String → Bool
hex_ok s = true

as_seven : String → Address
as_seven s = 7

abbrev options : List (Service → Service)
options = with_max_block_range (some (pos 4)) ∷ []

options-AreOptions : AreOptions hex_ok as_seven options
options-AreOptions = cons (max_block_range (some (pos 4))) nil

abbrev watching : Service
watching =
    register_contract 8 none (register_contract 7 (some (pos 2)) (new_service "evm" "url" options))

new_service-IsUsable_example : IsUsable (new_service "evm" "url" options)
new_service-IsUsable_example = new_service-IsUsable hex_ok as_seven "evm" "url" options-AreOptions

Registers-IsUsable_example :
    IsUsable (register_contract 7 (some (pos 2)) (new_service "evm" "url" options))
Registers-IsUsable_example =
    Registers-IsUsable node (register 7 (some (pos 2)))
      (new_service-IsUsable hex_ok as_seven "evm" "url" options-AreOptions)

watching-IsUsable : IsUsable watching
watching-IsUsable = Registers-IsUsable node (register 8 none) Registers-IsUsable_example

watching_plain : watching.confirmations ≡ 0
unfolding new_service register_contract with_max_block_range
watching_plain = refl

abbrev seven : ContractInfo
seven = record { address = 7; start_block = pos 2; current_block = pos 2 }

watching_seven : lookup 7 watching.contracts ≡ some seven
unfolding new_service register_contract with_max_block_range
watching_seven = refl

watching-IsReady : IsReady chain watching
unfolding new_service register_contract with_max_block_range
watching-IsReady = record {
  plain = refl;
  range = omega arith;
  delivered = IsFresh-IsDelivered chain watching watching-IsUsable.fresh;
}

-- A scan of contract 7 in chunks of four blocks publishes its two logs.
scan_seven :
    process_contract_events node watching seven tt
    ≡ some (
      record watching {
        contracts = insert 7 (record seven { current_block = pos 10 }) watching.contracts;
        bus =
            record { contract = 7; event = log_of 7 5 }
            ∷ record { contract = 7; event = log_of 7 9 }
            ∷ [];
      },
      tt,
    )
unfolding new_service register_contract with_max_block_range process_contract_events process_chunks
    process_chunk process_logs process_log publish update_contract_block chunk_end_block
    filtered_out unconfirmed ◌+ℤ◌ ◌-ℤ◌ logs_range int64
scan_seven = refl

process_contract_events_lem_example :
    ScanOutcome node chain watching seven tt (process_contract_events node watching seven tt)
unfolding new_service register_contract with_max_block_range
process_contract_events_lem_example =
    process_contract_events_lem node chain node-IsFaithful watching seven tt (omega arith)
      watching_seven

abbrev eight : ContractInfo
eight = record { address = 8; start_block = pos 0; current_block = pos 0 }

abbrev visit : List (Address × ContractInfo)
visit = (8, eight) ∷ (7, seven) ∷ []

visit-IsVisit : IsVisit watching.contracts visit
unfolding new_service register_contract with_max_block_range
visit-IsVisit = (refl, ((λ e. absurd (omega arith)), tt), (refl, tt, tt))

scan_contracts-Leaves_example :
    Leaves node chain node-IsFaithful (IsKept watching) (scan_contracts node visit watching tt)
scan_contracts-Leaves_example =
    scan_contracts-Leaves node chain node-IsFaithful visit watching tt watching-IsReady
      visit-IsVisit

abbrev after_round : Service
after_round = scan_contracts-Leaves_example.0

listening_once_example : IsDelivered chain after_round
listening_once_example =
    listening_once node chain node-IsFaithful watching_plain watching-IsReady.range
      watching-IsUsable.fresh
      (round visit tt scan_contracts-Leaves_example.1 started visit-IsVisit
        scan_contracts-Leaves_example.2)

-- With three confirmations asked for, the log of block 9 is passed by at block 10.
abbrev careful : Service
careful = with_block_confirmations 3 watching

abbrev careful_after : Service
careful_after = record careful {
  contracts = insert 7 (record seven { current_block = pos 10 }) watching.contracts;
  bus = record { contract = 7; event = log_of 7 5 } ∷ [];
}

scan_careful : process_contract_events node careful seven tt ≡ some (careful_after, tt)
unfolding new_service register_contract with_max_block_range with_block_confirmations
    process_contract_events process_chunks process_chunk process_logs process_log publish
    update_contract_block chunk_end_block filtered_out unconfirmed ◌+ℤ◌ ◌-ℤ◌ logs_range int64
scan_careful = refl

careful_seven : lookup 7 careful_after.contracts ≡ some (record seven { current_block = pos 10 })
unfolding new_service register_contract with_max_block_range with_block_confirmations
careful_seven = refl

careful_past :
    (i : ContractInfo) → lookup 7 careful_after.contracts ≡ some i → pos 9 ≤ℤ i.current_block
careful_past i e =
    let same : record seven { current_block = pos 10 } ≡ i = cc careful_seven in
    subst (λ (x : ContractInfo). pos 9 ≤ℤ x.current_block) same (omega arith)

unconfirmed_lost_example : events_at 9 careful_after.bus ≡ events_at 9 careful.bus
unfolding new_service register_contract with_max_block_range with_block_confirmations
unconfirmed_lost_example =
    unconfirmed_lost node chain node-IsFaithful chain-IsOfBlock careful careful_after careful_after
      seven tt tt 9 10 (omega arith) (omega arith) (omega arith) (omega arith) (omega arith) refl
      refl scan_careful careful_past first
