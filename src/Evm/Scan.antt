-- ===== src/Evm/Scan.antt =====
-- evm/evm.go: the scan of the chain for one contract, and a round over all contracts.
pub mod Ledger
pub mod Chunks
pub mod Delivery
pub mod Confirmations
pub mod Progress
pub mod Queries
use zkcertificates_queue_pro.Base.{
  ℕ, zero, suc, Bool, true, false, not, Option, none, some, List, [], ◌∷◌, ◌++◌, Result, ok, err,
  ltb, ◌==◌, if◌then◌else◌, lookup,
}
use zkcertificates_queue_pro.Base.Int.{ℤ, pos, ◌+ℤ◌, ◌-ℤ◌, leb_ℤ, ltb_ℤ, gap, int64}
use zkcertificates_queue_pro.Evm.Types.{Address, Hash, Log, ContractInfo, Service, EthClient}

-- `s.eventFilters[topic]`: a topic that is not there reads as false.
is_set : Option Bool → Bool
is_set none = false
is_set (some b) = b

matches_filter : List (Hash × Bool) → List Hash → Bool
unfolding is_set
matches_filter filters [] = false
matches_filter filters (topic ∷ rest) =
    if is_set (lookup topic filters) then true else matches_filter filters rest

-- `len(filters) > 0` and no topic of the log is set.
unfoldable pub filtered_out : List (Hash × Bool) → Log → Bool
unfolding matches_filter
filtered_out [] log = false
filtered_out (f ∷ filters) log = not (matches_filter (f ∷ filters) log.topics)

-- Fewer confirmations than asked for, in the arithmetic of `big.Int` after the cast to int64.
unfoldable pub unconfirmed : ℕ → ℤ → Log → Bool
unconfirmed confirmations header log =
    if ltb 0 confirmations
    then ltb_ℤ (header -ℤ int64 log.block_number) (int64 confirmations)
    else false

unfoldable pub publish : Log → Service → Service
publish log s = record s { bus = s.bus ++ record { contract = log.address; event = log } ∷ [] }

-- The body of the loop over the logs of a chunk.
unfoldable pub process_log : ℤ → Service → Log → Service
process_log header s log =
    if filtered_out s.event_filters log
    then s
    else if unconfirmed s.confirmations header log
    then s
    else publish log s

unfoldable pub process_logs : ℤ → Service → List Log → Service
process_logs header s [] = s
process_logs header s (log ∷ logs) = process_logs header (process_log header s log) logs

-- The map holds pointers, so the entry is changed in place; a missing one is left out.
unfoldable pub set_block :
    Address → ℤ → List (Address × ContractInfo) → List (Address × ContractInfo)
set_block address block [] = []
set_block address block ((a, info) ∷ rest) =
    if a == address
    then (a, record info { current_block = block }) ∷ rest
    else (a, info) ∷ set_block address block rest

unfoldable pub update_contract_block : Address → ℤ → Service → Service
unfolding set_block
update_contract_block address block s = record s { contracts = set_block address block s.contracts }

unfoldable pub chunk_end_block : ℤ → ℤ → ℤ → ℤ
chunk_end_block max_range from to =
    let chunk_end = from +ℤ (max_range -ℤ pos 1) in if ltb_ℤ to chunk_end then to else chunk_end

module _ (c : EthClient) where
  open c use {World, header_by_number, filter_logs}

  -- How one turn of the chunk loop ends: by the return on an error, or at the next turn.
  pub data Turn : Type 0 where
    stopped : Service → World → Turn
    advanced : Service → World → Turn

  after_query : Service → Address → ℤ → ℤ → ℤ → Result (List Log) → World → Turn
  after_query s address header last chunk_end (err e) w =
      stopped (update_contract_block address last s) w
  after_query s address header last chunk_end (ok logs) w =
      advanced (update_contract_block address chunk_end (process_logs header s logs)) w

  unfoldable pub process_chunk : Service → Address → ℤ → ℤ → ℤ → World → Turn
  unfolding after_query
  process_chunk s address header from last w =
      let chunk_end = chunk_end_block s.max_block_range from header in
      let (r, w') = filter_logs address from chunk_end w in
      after_query s address header last chunk_end r w'

  -- `for fromBlock.Cmp(toBlock) <= 0`; `none` means that the fuel ran out.
  unfoldable pub process_chunks :
      ℕ → Service → Address → ℤ → ℤ → ℤ → World → Option (Service × World)
  process_chunks zero s address header from last w = if leb_ℤ from header then none else some (s, w)
  process_chunks (suc fuel) s address header from last w = elim (leb_ℤ from header) [
    | false ↦ some (s, w)
    | true ↦ elim (process_chunk s address header from last w) [
      | stopped s' w' ↦ some (s', w')
      | advanced s' w' ↦
          process_chunks fuel s' address header
            (chunk_end_block s.max_block_range from header +ℤ pos 1)
            (chunk_end_block s.max_block_range from header) w'
    ]
  ]

  scan_to : Service → ContractInfo → Result ℤ → World → Option (Service × World)
  scan_to s info (err e) w = some (s, w)
  scan_to s info (ok header) w =
      if leb_ℤ header info.current_block
      then some (s, w)
      else process_chunks (gap info.current_block header) s info.address header
          (info.current_block +ℤ pos 1) info.current_block w

  -- The fuel is the number of blocks left to scan.
  unfoldable pub process_contract_events : Service → ContractInfo → World → Option (Service × World)
  unfolding scan_to
  process_contract_events s info w = let (r, w') = header_by_number w in scan_to s info r w'
