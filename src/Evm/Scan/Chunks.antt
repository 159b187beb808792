-- ===== src/Evm/Scan/Chunks.antt =====
-- One turn of the chunk loop of `processContractEvents`.
use mathlib.Core.Option
use zkcertificates_queue_pro.Base.{
  ◌≡◌, refl, ◌⊎◌, inl, inr, String, some, List, [], ◌∷◌, ◌++◌, map, append_assoc, append-nil, err,
  Result-cases, Bool-cases, arith, keep_if, lookup, ◌==◌, if◌then◌else◌,
}
use zkcertificates_queue_pro.Base.Int.{ℤ, pos, ◌+ℤ◌, ◌-ℤ◌, ◌≤ℤ◌, ltb_ℤ, gap, int_laws}
use zkcertificates_queue_pro.Evm.Types.{Address, Log, ContractInfo, Service, EthClient}
use zkcertificates_queue_pro.Evm.Scan.{
  process_log, process_logs, publish, set_block, update_contract_block, chunk_end_block, Turn,
  stopped, advanced, process_chunk,
}
use zkcertificates_queue_pro.Evm.Scan.Ledger.{Ledger, logs_range, IsFaithful, accepts, to_event}

-- The service after the logs of some blocks are published and the cursor is moved to `stop`.
abbrev pub delivered : Service → Address → ℤ → List Log → ℤ → Service
delivered s address header logs stop = record s {
  contracts = set_block address stop s.contracts;
  bus = s.bus ++ map to_event (keep_if (accepts s.event_filters s.confirmations header) logs);
}

pub process_logs_lem :
    (header : ℤ) (s : Service) (logs : List Log)
    → process_logs header s logs ≡ record s {
      bus = s.bus ++ map to_event (keep_if (accepts s.event_filters s.confirmations header) logs);
    }
unfolding process_logs process_log publish
process_logs_lem header s [] = ground (arith, append-nil s.bus)
process_logs_lem header s (l ∷ logs) = ground (
  arith,
  process_logs_lem header s logs,
  process_logs_lem header (publish l s) logs,
  append_assoc s.bus (to_event l ∷ [])
      (map to_event (keep_if (accepts s.event_filters s.confirmations header) logs)),
)

-- A chunk is not empty, and stays within the blocks asked for and the limit of the node.
pub chunk_end_bounds :
    (r from to : ℤ)
    → pos 1 ≤ℤ r
    → from ≤ℤ to
    → (from ≤ℤ chunk_end_block r from to)
      × (chunk_end_block r from to ≤ℤ to)
      × (chunk_end_block r from to +ℤ pos 1 ≤ℤ from +ℤ r)
unfolding chunk_end_block
chunk_end_bounds r from to h k = elim (Bool-cases (ltb_ℤ to (from +ℤ (r -ℤ pos 1)))) [
  | inl over ↦ rw over (k, omega arith, omega int_laws)
  | inr fits ↦ rw fits (omega int_laws, omega int_laws, omega int_laws)
]

pub set_block_twice :
    (a : Address) (b d : ℤ) (m : List (Address × ContractInfo))
    → set_block a d (set_block a b m) ≡ set_block a d m
unfolding set_block
set_block_twice a b d [] = refl
set_block_twice a b d ((j, info) ∷ m) = ground (arith, set_block_twice a b d m)

pub set_block_same :
    (a : Address) (info : ContractInfo) (m : List (Address × ContractInfo))
    → lookup a m ≡ some info
    → set_block a info.current_block m ≡ m
unfolding set_block
set_block_same a info [] h = refl
set_block_same a info ((j, i) ∷ m) h = ground (arith, set_block_same a info m)

pub lookup-set_block :
    (a j : Address) (b : ℤ) (m : List (Address × ContractInfo))
    → lookup j (set_block a b m) ≡ (
        if a == j
        then Option.map (λ (i : ContractInfo). record i { current_block = b }) (lookup j m)
        else lookup j m)
unfolding set_block
lookup-set_block a j b [] = ground arith
lookup-set_block a j b ((i, info) ∷ m) = ground (arith, lookup-set_block a j b m)

module _ (c : EthClient) (ledger : Ledger) where
  open c use {World, filter_logs}

  -- The turn ends in an error of the node, or delivers its blocks.
  abbrev pub TurnOf : Service → Address → ℤ → ℤ → ℤ → World → Turn c → Type 0
  TurnOf s address header from last w t =
      let end = chunk_end_block s.max_block_range from header in
      ((e : String) × (w' : World) × ((filter_logs address from end w).0 ≡ err e)
        × (t ≡ stopped (update_contract_block address last s) w'))
      ⊎ ((w' : World) × (t
            ≡ advanced
                (delivered s address header
                  (logs_range ledger address from (gap from (end +ℤ pos 1))) end)
                w'))

  pub process_chunk-TurnOf :
      (faithful : IsFaithful c ledger) (s : Service) (address : Address) (header from last : ℤ)
      (w : World)
      → TurnOf s address header from last w (process_chunk c s address header from last w)
  unfolding process_chunk update_contract_block
  process_chunk-TurnOf faithful s address header from last w =
      let end = chunk_end_block s.max_block_range from header in
      let (r, w') = filter_logs address from end w in
      elim (Result-cases r) [
        | inl (logs, e) ↦
            inr (w', rw (e, process_logs_lem, ← faithful.filter_ok address from end w logs e))
        | inr (e, p) ↦ inl (e, w', p, rw p)
      ]
