-- ===== src/Evm/Listen.antt =====
-- evm/evm.go, `listenForEvents`: rounds over the monitored contracts.
pub mod Once
pub mod Runs
pub mod Progress
pub mod Order
use zkcertificates_queue_pro.Base.{ℕ, ◌≡◌, ◌≢◌, Option, none, some, List, [], ◌∷◌, lookup}
use zkcertificates_queue_pro.Evm.Types.{Address, ContractInfo, Service, EthClient}
use zkcertificates_queue_pro.Evm.Scan.{process_contract_events}

-- None of the entries is at the address.
abbrev pub IsOther : Address → List (Address × ContractInfo) → Type 0
IsOther a [] = Unit
IsOther a ((j, _) ∷ rest) = (a ≢ j) × IsOther a rest

-- Every entry is one of the map, and no address comes twice: what a range clause over a Go map
-- visits, in an order that the language leaves open.
abbrev pub IsVisit : List (Address × ContractInfo) → List (Address × ContractInfo) → Type 0
IsVisit m [] = Unit
IsVisit m ((a, info) ∷ rest) = (lookup a m ≡ some info) × IsOther a rest × IsVisit m rest

module _ (c : EthClient) where
  open c use {World}

  -- `for _, contractInfo := range contracts` over copies that were made when the round began.
  -- A cancelled context ends the round early: then the list is what was visited up to there.
  unfoldable pub scan_contracts :
      List (Address × ContractInfo) → Service → World → Option (Service × World)
  scan_contracts [] s w = some (s, w)
  scan_contracts ((_, info) ∷ rest) s w = elim (process_contract_events c s info w) [
    | none ↦ none
    | some (s', w') ↦ scan_contracts rest s' w'
  ]

  -- The listener from its start on: any number of rounds, each over a snapshot of the map. The
  -- waits between rounds change nothing of the service, but other users of the node may act.
  pub data Listening (s : Service) : Service → Type 0 where
    started : Listening s s
    round :
        {t u : Service} (visit : List (Address × ContractInfo)) (w w' : World)
        → Listening s t
        → IsVisit t.contracts visit
        → scan_contracts visit t w ≡ some (u, w')
        → Listening s u
