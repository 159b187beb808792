-- ===== src/Evm/Examples/Progress.antt =====
-- The theorems about evm/ that need a node that answers, at the small chain.
use zkcertificates_queue_pro.Base.{
  ◌≡◌, refl, some, List, [], ◌∷◌, ◌++◌, map, keep_if, arith, lookup,
}
use zkcertificates_queue_pro.Base.Int.{pos, ◌+ℤ◌, gap}
use zkcertificates_queue_pro.Evm.Types.{Address, ContractInfo, ContractEvent, Service}
use zkcertificates_queue_pro.Evm.{new_service, register_contract}
use zkcertificates_queue_pro.Evm.Options.{with_max_block_range}
use zkcertificates_queue_pro.Evm.Scan.{process_contract_events}
use zkcertificates_queue_pro.Evm.Scan.Ledger.{logs_range, passes, to_event}
use zkcertificates_queue_pro.Evm.Scan.Progress.{IsAnswering, chunk_size_free}
use zkcertificates_queue_pro.Evm.Scan.Queries.{recording, Asks, process_contract_events-Asks}
use zkcertificates_queue_pro.Evm.Listen.{IsVisit, scan_contracts}
use zkcertificates_queue_pro.Evm.Listen.Once.{events_of}
use zkcertificates_queue_pro.Evm.Listen.Progress.{IsAtLeast, round_delivers}
use zkcertificates_queue_pro.Evm.Listen.Order.{IsAt, IsCapped, round_order_free}
use zkcertificates_queue_pro.Evm.Examples.{
  node, chain, node-IsFaithful, watching, watching-IsReady, watching_seven, seven, visit,
  visit-IsVisit, eight,
}

node-IsAnswering : IsAnswering node
node-IsAnswering = record { answers = λ a from to w e h. cc }

node-IsAtLeast : IsAtLeast node (pos 10)
node-IsAtLeast = record { latest = λ w. (pos 10, refl, omega arith) }

-- In chunks of four blocks and of one.
chunk_size_free_example :
    (t : Service) × (v v' : Unit {0}) × (process_contract_events node watching seven tt
      ≡ some (t, v))
    × (process_contract_events node (record watching { max_block_range = pos 1 }) seven tt
        ≡ some (record t { max_block_range = pos 1 }, v'))
chunk_size_free_example =
    chunk_size_free node chain node-IsFaithful node-IsAnswering watching seven tt (pos 1) (pos 10)
      watching-IsReady.range (omega arith) watching_seven refl

process_contract_events-Asks_example :
    Asks node 7 watching.max_block_range
      (pos 10)
      (pos 2 +ℤ pos 1)
      []
      (process_contract_events (recording node) watching seven (tt, []))
process_contract_events-Asks_example =
    process_contract_events-Asks node watching seven tt (pos 10) watching-IsReady.range refl

round_delivers_example :
    (t : Service) × (w' : Unit {0}) × (rest : List ContractEvent) × (scan_contracts node visit
        watching tt
      ≡ some (t, w'))
    × (events_of 7 t.bus
        ≡ map to_event (
            keep_if
              (passes watching.event_filters)
              (logs_range chain 7 (pos 2 +ℤ pos 1) (gap (pos 2) (pos 10))))
          ++ rest)
round_delivers_example =
    round_delivers node chain node-IsFaithful node-IsAnswering (pos 10) node-IsAtLeast visit
      watching tt 7 seven watching-IsReady visit-IsVisit refl watching_seven (omega arith)

node-IsAt : IsAt node (pos 10)
node-IsAt = record { latest = λ w. refl }

watching-IsCapped : IsCapped (pos 10) watching
unfolding new_service register_contract with_max_block_range
watching-IsCapped a info found = ground arith

abbrev other_visit : List (Address × ContractInfo)
other_visit = (7, seven) ∷ (8, eight) ∷ []

other_visit-IsVisit : IsVisit watching.contracts other_visit
unfolding new_service register_contract with_max_block_range
other_visit-IsVisit = (refl, ((λ e. absurd (omega arith)), tt), (refl, tt, tt))

round_order_free_example :
    (t t' : Service) × (w' v' : Unit {0}) × (scan_contracts node visit watching tt ≡ some (t, w'))
    × (scan_contracts node other_visit watching tt ≡ some (t', v'))
    × ((a : Address) (info info' : ContractInfo)
        → lookup a visit ≡ some info
        → lookup a other_visit ≡ some info'
        → events_of a t.bus ≡ events_of a t'.bus)
round_order_free_example =
    round_order_free node chain node-IsFaithful node-IsAnswering (pos 10) node-IsAt visit
      other_visit watching tt tt watching-IsReady watching-IsCapped visit-IsVisit
      other_visit-IsVisit
