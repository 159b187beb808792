-- ===== src/Evm/Scan/Progress.antt =====
-- A scan against a node that answers: it reaches the latest block, whatever the size of its chunks.
use zkcertificates_queue_pro.Base.{
  ◌≡◌, refl, ◌≢◌, inl, inr, String, some, true, Bool-cases, arith, ok, err, lookup,
}
use zkcertificates_queue_pro.Base.Int.{ℤ, pos, ◌+ℤ◌, ◌≤ℤ◌, ◌<ℤ◌, leb_ℤ, gap, int_laws}
use zkcertificates_queue_pro.Evm.Types.{Address, ContractInfo, Service, EthClient}
use zkcertificates_queue_pro.Evm.Scan.{scan_to, process_contract_events}
use zkcertificates_queue_pro.Evm.Scan.Ledger.{Ledger, logs_range, IsFaithful}
use zkcertificates_queue_pro.Evm.Scan.Chunks.{delivered}
use zkcertificates_queue_pro.Evm.Scan.Delivery.{process_contract_events_lem}

-- The node refuses no query.
pub record IsAnswering (c : EthClient) : Type 0 where
  pub answers :
      (a : Address) (from to : ℤ) (w : c.World) (e : String) → (c.filter_logs a from to w).0 ≢ err e

module _ (c : EthClient) (ledger : Ledger) (faithful : IsFaithful c ledger)
    (answering : IsAnswering c) where
  open c use {World, header_by_number}

  -- All blocks up to the latest are delivered at once.
  pub process_contract_events-eq-delivered :
      (s : Service) (info : ContractInfo) (w : World) (h : ℤ)
      → pos 1 ≤ℤ s.max_block_range
      → lookup info.address s.contracts ≡ some info
      → (header_by_number w).0 ≡ ok h
      → info.current_block <ℤ h
      → (w' : World) × (process_contract_events c s info w
          ≡ some (
            delivered s info.address h
                (logs_range ledger info.address
                  (info.current_block +ℤ pos 1)
                  (gap info.current_block h))
                h,
            w',
          ))
  process_contract_events-eq-delivered s info w h range here latest new =
      elim (process_contract_events_lem c ledger faithful s info w range here) [
        | inl (_, inl (e, failed)) ↦ cc
        | inl (_, inr (x, same, old)) ↦ let e : x ≡ h = cc in absurd (omega (arith, rw e at old))
        | inr (x, same, _, scanned) ↦
            let e : x ≡ h = cc in
            let all : scanned.stop ≡ x = elim scanned.ended [
              | inl done ↦ done
              | inr (to, v, e', failed) ↦
                  absurd (answering.answers info.address (scanned.stop +ℤ pos 1) to v e' failed)
            ] in
            (scanned.end_world, rw (all, e) at scanned.result)
      ]

  pub unmoved :
      (s : Service) (info : ContractInfo) (w : World) (h : ℤ)
      → (header_by_number w).0 ≡ ok h
      → leb_ℤ h info.current_block ≡ true
      → process_contract_events c s info w ≡ some (s, (header_by_number w).1)
  unfolding process_contract_events
  unmoved s info w h latest old = rw (latest, scan_to, old) refl

  -- Against a node that is faithful and answers, the size of the chunks does not matter: with any
  -- other limit of at least one block per query, a scan leaves the same cursors and publishes the
  -- same events.
  pub chunk_size_free :
      (s : Service) (info : ContractInfo) (w : World) (r h : ℤ)
      → pos 1 ≤ℤ s.max_block_range
      → pos 1 ≤ℤ r
      → lookup info.address s.contracts ≡ some info
      → (header_by_number w).0 ≡ ok h
      → (t : Service) × (v v' : World) × (process_contract_events c s info w ≡ some (t, v))
        × (process_contract_events c (record s { max_block_range = r }) info w
            ≡ some (record t { max_block_range = r }, v'))
  chunk_size_free s info w r h range range' here latest =
      elim (Bool-cases (leb_ℤ h info.current_block)) [
        | inl old ↦ (
          s,
          (header_by_number w).1,
          (header_by_number w).1,
          unmoved s info w h latest old,
          unmoved (record s { max_block_range = r }) info w h latest old,
        )
        | inr new ↦
            let (v, e) =
              process_contract_events-eq-delivered s info w h range here latest (omega int_laws) in
            let (v', e') =
              process_contract_events-eq-delivered (record s { max_block_range = r }) info w h
                range' here latest (omega int_laws) in
            (_, v, v', e, e')
      ]
