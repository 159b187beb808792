-- ===== src/Evm/Scan/Queries.antt =====
-- The queries that a scan makes of the node, read off a client that records them.
use zkcertificates_queue_pro.Base.{
  ℕ, zero, suc, ◌≤◌, ◌≡◌, refl, sym, subst, ap, ◌∙◌, inl, inr, false, Option, some, List, [], ◌∷◌,
  ◌++◌, append_assoc, append-nil, ok, Result-cases, Bool-cases,
}
use zkcertificates_queue_pro.Base.Int.{ℤ, pos, ◌+ℤ◌, ◌≤ℤ◌, leb_ℤ, gap, int_laws}
use zkcertificates_queue_pro.Evm.Types.{Address, Log, ContractInfo, Service, EthClient}
use zkcertificates_queue_pro.Evm.Scan.{
  process_logs, update_contract_block, chunk_end_block, after_query, process_chunk, process_chunks,
  scan_to, process_contract_events,
}
use zkcertificates_queue_pro.Evm.Scan.Chunks.{chunk_end_bounds, process_logs_lem}

-- The address and the first and the last block of a query.
pub record Query : Type 0 where
  pub address : Address
  pub from : ℤ
  pub to : ℤ

-- The same node, with the queries made of it in their order.
abbrev pub recording : EthClient → EthClient
recording c = record {
  World = c.World × List Query;
  dial = λ url w. ((c.dial url w.0).0, ((c.dial url w.0).1, w.1));
  chain_id = λ w. ((c.chain_id w.0).0, ((c.chain_id w.0).1, w.1));
  header_by_number = λ w. ((c.header_by_number w.0).0, ((c.header_by_number w.0).1, w.1));
  filter_logs = λ a from to w. (
    (c.filter_logs a from to w.0).0,
    ((c.filter_logs a from to w.0).1, w.1 ++ record { address = a; from = from; to = to } ∷ []),
  );
}

-- Each query is for the contract, starts where the last one ended, asks for one block at least and
-- for `r` at most, and not beyond `header`.
abbrev pub AreInTurn : Address → ℤ → ℤ → ℤ → List Query → Type 0
AreInTurn a r header from [] = Unit
AreInTurn a r header from (q ∷ qs) =
    (q.address ≡ a)
    × (q.from ≡ from)
    × (from ≤ℤ q.to)
    × (q.to ≤ℤ header)
    × (q.to +ℤ pos 1 ≤ℤ from +ℤ r)
    × AreInTurn a r header (q.to +ℤ pos 1) qs

module _ (c : EthClient) where
  open c use {World}

  -- The scan returns, with these queries behind those that were made before.
  abbrev pub Asks :
      Address → ℤ → ℤ → ℤ → List Query → Option (Service × (World × List Query)) → Type 0
  Asks a r header from before result =
      (t : Service) × (w : World) × (qs : List Query) × (result ≡ some (t, (w, before ++ qs)))
      × AreInTurn a r header from qs

  max_block_range_kept :
      (a : Address) (header stop : ℤ) (s : Service) (logs : List Log)
      → (update_contract_block a stop (process_logs header s logs)).max_block_range
        ≡ s.max_block_range
  unfolding update_contract_block
  max_block_range_kept a header stop s logs =
      ap (λ t. t.max_block_range) (process_logs_lem header s logs)

  process_chunks-Asks :
      (fuel : ℕ) (s : Service) (a : Address) (header from last : ℤ) (w : World)
      (before : List Query)
      → pos 1 ≤ℤ s.max_block_range
      → gap from (header +ℤ pos 1) ≤ fuel
      → Asks a s.max_block_range header from before
          (process_chunks (recording c) fuel s a header from last (w, before))
  unfolding process_chunks process_chunk
  process_chunks-Asks zero s a header from last w before range enough =
      let stuck : leb_ℤ from header ≡ false = omega int_laws in
      rw stuck (s, w, [], rw append-nil, tt)
  process_chunks-Asks (suc fuel) s a header from last w before range enough =
      elim (Bool-cases (leb_ℤ from header)) [
        | inr done ↦ rw (done, process_chunks) (s, w, [], rw append-nil, tt)
        | inl more ↦
            let end = chunk_end_block s.max_block_range from header in
            let w' = (c.filter_logs a from end w).1 in
            let asked : Query = record { address = a; from = from; to = end } in
            let (low, high, fits) =
              chunk_end_bounds s.max_block_range from header range (omega int_laws) in
            elim (Result-cases (c.filter_logs a from end w).0) [
              | inr (e, failed) ↦
                  rw (more, process_chunks, process_chunk, failed, after_query)
                    (
                      update_contract_block a last s,
                      w',
                      asked ∷ [],
                      refl,
                      (refl, refl, low, high, fits, tt),
                    )
              | inl (logs, answered) ↦
                  let s' = update_contract_block a end (process_logs header s logs) in
                  let same = max_block_range_kept a header end s logs in
                  let (t, v, qs, e, turns) =
                    process_chunks-Asks fuel s' a header (end +ℤ pos 1) end w'
                      (before ++ asked ∷ []) (subst (λ r. pos 1 ≤ℤ r) (sym same) range)
                      (omega int_laws) in
                  rw (more, process_chunks, process_chunk, answered, after_query)
                    (
                      t,
                      v,
                      asked ∷ qs,
                      e ∙ ap (λ l. some (t, (v, l))) (append_assoc before (asked ∷ []) qs),
                      (
                        refl,
                        refl,
                        low,
                        high,
                        fits,
                        subst (λ r. AreInTurn a r header (end +ℤ pos 1) qs) same turns,
                      ),
                    )
            ]
      ]

  -- The queries of a scan, against any node: all are for the contract; the first starts behind its
  -- cursor and each other one behind the last; each is for one block at least and for no more than
  -- the limit, and none asks beyond the latest block.
  pub process_contract_events-Asks :
      (s : Service) (info : ContractInfo) (w : World) (h : ℤ)
      → pos 1 ≤ℤ s.max_block_range
      → (c.header_by_number w).0 ≡ ok h
      → Asks info.address s.max_block_range h
          (info.current_block +ℤ pos 1)
          []
          (process_contract_events (recording c) s info (w, []))
  unfolding process_contract_events
  process_contract_events-Asks s info w h range latest =
      elim (Bool-cases (leb_ℤ h info.current_block)) [
        | inl old ↦ rw (latest, scan_to, old) (s, (c.header_by_number w).1, [], refl, tt)
        | inr new ↦
            rw (latest, scan_to, new)
              (process_chunks-Asks (gap info.current_block h) s info.address h
                (info.current_block +ℤ pos 1) info.current_block (c.header_by_number w).1 [] range
                (omega int_laws))
      ]
