-- ===== src/Evm/Scan/Delivery.antt =====
-- The chunk loop of `processContractEvents` as a whole: what one scan publishes, and how far it goes.
use zkcertificates_queue_pro.Base.{
  ℕ, zero, suc, ◌+◌, ◌≤◌, ◌≡◌, ap, ◌∙◌, ◌⊎◌, inl, inr, false, String, Option, some, List, ◌++◌,
  append_assoc, append-nil, map-append, ok, err, Result-cases, Bool-cases, arith, keep_if-append,
  lookup,
}
use zkcertificates_queue_pro.Base.Int.{ℤ, pos, ◌+ℤ◌, ◌≤ℤ◌, ◌<ℤ◌, leb_ℤ, gap, int_laws}
use zkcertificates_queue_pro.Evm.Types.{Address, Log, ContractInfo, Service, EthClient}
use zkcertificates_queue_pro.Evm.Scan.{
  set_block, update_contract_block, chunk_end_block, process_chunks, process_contract_events,
}
use zkcertificates_queue_pro.Evm.Scan.Ledger.{Ledger, logs_range, logs_range-add, IsFaithful}
use zkcertificates_queue_pro.Evm.Scan.Chunks.{
  delivered, chunk_end_bounds, set_block_twice, set_block_same, process_chunk-TurnOf,
}

delivered_twice :
    (s : Service) (a : Address) (h : ℤ) (xs ys : List Log) (b d : ℤ)
    → delivered (delivered s a h xs b) a h ys d ≡ delivered s a h (xs ++ ys) d
delivered_twice s a h xs ys b d = rw (set_block_twice, keep_if-append, map-append, append_assoc)

module _ (c : EthClient) (ledger : Ledger) where
  open c use {World, header_by_number, filter_logs}

  -- A scan that starts behind block `last` stops at a block `stop`, having published the accepted
  -- logs of the blocks between, in order; it stops early only where the node refuses a query.
  pub record Scanned (s : Service) (address : Address) (header last : ℤ)
      (r : Option (Service × World)) : Type 0 where
    pub stop : ℤ
    pub end_world : World
    pub above : last ≤ℤ stop
    pub below : stop ≤ℤ header
    pub result :
        r
        ≡ some (
          delivered s address header
              (logs_range ledger address (last +ℤ pos 1) (gap last stop))
              stop,
          end_world,
        )
    pub ended :
        (stop ≡ header)
        ⊎ ((to : ℤ) × (w : World) × (e : String) × ((filter_logs address (stop +ℤ pos 1) to w).0
              ≡ err e))

  -- Either nothing was to be scanned and the service is as it was, or a scan took place.
  abbrev pub ScanOutcome : Service → ContractInfo → World → Option (Service × World) → Type 0
  ScanOutcome s info w r =
      (((w' : World) × (r ≡ some (s, w')))
        × (((e : String) × ((header_by_number w).0 ≡ err e))
            ⊎ ((h : ℤ) × ((header_by_number w).0 ≡ ok h) × (h ≤ℤ info.current_block))))
      ⊎ ((h : ℤ) × ((header_by_number w).0 ≡ ok h)
          × (info.current_block <ℤ h)
          × Scanned s info.address h info.current_block r)

  nothing_new :
      (s : Service) (address : Address) (header last : ℤ)
      → delivered s address header (logs_range ledger address (last +ℤ pos 1) (gap last last)) last
        ≡ update_contract_block address last s
  unfolding logs_range update_contract_block
  nothing_new s address header last =
      let none_left : gap last last ≡ 0 = omega arith in rw (none_left, append-nil)

  idle-Scanned :
      (s : Service) (address : Address) (header last : ℤ) (w : World)
      → last ≡ header
      → set_block address last s.contracts ≡ s.contracts
      → Scanned s address header last (some (s, w))
  unfolding update_contract_block
  idle-Scanned s address header last w done same = record {
    stop = last;
    end_world = w;
    above = omega arith;
    below = rw done (omega arith);
    result = rw (nothing_new s address header last, update_contract_block, same);
    ended = inl done;
  }

  refused-Scanned :
      (s : Service) (address : Address) (header last to : ℤ) (w w' : World) (e : String)
      → last ≤ℤ header
      → (filter_logs address (last +ℤ pos 1) to w).0 ≡ err e
      → Scanned s address header last (some (update_contract_block address last s, w'))
  refused-Scanned s address header last to w w' e order p = record {
    stop = last;
    end_world = w';
    above = omega arith;
    below = order;
    result = rw (nothing_new s address header last);
    ended = inr (to, w, e, p);
  }

  -- What follows a delivered chunk adds up with it.
  taken-Scanned :
      (s : Service) (address : Address) (header last end : ℤ) (r : Option (Service × World))
      → last ≤ℤ end
      → let logs = logs_range ledger address (last +ℤ pos 1) (gap (last +ℤ pos 1) (end +ℤ pos 1)) in
        Scanned (delivered s address header logs end) address header end r
        → Scanned s address header last r
  taken-Scanned s address header last end r order v =
      let n = gap (last +ℤ pos 1) (end +ℤ pos 1) in
      let split : gap last v.stop ≡ n + gap end v.stop = omega (int_laws, v.above) in
      let next : last +ℤ pos 1 +ℤ pos n ≡ end +ℤ pos 1 = omega int_laws in
      record {
        stop = v.stop;
        end_world = v.end_world;
        above = omega (arith, v.above);
        below = v.below;
        result =
            rw (split, logs_range-add, next)
              (v.result
                ∙ ap (λ t. some (t, v.end_world))
                    (delivered_twice s address header (logs_range ledger address (last +ℤ pos 1) n)
                      (logs_range ledger address (end +ℤ pos 1) (gap end v.stop)) end v.stop));
        ended = v.ended;
      }

  module _ (faithful : IsFaithful c ledger) where
    process_chunks-Scanned :
        (fuel : ℕ) (s : Service) (address : Address) (header last : ℤ) (w : World)
        → pos 1 ≤ℤ s.max_block_range
        → gap last header ≤ fuel
        → last ≤ℤ header
        → set_block address last s.contracts ≡ s.contracts
        → Scanned s address header last
            (process_chunks c fuel s address header (last +ℤ pos 1) last w)
    unfolding process_chunks
    process_chunks-Scanned zero s address header last w range enough order same =
        let stuck : leb_ℤ (last +ℤ pos 1) header ≡ false = omega int_laws in
        rw stuck (idle-Scanned s address header last w (omega int_laws) same)
    process_chunks-Scanned (suc fuel) s address header last w range enough order same =
        elim (Bool-cases (leb_ℤ (last +ℤ pos 1) header)) [
          | inr done ↦
              rw (done, process_chunks) (idle-Scanned s address header last w (omega int_laws) same)
          | inl more ↦
              rw (more, process_chunks)
                (elim (process_chunk-TurnOf c ledger faithful s address header (last +ℤ pos 1) last
                  w) [
                    | inl (e, w', p, t) ↦
                        rw (t, process_chunks)
                          (refused-Scanned s address header last _ w w' e order p)
                    | inr (w', t) ↦
                        rw (t, process_chunks)
                          (let end = chunk_end_block s.max_block_range (last +ℤ pos 1) header in
                            let (low, high, _) =
                              chunk_end_bounds s.max_block_range (last +ℤ pos 1) header range
                                (omega int_laws) in
                            taken-Scanned s address header last end _ (omega int_laws) (
                              process_chunks-Scanned fuel _ address header end w' range
                                (omega int_laws) high
                                (set_block_twice address end end s.contracts)))
                  ])
        ]

    -- A scan of a monitored contract always returns. If the node does not tell its latest block, or
    -- that block is not above the cursor, nothing changes; otherwise the accepted logs of the blocks
    -- between the old and the new cursor are published, once and in order, and the new cursor stands
    -- at the latest block unless the node refused the query for the block behind it.
    pub process_contract_events_lem :
        (s : Service) (info : ContractInfo) (w : World)
        → pos 1 ≤ℤ s.max_block_range
        → lookup info.address s.contracts ≡ some info
        → ScanOutcome s info w (process_contract_events c s info w)
    unfolding process_contract_events
    process_contract_events_lem s info w range here = elim (Result-cases (header_by_number w).0) [
      | inr (e, p) ↦ inl (((header_by_number w).1, rw p), inl (e, p))
      | inl (h, p) ↦ elim (Bool-cases (leb_ℤ h info.current_block)) [
        | inl old ↦ inl (((header_by_number w).1, rw (p, old)), inr (h, p, omega int_laws))
        | inr new ↦ inr (
          h,
          p,
          omega int_laws,
          rw (p, new)
              (process_chunks-Scanned (gap info.current_block h) s info.address h info.current_block
                (header_by_number w).1 range (omega arith) (omega int_laws)
                (set_block_same info.address info s.contracts here)),
        )
      ]
    ]
