-- ===== src/Evm/Listen/Progress.antt =====
-- A round against a node that answers: every contract that it visits comes up to the latest block.
use zkcertificates_queue_pro.Base.{
  ◌≡◌, refl, sym, subst, ◌∙◌, inl, inr, some, List, [], ◌∷◌, ◌++◌, map, map-append, arith, ok,
  Bool-cases, ==_iff, keep_if, keep_if-append, lookup, ◌==◌,
}
use zkcertificates_queue_pro.Base.Int.{ℤ, pos, ◌+ℤ◌, ◌≤ℤ◌, leb_ℤ, gap, int_laws}
use zkcertificates_queue_pro.Evm.Types.{Address, ContractEvent, ContractInfo, Service, EthClient}
use zkcertificates_queue_pro.Evm.Scan.{process_contract_events}
use zkcertificates_queue_pro.Evm.Scan.Ledger.{
  Ledger, logs_range, logs_range_split, passes, to_event, IsFaithful,
}
use zkcertificates_queue_pro.Evm.Scan.Chunks.{delivered, lookup-set_block}
use zkcertificates_queue_pro.Evm.Scan.Progress.{
  IsAnswering, process_contract_events-eq-delivered, unmoved,
}
use zkcertificates_queue_pro.Evm.Listen.{IsVisit, scan_contracts}
use zkcertificates_queue_pro.Evm.Listen.Once.{events_of}
use zkcertificates_queue_pro.Evm.Listen.Runs.{
  IsReady, IsKept, IsKept-refl, IsKept-trans, IsVisit-keep, Leaves, process-Leaves,
}

-- The node's latest block is `h` or above it, whenever it is asked.
pub record IsAtLeast (c : EthClient) (h : ℤ) : Type 0 where
  pub latest : (w : c.World) → (x : ℤ) × ((c.header_by_number w).0 ≡ ok x) × (h ≤ℤ x)

-- The contract's cursor stands at `h` or above it.
abbrev pub Reaches : ℤ → Address → Service → Type 0
Reaches h a t = (now : ContractInfo) × (lookup a t.contracts ≡ some now) × (h ≤ℤ now.current_block)

IsKept-Reaches : (h : ℤ) (a : Address) {s t : Service} → IsKept s t → Reaches h a s → Reaches h a t
IsKept-Reaches h a v (now, found, reached) =
    let (later, found', _, forward) = v.monitored a now found in
    (later, found', omega (arith, reached, forward))

module _ (c : EthClient) (ledger : Ledger) (faithful : IsFaithful c ledger)
    (answering : IsAnswering c) (h : ℤ) (high : IsAtLeast c h) where
  open c use {World, header_by_number}

  process-Reaches :
      (s s' : Service) (info : ContractInfo) (w w' : World)
      → IsReady ledger s
      → lookup info.address s.contracts ≡ some info
      → process_contract_events c s info w ≡ some (s', w')
      → Reaches h info.address s'
  process-Reaches s s' info w w' ready here e =
      let (x, answer, above) = high.latest w in
      elim (Bool-cases (leb_ℤ x info.current_block)) [
        | inl old ↦
            let stays = unmoved c ledger faithful answering s info w x answer old in
            let same : s ≡ s' = cc in
            (
              info,
              subst (λ t. lookup info.address t.contracts ≡ some info) same here,
              omega int_laws,
            )
        | inr new ↦
            let (v, moves) =
              process_contract_events-eq-delivered c ledger faithful answering s info w x
                ready.range here answer (omega int_laws) in
            let moved : s'
                ≡ delivered s info.address x
                    (logs_range ledger info.address (info.current_block +ℤ pos 1)
                      (gap info.current_block x))
                    x =
              cc in
            (
              record info { current_block = x },
              subst
                  (λ t. lookup info.address t.contracts ≡ some (record info { current_block = x }))
                  (sym moved)
                  (rw (lookup-set_block info.address info.address x s.contracts, here)
                    (ground arith)),
              above,
            )
      ]

  -- Every contract that the round visits comes to `h`, and none moves back.
  pub scan_contracts-Reaches :
      (visit : List (Address × ContractInfo)) (s : Service) (w : World)
      → IsReady ledger s
      → IsVisit s.contracts visit
      → Leaves c ledger faithful
          (λ t.
            IsKept s t
            × ((a : Address) (info : ContractInfo) → lookup a visit ≡ some info → Reaches h a t))
          (scan_contracts c visit s w)
  unfolding scan_contracts
  scan_contracts-Reaches [] s w ready v = (s, w, refl, ready, (IsKept-refl s, λ a info k. cc))
  scan_contracts-Reaches ((a, info) ∷ visit) s w ready v =
      let keyed = ready.delivered.keyed a info v.0 in
      let here = subst (λ t. lookup t s.contracts ≡ some info) (sym keyed) v.0 in
      let (s', w', e, ready', (keep, kept)) =
        process-Leaves c ledger faithful s info w ready here in
      let (t, w'', e', ready'', (kept', reach)) = scan_contracts-Reaches visit s' w' ready' (
        IsVisit-keep a s.contracts s'.contracts visit (λ j o. keep j (λ p. o (sym keyed ∙ p))) v.1
          v.2) in
      (
        t,
        w'',
        rw (e, scan_contracts) e',
        ready'',
        (
          IsKept-trans kept kept',
          λ j i k. elim (Bool-cases (a == j)) [
            | inr other ↦ reach j i (rw other at k)
            | inl same ↦
                let at : a ≡ j = (==_iff a j).0 same in
                subst (λ b. Reaches h b t) (keyed ∙ at)
                  (IsKept-Reaches h info.address kept'
                    (process-Reaches s s' info w w' ready here e))
          ],
        ),
      )

  -- Let the node be faithful to the ledger and refuse no query, and let its latest block be `h` or
  -- above it. A round from a ready service returns, and then every log that a visited contract made
  -- behind its start block up to `h`, and that passes the filters, is published: the contract's events
  -- are these, in the order of the chain, and behind them those of later blocks.
  pub round_delivers :
      (visit : List (Address × ContractInfo)) (s : Service) (w : World) (a : Address)
      (info : ContractInfo)
      → IsReady ledger s
      → IsVisit s.contracts visit
      → lookup a visit ≡ some info
      → lookup a s.contracts ≡ some info
      → info.start_block ≤ℤ h
      → (t : Service) × (w' : World) × (rest : List ContractEvent) × (scan_contracts c visit s w
          ≡ some (t, w'))
        × (events_of a t.bus
            ≡ map to_event (
                keep_if
                  (passes s.event_filters)
                  (logs_range ledger a (info.start_block +ℤ pos 1) (gap info.start_block h)))
              ++ rest)
  round_delivers visit s w a info ready v visited here behind =
      let (t, w', e, ready', (kept, reach)) = scan_contracts-Reaches visit s w ready v in
      let (now, found, reached) = reach a info visited in
      let (later, found', start, _) = kept.monitored a info here in
      let same : later ≡ now = cc in
      let start' : now.start_block ≡ info.start_block = rw same at start in
      (
        t,
        w',
        map to_event (
            keep_if (passes s.event_filters)
              (logs_range ledger a (h +ℤ pos 1) (gap h now.current_block))),
        e,
        rw
            (
              start',
              kept.filters,
              logs_range_split ledger a info.start_block h now.current_block behind reached,
              keep_if-append,
              map-append,
            )
            at (ready'.delivered.once a now found),
      )
