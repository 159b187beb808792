-- ===== src/Evm/Scan/Confirmations.antt =====
-- The confirmations check of `processContractEvents`: a log that is too young when its block is
-- scanned is skipped "for now", but the cursor moves on past its block.
use zkcertificates_queue_pro.Base.{
  ℕ, zero, suc, ◌+◌, ◌^◌, ◌<◌, ◌≡◌, refl, sym, ap, subst, ◌⊎◌, inl, inr, Bool, true, false, some,
  List, [], ◌∷◌, map, append-nil, map-append, ok, arith, keep_if, keep_if-append, lookup, lt→ltb,
  ◌==◌,
}
use zkcertificates_queue_pro.Base.Int.{
  ℤ, pos, pos_part, neg_part, ◌+ℤ◌, ◌≤ℤ◌, ◌<ℤ◌, gap, int64_small, int_laws,
}
use zkcertificates_queue_pro.Evm.Types.{
  Address, Log, ContractEvent, ContractInfo, Service, EthClient,
}
use zkcertificates_queue_pro.Evm.Scan.{unconfirmed, process_contract_events}
use zkcertificates_queue_pro.Evm.Scan.Ledger.{Ledger, logs_range, IsFaithful, accepts, to_event}
use zkcertificates_queue_pro.Evm.Scan.Delivery.{process_contract_events_lem}
use zkcertificates_queue_pro.Evm.Scan.Chunks.{delivered, lookup-set_block}

-- The published events of one block.
abbrev pub events_at : ℕ → List ContractEvent → List ContractEvent
events_at b = keep_if (λ e. e.event.block_number == b)

-- All logs of a list carry the number of their block.
abbrev pub IsOfBlock : ℤ → List Log → Type 0
IsOfBlock x [] = Unit
IsOfBlock x (l ∷ ls) = (pos l.block_number ≡ x) × IsOfBlock x ls

-- Fewer than `confirmations` blocks lie above block `b`, with all numbers in the range of int64.
unconfirmed_young :
    (confirmations b h : ℕ) (l : Log)
    → 0 < confirmations
    → confirmations < 2 ^ 63
    → b < 2 ^ 63
    → h < b + confirmations
    → l.block_number ≡ b
    → unconfirmed confirmations (pos h) l ≡ true
unfolding unconfirmed
unconfirmed_young confirmations b h l some_asked small low young e =
    rw (lt→ltb 0 confirmations some_asked, e, int64_small b low, int64_small confirmations small)
      (omega int_laws)

-- No log of block `b` gets through: the blocks lie above `b`, or those of `b` are refused.
module _ (p : Log → Bool) (ledger : Ledger) (a : Address) (b : ℕ) where
  abbrev Silent : ℤ → Type 0
  Silent from = (pos b <ℤ from) ⊎ ((l : Log) → l.block_number ≡ b → p l ≡ false)

  events_at-block :
      (from : ℤ) (ls : List Log)
      → IsOfBlock from ls
      → Silent from
      → events_at b (map to_event (keep_if p (keep_if (λ l. l.address == a) ls))) ≡ []
  events_at-block from [] of_block silent = refl
  events_at-block from (l ∷ ls) of_block (inl above) = ground (
    arith,
    events_at-block from ls of_block.1 (inl above),
    ap pos_part of_block.0,
    ap neg_part of_block.0,
  )
  events_at-block from (l ∷ ls) of_block (inr refused) =
      ground (arith, events_at-block from ls of_block.1 (inr refused), refused l)

  events_at-range :
      ((x : ℤ) → IsOfBlock x (ledger x))
      → (from : ℤ) (n : ℕ) → Silent from
      → events_at b (map to_event (keep_if p (logs_range ledger a from n))) ≡ []
  unfolding logs_range
  events_at-range numbered from zero silent = refl
  events_at-range numbered from (suc n) silent =
      rw
        (
          keep_if-append,
          map-append,
          keep_if-append,
          events_at-block from (ledger from) (numbered from) silent,
        )
        (events_at-range numbered (from +ℤ pos 1) n (later silent))
    where
      later : Silent from → Silent (from +ℤ pos 1)
      later (inl above) = inl (omega int_laws)
      later (inr refused) = inr refused

module _ (c : EthClient) (a : Address) where
  open c use {World, header_by_number, filter_logs}

  -- Any number of further scans of the contract at `a`, with what the map says of it at the time.
  pub data Rescans (s : Service) : Service → Type 0 where
    first : Rescans s s
    again :
        {t u : Service} (info : ContractInfo) (w w' : World)
        → Rescans s t
        → info.address ≡ a
        → lookup a t.contracts ≡ some info
        → process_contract_events c t info w ≡ some (u, w')
        → Rescans s u

module _ (c : EthClient) (ledger : Ledger) (faithful : IsFaithful c ledger)
    (numbered : (x : ℤ) → IsOfBlock x (ledger x)) where
  open c use {World, header_by_number, filter_logs}

  -- The cursor of `a` has passed block `b`.
  record IsPast (a : Address) (b : ℕ) (s t : Service) : Type 0 where
    range : pos 1 ≤ℤ t.max_block_range
    past : (info : ContractInfo) → lookup a t.contracts ≡ some info → pos b ≤ℤ info.current_block
    kept : events_at b t.bus ≡ events_at b s.bus

  delivered-IsPast :
      (s t : Service) (info : ContractInfo) (b : ℕ) (h stop : ℤ)
      → pos 1 ≤ℤ t.max_block_range
      → lookup info.address t.contracts ≡ some info
      → pos b ≤ℤ stop
      → events_at b t.bus ≡ events_at b s.bus
      → Silent
          (accepts t.event_filters t.confirmations h)
          ledger
          info.address
          b
          (info.current_block +ℤ pos 1)
      → IsPast info.address b s (
          delivered t info.address h
            (logs_range ledger info.address
              (info.current_block +ℤ pos 1)
              (gap info.current_block stop))
            stop)
  delivered-IsPast s t info b h stop range here over kept silent = record {
    range = range;
    past = λ i e. ground (arith, lookup-set_block info.address info.address stop t.contracts);
    kept =
        rw
          (
            keep_if-append,
            events_at-range (accepts t.event_filters t.confirmations h) ledger info.address b
                numbered (info.current_block +ℤ pos 1) (gap info.current_block stop) silent,
            append-nil,
          )
          kept;
  }

  -- Once the cursor is past the block, a scan publishes nothing of it.
  scan-IsPast :
      (s t u : Service) (info : ContractInfo) (w w' : World) (b : ℕ)
      → IsPast info.address b s t
      → lookup info.address t.contracts ≡ some info
      → process_contract_events c t info w ≡ some (u, w')
      → IsPast info.address b s u
  scan-IsPast s t u info w w' b v here e =
      elim (process_contract_events_lem c ledger faithful t info w v.range here) [
        | inl ((w'', idle), _) ↦ let same : t ≡ u = cc in subst (IsPast info.address b s) same v
        | inr (h, _, _, scanned) ↦
            let over = v.past info here in
            let same : delivered t info.address h
                  (logs_range ledger info.address (info.current_block +ℤ pos 1)
                    (gap info.current_block scanned.stop))
                  scanned.stop
                ≡ u =
              cc scanned.result in
            subst (IsPast info.address b s) same (
              delivered-IsPast s t info b h scanned.stop v.range here
                (omega (arith, scanned.above, over)) v.kept (inl (omega (int_laws, over))))
      ]

  Rescans-IsPast :
      (a : Address) (b : ℕ) (s t u : Service) → IsPast a b s t → Rescans c a t u → IsPast a b s u
  Rescans-IsPast a b s t u v first = v
  Rescans-IsPast a b s t u v (again {t = t'} info w w' before key here e) =
      subst (λ x. IsPast x b s u) key
        (scan-IsPast s t' u info w w' b
          (subst (λ x. IsPast x b s t') (sym key) (Rescans-IsPast a b s t t' v before))
          (subst (λ x. lookup x t'.contracts ≡ some info) (sym key) here) e)

  -- Let fewer than `confirmations` blocks lie above block `b` when a scan passes it (the latest
  -- block being `h`, and all numbers in the range of int64). Then no event of block `b` is ever
  -- published for the contract: neither by that scan nor by any number of later ones, although the
  -- block gets all the confirmations that were asked for.
  pub unconfirmed_lost :
      (s t u : Service) (info : ContractInfo) (w w' : World) (b h : ℕ)
      → pos 1 ≤ℤ s.max_block_range
      → 0 < s.confirmations
      → s.confirmations < 2 ^ 63
      → b < 2 ^ 63
      → h < b + s.confirmations
      → lookup info.address s.contracts ≡ some info
      → (header_by_number w).0 ≡ ok (pos h)
      → process_contract_events c s info w ≡ some (t, w')
      → ((i : ContractInfo) → lookup info.address t.contracts ≡ some i → pos b ≤ℤ i.current_block)
      → Rescans c info.address t u
      → events_at b u.bus ≡ events_at b s.bus
  unconfirmed_lost s t u info w w' b h range asked small low young here header e past run =
      (Rescans-IsPast info.address b s t u
        (elim (process_contract_events_lem c ledger faithful s info w range here) [
          | inl ((w'', idle), _) ↦
              let same : s ≡ t = cc in
              subst (IsPast info.address b s) same (record {
                range = range;
                past = λ i k. past i (subst (λ x. lookup info.address x.contracts ≡ some i) same k);
                kept = refl;
              })
          | inr (h', header', _, scanned) ↦
              let top : h' ≡ pos h = cc in
              let same : delivered s info.address h'
                    (logs_range ledger info.address (info.current_block +ℤ pos 1)
                      (gap info.current_block scanned.stop))
                    scanned.stop
                  ≡ t =
                cc scanned.result in
              subst (IsPast info.address b s) same (
                delivered-IsPast s s info b h' scanned.stop range here
                  (past (record info { current_block = scanned.stop })
                    (rw (← same) (
                      ground (
                        arith,
                        lookup-set_block info.address info.address scanned.stop s.contracts,
                      ))))
                  refl
                  (inr λ l of_b. rw top (
                    ground
                      (arith, unconfirmed_young s.confirmations b h l asked small low young of_b))))
        ])
        run).kept
