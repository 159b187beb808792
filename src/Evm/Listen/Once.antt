-- ===== src/Evm/Listen/Once.antt =====
-- Exactly once: what the listener has published, at any time, is what the chain holds.
use zkcertificates_queue_pro.Base.{
  ℕ, zero, suc, ◌≡◌, ◌⊎◌, inl, inr, Bool, true, false, some, List, [], ◌∷◌, ◌++◌, map, append-nil,
  map-append, arith, keep_if, keep_if-append, lookup, ◌==◌, if◌then◌else◌,
}
use zkcertificates_queue_pro.Base.Int.{ℤ, pos, ◌+ℤ◌, ◌≤ℤ◌, gap, int_laws}
use zkcertificates_queue_pro.Evm.Types.{Address, Log, ContractEvent, ContractInfo, Service}
use zkcertificates_queue_pro.Evm.Scan.{set_block}
use zkcertificates_queue_pro.Evm.Scan.Ledger.{
  Ledger, logs_range, logs_range_split, passes, accepts-passes, to_event,
}
use zkcertificates_queue_pro.Evm.Scan.Chunks.{delivered, lookup-set_block}

-- The published events of one contract.
abbrev pub events_of : Address → List ContractEvent → List ContractEvent
events_of a = keep_if (λ e. e.contract == a)

-- For each monitored contract, the events published are the logs that pass the filters, of the
-- blocks behind its start block up to its cursor: each once, in the order of the chain.
pub record IsDelivered (ledger : Ledger) (s : Service) : Type 0 where
  pub keyed :
      (a : Address) (info : ContractInfo) → lookup a s.contracts ≡ some info → info.address ≡ a
  pub ordered :
      (a : Address) (info : ContractInfo)
      → lookup a s.contracts ≡ some info
      → info.start_block ≤ℤ info.current_block
  pub once :
      (a : Address) (info : ContractInfo)
      → lookup a s.contracts ≡ some info
      → events_of a s.bus
        ≡ map to_event (
            keep_if (passes s.event_filters) (
              logs_range ledger a
                (info.start_block +ℤ pos 1)
                (gap info.start_block info.current_block)))

-- The logs of one contract make events of that contract only.
events_of-block :
    (p : Log → Bool) (a b : Address) (ls : List Log)
    → events_of a (map to_event (keep_if p (keep_if (λ l. l.address == b) ls)))
      ≡ (if b == a then map to_event (keep_if p (keep_if (λ l. l.address == b) ls)) else [])
events_of-block p a b [] = ground arith
events_of-block p a b (l ∷ ls) = ground (arith, events_of-block p a b ls)

events_of-range :
    (p : Log → Bool) (ledger : Ledger) (a b : Address) (from : ℤ) (n : ℕ)
    → events_of a (map to_event (keep_if p (logs_range ledger b from n)))
      ≡ (if b == a then map to_event (keep_if p (logs_range ledger b from n)) else [])
unfolding logs_range
events_of-range p ledger a b from zero = ground arith
events_of-range p ledger a b from (suc n) =
    rw
      (
        keep_if-append,
        map-append,
        keep_if-append,
        events_of-block p a b (ledger from),
        events_of-range p ledger a b (from +ℤ pos 1) n,
      )
      (ground arith)

-- After a cursor is moved, an entry is the moved one or another that was there.
moved_cases :
    (a j : Address) (b : ℤ) (i i' : ContractInfo) (m : List (Address × ContractInfo))
    → lookup a m ≡ some i
    → lookup j (set_block a b m) ≡ some i'
    → (((a == j) ≡ true) × (a ≡ j) × (i' ≡ record i { current_block = b }))
      ⊎ (((a == j) ≡ false) × (lookup j m ≡ some i'))
moved_cases a j b i i' m h k = ground (arith, lookup-set_block a j b m)

module _ (ledger : Ledger) (s : Service) (info : ContractInfo) (header stop : ℤ) where
  abbrev pub next : Service
  next =
      delivered s info.address header
        (logs_range ledger info.address (info.current_block +ℤ pos 1) (gap info.current_block stop))
        stop

  module _ (plain : s.confirmations ≡ 0) (here : lookup info.address s.contracts ≡ some info)
      (forward : info.current_block ≤ℤ stop) (v : IsDelivered ledger s) where
    events-next :
        (j : Address)
        → events_of j next.bus
          ≡ events_of j s.bus
            ++ (if info.address == j
                then map to_event (
                    keep_if (passes s.event_filters) (
                      logs_range ledger info.address
                        (info.current_block +ℤ pos 1)
                        (gap info.current_block stop)))
                else [])
    events-next j =
        let range =
          logs_range ledger info.address (info.current_block +ℤ pos 1)
            (gap info.current_block stop) in
        rw (
          keep_if-append,
          plain,
          accepts-passes s.event_filters header range,
          events_of-range (passes s.event_filters) ledger j info.address,
        )

    once-next :
        (j : Address) (i : ContractInfo)
        → lookup j next.contracts ≡ some i
        → events_of j next.bus
          ≡ map to_event (
              keep_if
                (passes s.event_filters)
                (logs_range ledger j (i.start_block +ℤ pos 1) (gap i.start_block i.current_block)))
    once-next j i h = elim (moved_cases info.address j stop info i s.contracts here h) [
      | inr (other, k) ↦ rw (events-next j, other, append-nil) (v.once j i k)
      | inl (same, e, m) ↦ rw (
        events-next j,
        same,
        m,
        logs_range_split ledger j info.start_block info.current_block stop
            (v.ordered info.address info here) forward,
        keep_if-append,
        map-append,
        ← e,
        v.once info.address info here,
      )
    ]

    -- Scanning one contract further keeps the record of all of them.
    pub delivered-IsDelivered : IsDelivered ledger next
    delivered-IsDelivered = record {
      keyed = λ j i h. elim (moved_cases info.address j stop info i s.contracts here h) [
        | inr (other, k) ↦ v.keyed j i k
        | inl (same, e, m) ↦ rw m e
      ];
      ordered = λ j i h. elim (moved_cases info.address j stop info i s.contracts here h) [
        | inr (other, k) ↦ v.ordered j i k
        | inl (same, e, m) ↦ rw m (omega (int_laws, v.ordered info.address info here))
      ];
      once = once-next;
    }
