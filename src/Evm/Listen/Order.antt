-- ===== src/Evm/Listen/Order.antt =====
-- A round takes the contracts in an order that the language leaves open; what each contract has
-- published after it does not depend on the order.
use mathlib.Core.Option
use zkcertificates_queue_pro.Base.{
  ◌≡◌, sym, subst, ap, ◌∙◌, inl, inr, Option, none, some, List, [], ◌∷◌, map, arith, ok, Bool-cases,
  ==_iff, keep_if, lookup, ◌==◌,
}
use zkcertificates_queue_pro.Base.Int.{ℤ, pos, ◌+ℤ◌, ◌≤ℤ◌, leb_ℤ, gap, int_laws}
use zkcertificates_queue_pro.Evm.Types.{Address, ContractInfo, Service, EthClient}
use zkcertificates_queue_pro.Evm.Scan.{process_contract_events}
use zkcertificates_queue_pro.Evm.Scan.Ledger.{Ledger, logs_range, passes, to_event, IsFaithful}
use zkcertificates_queue_pro.Evm.Scan.Chunks.{delivered, lookup-set_block}
use zkcertificates_queue_pro.Evm.Scan.Progress.{
  IsAnswering, process_contract_events-eq-delivered, unmoved,
}
use zkcertificates_queue_pro.Evm.Listen.{IsVisit, scan_contracts}
use zkcertificates_queue_pro.Evm.Listen.Once.{events_of}
use zkcertificates_queue_pro.Evm.Listen.Runs.{IsReady, IsVisit-keep, process-Leaves}
use zkcertificates_queue_pro.Evm.Listen.Progress.{IsAtLeast, scan_contracts-Reaches}

-- While the round runs, the node's latest block is `h`.
pub record IsAt (c : EthClient) (h : ℤ) : Type 0 where
  pub latest : (w : c.World) → (c.header_by_number w).0 ≡ ok h

-- No cursor stands beyond `h`.
abbrev pub IsCapped : ℤ → Service → Type 0
IsCapped h s =
    (a : Address) (info : ContractInfo) → lookup a s.contracts ≡ some info → info.current_block ≤ℤ h

IsAt-IsAtLeast : (c : EthClient) (h : ℤ) → IsAt c h → IsAtLeast c h
IsAt-IsAtLeast c h v = record { latest = λ w. (h, v.latest w, omega arith) }

set_current : ℤ → ContractInfo → ContractInfo
set_current h i = record i { current_block = h }

moved_to :
    (h : ℤ) (o : Option ContractInfo) (now : ContractInfo)
    → Option.map (set_current h) o ≡ some now
    → now.current_block ≡ h
unfolding set_current
moved_to h none now e = cc
moved_to h (some i) now e =
    let same : record i { current_block = h } ≡ now = cc in
    ap (λ (x : ContractInfo). x.current_block) (sym same)

IsVisit-lookup :
    (m visit : List (Address × ContractInfo)) (a : Address) (info : ContractInfo)
    → IsVisit m visit
    → lookup a visit ≡ some info
    → lookup a m ≡ some info
IsVisit-lookup m [] a info v e = cc
IsVisit-lookup m ((j, i) ∷ visit) a info (first, _, rest) e = elim (Bool-cases (j == a)) [
  | inl same ↦
      let at : j ≡ a = (==_iff j a).0 same in
      subst (λ x. lookup x m ≡ some info) at (first ∙ rw same at e)
  | inr other ↦ IsVisit-lookup m visit a info rest (rw other at e)
]

module _ (c : EthClient) (ledger : Ledger) (faithful : IsFaithful c ledger)
    (answering : IsAnswering c) (h : ℤ) (at : IsAt c h) where
  open c use {World}

  process-IsCapped :
      (s s' : Service) (info : ContractInfo) (w w' : World)
      → IsReady ledger s
      → lookup info.address s.contracts ≡ some info
      → process_contract_events c s info w ≡ some (s', w')
      → IsCapped h s
      → IsCapped h s'
  unfolding set_current
  process-IsCapped s s' info w w' ready here e capped =
      elim (Bool-cases (leb_ℤ h info.current_block)) [
        | inl old ↦
            let stays = unmoved c ledger faithful answering s info w h (at.latest w) old in
            let same : s ≡ s' = cc in subst (IsCapped h) same capped
        | inr new ↦
            let (v, moves) =
              process_contract_events-eq-delivered c ledger faithful answering s info w h
                ready.range here (at.latest w) (omega int_laws) in
            let moved : delivered s info.address h
                  (logs_range ledger info.address (info.current_block +ℤ pos 1)
                    (gap info.current_block h))
                  h
                ≡ s' =
              cc in
            subst (IsCapped h) moved (λ a now found.
              let found' = rw (lookup-set_block info.address a h s.contracts) at found in
              elim (Bool-cases (info.address == a)) [
                | inl mine ↦
                    let e' = moved_to h (lookup a s.contracts) now (rw mine at found') in
                    subst (λ x. x ≤ℤ h) (sym e') (omega arith)
                | inr other ↦ capped a now (rw other at found')
              ])
      ]

  scan_contracts-IsCapped :
      (visit : List (Address × ContractInfo)) (s t : Service) (w w' : World)
      → IsReady ledger s
      → IsVisit s.contracts visit
      → scan_contracts c visit s w ≡ some (t, w')
      → IsCapped h s
      → IsCapped h t
  unfolding scan_contracts
  scan_contracts-IsCapped [] s t w w' ready v e capped =
      let same : s ≡ t = cc in subst (IsCapped h) same capped
  scan_contracts-IsCapped ((a, info) ∷ visit) s t w w' ready v e capped =
      let keyed = ready.delivered.keyed a info v.0 in
      let here = subst (λ x. lookup x s.contracts ≡ some info) (sym keyed) v.0 in
      let (s1, w1, e1, ready', (keep, kept)) =
        process-Leaves c ledger faithful s info w ready here in
      scan_contracts-IsCapped visit s1 t w1 w' ready'
        (IsVisit-keep a s.contracts s1.contracts visit (λ j o. keep j (λ p. o (sym keyed ∙ p))) v.1
          v.2)
        (rw (e1, scan_contracts) at e) (process-IsCapped s s1 info w w1 ready here e1 capped)

  -- What a visited contract has published after the round.
  round_exact :
      (visit : List (Address × ContractInfo)) (s : Service) (w : World)
      → IsReady ledger s
      → IsCapped h s
      → IsVisit s.contracts visit
      → (t : Service) × (w' : World) × (scan_contracts c visit s w ≡ some (t, w'))
        × ((a : Address) (info : ContractInfo)
            → lookup a visit ≡ some info
            → events_of a t.bus
              ≡ map to_event (
                  keep_if
                    (passes s.event_filters)
                    (logs_range ledger a (info.start_block +ℤ pos 1) (gap info.start_block h))))
  round_exact visit s w ready capped v =
      let (t, w', e, ready', (kept, reach)) =
        scan_contracts-Reaches c ledger faithful answering h (IsAt-IsAtLeast c h at) visit s w ready
          v in
      let capped' = scan_contracts-IsCapped visit s t w w' ready v e capped in
      (
        t,
        w',
        e,
        λ a info visited.
            let (now, found, reached) = reach a info visited in
            let (later, found', start, _) =
              kept.monitored a info (IsVisit-lookup s.contracts visit a info v visited) in
            let same : later ≡ now = cc in
            let start' : now.start_block ≡ info.start_block = rw same at start in
            let low = capped' a now found in
            let there : now.current_block ≡ h = omega (int_laws, low, reached) in
            rw (start', there, kept.filters) at (ready'.delivered.once a now found),
      )

  -- Let the node be faithful to the ledger and refuse no query, let its latest block be `h` throughout,
  -- and no cursor of the ready service beyond it. Two rounds over the same service, in whatever order
  -- they take the contracts, both return, and a contract that both visit has published the same events
  -- after either, in the same order.
  pub round_order_free :
      (visit visit' : List (Address × ContractInfo)) (s : Service) (w v : World)
      → IsReady ledger s
      → IsCapped h s
      → IsVisit s.contracts visit
      → IsVisit s.contracts visit'
      → (t t' : Service) × (w' v' : World) × (scan_contracts c visit s w ≡ some (t, w'))
        × (scan_contracts c visit' s v ≡ some (t', v'))
        × ((a : Address) (info info' : ContractInfo)
            → lookup a visit ≡ some info
            → lookup a visit' ≡ some info'
            → events_of a t.bus ≡ events_of a t'.bus)
  round_order_free visit visit' s w v ready capped is_visit is_visit' =
      let (t, w', e, exact) = round_exact visit s w ready capped is_visit in
      let (t', v', e', exact') = round_exact visit' s v ready capped is_visit' in
      (
        t,
        t',
        w',
        v',
        e,
        e',
        λ a info info' visited visited'.
            let here = IsVisit-lookup s.contracts visit a info is_visit visited in
            let here' = IsVisit-lookup s.contracts visit' a info' is_visit' visited' in
            let same : info ≡ info' = cc in
            exact a info visited ∙ rw same (sym (exact' a info' visited')),
      )
