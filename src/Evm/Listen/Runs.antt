-- ===== src/Evm/Listen/Runs.antt =====
-- `listenForEvents` from its start on: rounds return, and what they publish is what the chain holds.
use zkcertificates_queue_pro.Base.{
  ◌≡◌, ◌≢◌, refl, ap, ◌∙◌, sym, subst, inl, inr, Option, some, List, [], ◌∷◌, ◌++◌, append-nil,
  append_assoc, Bool-cases, ==_iff, arith, lookup, ◌==◌,
}
use zkcertificates_queue_pro.Base.Int.{ℤ, pos, pos_part, neg_part, ◌≤ℤ◌, gap}
use zkcertificates_queue_pro.Evm.Types.{Address, ContractEvent, ContractInfo, Service, EthClient}
use zkcertificates_queue_pro.Evm.Scan.{set_block, process_contract_events}
use zkcertificates_queue_pro.Evm.Scan.Ledger.{Ledger, logs_range, IsFaithful}
use zkcertificates_queue_pro.Evm.Scan.Delivery.{process_contract_events_lem}
use zkcertificates_queue_pro.Evm.Scan.Chunks.{lookup-set_block}
use zkcertificates_queue_pro.Evm.Listen.{
  IsOther, IsVisit, scan_contracts, Listening, started, round,
}
use zkcertificates_queue_pro.Evm.Listen.Once.{IsDelivered, next, delivered-IsDelivered}

-- A service whose options ask for no confirmations, between two scans.
pub record IsReady (ledger : Ledger) (s : Service) : Type 0 where
  pub plain : s.confirmations ≡ 0
  pub range : pos 1 ≤ℤ s.max_block_range
  pub delivered : IsDelivered ledger s

-- The filters and the start blocks of the monitored contracts are those of before, no cursor has
-- moved back, and what was published stays, with what came behind it.
pub record IsKept (s t : Service) : Type 0 where
  pub filters : t.event_filters ≡ s.event_filters
  pub monitored :
      (a : Address) (info : ContractInfo)
      → lookup a s.contracts ≡ some info
      → (now : ContractInfo) × (lookup a t.contracts ≡ some now)
        × (now.start_block ≡ info.start_block)
        × (info.current_block ≤ℤ now.current_block)
  pub published : (events : List ContractEvent) × (t.bus ≡ s.bus ++ events)

pub IsKept-refl : (s : Service) → IsKept s s
IsKept-refl s = record {
  filters = refl;
  monitored = λ a info h. (info, h, refl, omega arith);
  published = ([], sym (append-nil s.bus));
}

pub IsKept-trans : {s t u : Service} → IsKept s t → IsKept t u → IsKept s u
IsKept-trans v v' = record {
  filters = v'.filters ∙ v.filters;
  monitored = λ a info h.
      let (i, found, e, l) = v.monitored a info h in
      let (i', found', e', l') = v'.monitored a i found in
      (i', found', e' ∙ e, omega (arith, l, l'));
  published =
      let (xs, e) = v.published in
      let (ys, e') = v'.published in (xs ++ ys, e' ∙ ap (λ l. l ++ ys) e ∙ append_assoc _ xs ys);
}

monitored-set_block :
    (moved : ContractInfo) (stop : ℤ) (s : Service) (a : Address) (info : ContractInfo)
    → lookup moved.address s.contracts ≡ some moved
    → moved.current_block ≤ℤ stop
    → lookup a s.contracts ≡ some info
    → (now : ContractInfo) × (lookup a (set_block moved.address stop s.contracts) ≡ some now)
      × (now.start_block ≡ info.start_block)
      × (info.current_block ≤ℤ now.current_block)
monitored-set_block moved stop s a info here forward h = elim (Bool-cases (moved.address == a)) [
  | inl same ↦
      let at : moved.address ≡ a = (==_iff moved.address a).0 same in
      let e : moved ≡ info = cc in
      (
        record info { current_block = stop },
        rw (lookup-set_block moved.address a stop s.contracts, same, h) refl,
        refl,
        subst (λ i. i.current_block ≤ℤ stop) e forward,
      )
  | inr other ↦
      (info, rw (lookup-set_block moved.address a stop s.contracts, other) h, refl, omega arith)
]

pub IsVisit-keep :
    (a : Address) (m m' : List (Address × ContractInfo)) (visit : List (Address × ContractInfo))
    → ((j : Address) → a ≢ j → lookup j m' ≡ lookup j m)
    → IsOther a visit
    → IsVisit m visit
    → IsVisit m' visit
IsVisit-keep a m m' [] keep other v = tt
IsVisit-keep a m m' ((j, info) ∷ visit) keep other v =
    (keep j other.0 ∙ v.0, v.1, IsVisit-keep a m m' visit keep other.1 v.2)

module _ (c : EthClient) (ledger : Ledger) (faithful : IsFaithful c ledger) where
  open c use {World}

  -- How a call of `processContractEvents` or a round leaves a service that was ready.
  abbrev pub Leaves : (Service → Type 0) → Option (Service × World) → Type 0
  Leaves P r = (s' : Service) × (w' : World) × (r ≡ some (s', w')) × IsReady ledger s' × P s'

  pub process-Leaves :
      (s : Service) (info : ContractInfo) (w : World)
      → IsReady ledger s
      → lookup info.address s.contracts ≡ some info
      → Leaves
          (λ s'.
            ((j : Address) → info.address ≢ j → lookup j s'.contracts ≡ lookup j s.contracts)
            × IsKept s s')
          (process_contract_events c s info w)
  process-Leaves s info w ready here =
      elim (process_contract_events_lem c ledger faithful s info w ready.range here) [
        | inl ((w', e), _) ↦ (s, w', e, ready, ((λ j _. refl), IsKept-refl s))
        | inr (h, _, _, scanned) ↦ (
          next ledger s info h scanned.stop,
          scanned.end_world,
          scanned.result,
          record {
            plain = ready.plain;
            range = ready.range;
            delivered =
                delivered-IsDelivered ledger s info h scanned.stop ready.plain here scanned.above
                  ready.delivered;
          },
          (
            (λ j other.
                ground (arith, lookup-set_block info.address j scanned.stop s.contracts, other)),
            record {
              filters = refl;
              monitored = λ a i h. monitored-set_block info scanned.stop s a i here scanned.above h;
              published = (_, refl);
            },
          ),
        )
      ]

  -- Let the node be faithful to the ledger. From a ready service (no confirmations asked for, queries
  -- of at least one block, and each contract's logs published once and in order up to its cursor), a
  -- round over the monitored contracts, in any order and with any failed queries, always returns, and
  -- leaves a service that is ready again, with the same filters and start blocks, no cursor moved
  -- back, and what was published before still there, before anything new.
  pub scan_contracts-Leaves :
      (visit : List (Address × ContractInfo)) (s : Service) (w : World)
      → IsReady ledger s
      → IsVisit s.contracts visit
      → Leaves (IsKept s) (scan_contracts c visit s w)
  unfolding scan_contracts
  scan_contracts-Leaves [] s w ready v = (s, w, refl, ready, IsKept-refl s)
  scan_contracts-Leaves ((a, info) ∷ visit) s w ready v =
      let keyed = ready.delivered.keyed a info v.0 in
      let (s', w', e, ready', (keep, kept)) =
        process-Leaves s info w ready
          (subst (λ t. lookup t s.contracts ≡ some info) (sym keyed) v.0) in
      let (s'', w'', e', ready'', kept') = scan_contracts-Leaves visit s' w' ready' (
        IsVisit-keep a s.contracts s'.contracts visit (λ j o. keep j (λ p. o (sym keyed ∙ p))) v.1
          v.2) in
      (s'', w'', rw (e, scan_contracts) e', ready'', IsKept-trans kept kept')

  Listening-IsReady :
      {s t : Service} → IsReady ledger s → Listening c s t → IsReady ledger t × IsKept s t
  Listening-IsReady {s} ready started = (ready, IsKept-refl s)
  Listening-IsReady ready (round {t} {u} visit w w' before v e) =
      let (now, kept) = Listening-IsReady ready before in
      let (t', w'', e', ready', kept') = scan_contracts-Leaves visit t w now v in
      let same : t' ≡ u = cc in (rw same at ready', IsKept-trans kept (rw same at kept'))

-- Contracts are registered, and nothing is scanned yet.
pub record IsFresh (s : Service) : Type 0 where
  pub silent : s.bus ≡ []
  pub keyed :
      (a : Address) (info : ContractInfo) → lookup a s.contracts ≡ some info → info.address ≡ a
  pub unscanned :
      (a : Address) (info : ContractInfo)
      → lookup a s.contracts ≡ some info
      → info.current_block ≡ info.start_block

pub IsFresh-IsDelivered : (ledger : Ledger) (s : Service) → IsFresh s → IsDelivered ledger s
unfolding logs_range
IsFresh-IsDelivered ledger s fresh = record {
  keyed = fresh.keyed;
  ordered = λ a info h. rw (fresh.unscanned a info h) (omega arith);
  once = λ a info h.
      let here : gap info.start_block info.current_block ≡ 0 =
        omega
          (arith, ap pos_part (fresh.unscanned a info h), ap neg_part (fresh.unscanned a info h)) in
      rw (here, fresh.silent, logs_range);
}

module _ (c : EthClient) (ledger : Ledger) where
  pub listening-IsKept :
      {s t : Service}
      → IsFaithful c ledger
      → s.confirmations ≡ 0
      → pos 1 ≤ℤ s.max_block_range
      → IsFresh s
      → Listening c s t
      → IsKept s t
  listening-IsKept {s} faithful plain range fresh run =
      (Listening-IsReady c ledger faithful
        (record { plain = plain; range = range; delivered = IsFresh-IsDelivered ledger s fresh })
        run).1

  -- Let the node be faithful to the ledger, and let no confirmations be asked for. From a service
  -- whose contracts are registered and not yet scanned, after any number of rounds, in whatever
  -- order they visit the contracts, whatever queries fail and wherever the rounds are cut short:
  -- for each monitored contract, the published events are the logs that pass the filters, of the
  -- blocks behind its start block up to its cursor, each once and in the order of the chain.
  pub listening_once :
      {s t : Service}
      → IsFaithful c ledger
      → s.confirmations ≡ 0
      → pos 1 ≤ℤ s.max_block_range
      → IsFresh s
      → Listening c s t
      → IsDelivered ledger t
  listening_once {s} faithful plain range fresh run =
      (Listening-IsReady c ledger faithful
        (record { plain = plain; range = range; delivered = IsFresh-IsDelivered ledger s fresh })
        run).0.delivered
