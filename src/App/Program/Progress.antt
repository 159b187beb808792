-- ===== src/App/Program/Progress.antt =====
-- The whole program can always catch up with the chain.
use mathlib.Core.List.{Memᴰ}
use zkcertificates_queue_pro.Base.{
  ℕ, String, ◌≡◌, refl, sym, ap, subst, ◌∙◌, true, some, List, [], ◌∷◌, ◌++◌, append_assoc,
  append-nil, Result, lookup,
}
use zkcertificates_queue_pro.Base.Int.{ℤ, ◌≤ℤ◌}
use zkcertificates_queue_pro.Evm.Types.{Address, Log, ContractEvent, ContractInfo, EthClient}
use zkcertificates_queue_pro.Evm.Types as Evm
use zkcertificates_queue_pro.Evm.Scan.Ledger.{Ledger, IsFaithful}
use zkcertificates_queue_pro.Evm.Scan.Progress.{IsAnswering}
use zkcertificates_queue_pro.Evm.Listen.{IsVisit}
use zkcertificates_queue_pro.Evm.Listen.Progress.{IsAtLeast, scan_contracts-Reaches}
use zkcertificates_queue_pro.Processor.Types.{Backend}
use zkcertificates_queue_pro.Processor.Setup.{Environment}
use zkcertificates_queue_pro.Processor.Queue.Keys.{handle_all-IsQueued}
use zkcertificates_queue_pro.Processor.Queue.Memory.{handle_all}
use zkcertificates_queue_pro.App.{RegistryEntry, OperationQueued, Loaded, Launch, relay}
use zkcertificates_queue_pro.App.Starts.{start_from}
use zkcertificates_queue_pro.App.Startup.{SetUp}
use zkcertificates_queue_pro.App.Program.{
  Program, with_listener, with_processor, Execution, launched, next_started, scanned, told, ticked,
  elapsed,
}
use zkcertificates_queue_pro.App.Program.Invariant.{IsLaunched}
use zkcertificates_queue_pro.App.Program.Invariant.Tells.{tell_busy}
use zkcertificates_queue_pro.App.Program.Invariant.Steps.{Execution-IsInOrder}
use zkcertificates_queue_pro.App.Program.Sound.{IsSetUp, SetUp-IsLaunched, IsAccounted, accounted}

none_left : (xs ys : List ContractEvent) → xs ≡ xs ++ ys → ys ≡ []
none_left [] ys e = sym e
none_left (x ∷ xs) ys e = none_left xs ys cc

Execution-trans :
    (c : EthClient) (b : Backend) (parse : Address → Log → Result OperationQueued)
    (loaded : List (Address × Loaded)) {p t u : Program c b}
    → Execution c b parse loaded p t
    → Execution c b parse loaded t u
    → Execution c b parse loaded p u
Execution-trans c b parse loaded run launched = run
Execution-trans c b parse loaded run (next_started service rest more e) =
    next_started service rest (Execution-trans c b parse loaded run more) e
Execution-trans c b parse loaded run (scanned listener visit s w more listens visits e) =
    scanned listener visit s w (Execution-trans c b parse loaded run more) listens visits e
Execution-trans c b parse loaded run (told event later more e) =
    told event later (Execution-trans c b parse loaded run more) e
Execution-trans c b parse loaded run (ticked loop registry more runs found) =
    ticked loop registry (Execution-trans c b parse loaded run more) runs found
Execution-trans c b parse loaded run (elapsed v w more) =
    elapsed v w (Execution-trans c b parse loaded run more)

module _ (c : EthClient) (b : Backend) (ledger : Ledger) (faithful : IsFaithful c ledger)
    (parse : Address → Log → Result OperationQueued) (loaded : List (Address × Loaded))
    (p : Program c b) (first : IsLaunched c b ledger p) where
  -- From `t` on, the bus has told of all that the listener of `t` has published.
  record HasTold (t u : Program c b) : Type 1 where
    run : Execution c b parse loaded t u
    same_missed : u.missed ≡ t.missed
    same_listener : u.process.evm.service ≡ t.process.evm.service
    all_told : u.process.evm.service.bus ≡ u.missed ++ u.heard

  tell_all :
      (pending : List ContractEvent) (t : Program c b)
      → Execution c b parse loaded p t
      → t.process.processor.service.is_running ≡ true
      → t.process.evm.service.bus ≡ (t.missed ++ t.heard) ++ pending
      → (u : Program c b) × HasTold t u
  tell_all [] t run busy e = (
    t,
    record {
      run = launched;
      same_missed = refl;
      same_listener = refl;
      all_told = e ∙ append-nil (t.missed ++ t.heard);
    },
  )
  tell_all (event ∷ later) t run busy e =
      let next =
        with_processor c b
          (record t.process.processor {
            service = handle_all (relay parse loaded event) t.process.processor.service;
          })
          (record t { heard = t.heard ++ event ∷ [] }) in
      let moved : Execution c b parse loaded t next =
        subst (Execution c b parse loaded t)
          (tell_busy c b ledger parse loaded p t event
            (Execution-IsInOrder c b ledger parse loaded p faithful first run) busy)
          (told event later launched e) in
      let (u, v) =
        tell_all later next (Execution-trans c b parse loaded run moved)
          ((handle_all-IsQueued (relay parse loaded event) t.process.processor.service).same_running
            ∙ busy)
          (e
            ∙ sym (append_assoc (t.missed ++ t.heard) (event ∷ []) later)
            ∙ ap (λ l. l ++ later) (append_assoc t.missed t.heard (event ∷ []))) in
      (
        u,
        record {
          run = Execution-trans c b parse loaded moved v.run;
          same_missed = v.same_missed;
          same_listener = v.same_listener;
          all_told = v.all_told;
        },
      )

module _ (env : Environment) (c : EthClient) (b : Backend)
    (init_block_height : Address → c.World → Result ℕ × c.World) (hex_to_address : String → Address)
    (read_file : String → Result (List ℕ)) (unmarshal : List ℕ → Result (List RegistryEntry))
    (order : List (Address × Loaded) → List (Address × Loaded))
    (parse : Address → Log → Result OperationQueued) (ledger : Ledger) where
  module _ {r : Launch}
      (up : SetUp env c init_block_height hex_to_address read_file unmarshal order r)
      (p : Program c b)
      (v : IsSetUp env c b init_block_height hex_to_address read_file unmarshal order parse ledger
        up p) where
    -- Nothing of the registry is on its way, and the listener has come to block `h`.
    abbrev pub IsComplete : ℤ → Address → Loaded → Program c b → Type 0
    IsComplete h a registry u =
        (w : c.World) × (x : IsAccounted env c b init_block_height hex_to_address read_file
          unmarshal order parse ledger registry.name a
          (start_from registry.start_block (init_block_height a w).0) u)
        × (x.pending ≡ [])
        × (h ≤ℤ x.info.current_block)

    -- Let the node be faithful to the ledger and refuse no query, and let its latest block be `h` or
    -- above it. From every state that the started program comes to, with a listener and the processor
    -- running, it can go on to one in which the queue of each loaded registry of a round from there
    -- holds all operations of the chain behind its start block up to `h`, those aside that the bus told
    -- before the processor had subscribed: there are no more of these than before.
    pub catches_up :
        (h : ℤ) (t : Program c b) (listener : ℕ) (visit : List (Address × ContractInfo))
        → IsFaithful c ledger
        → IsAnswering c
        → IsAtLeast c h
        → Execution c b parse up.loaded p t
        → t.process.processor.service.is_running ≡ true
        → Memᴰ listener t.process.evm.listeners
        → IsVisit t.process.evm.service.contracts visit
        → (u : Program c b) × Execution c b parse up.loaded t u
          × (u.missed ≡ t.missed)
          × ((a : Address) (registry : Loaded) (info : ContractInfo)
              → lookup a up.loaded ≡ some registry
              → lookup a visit ≡ some info
              → IsComplete h a registry u)
    catches_up h t listener visit faithful answering latest run busy listens visits =
        let begins =
          SetUp-IsLaunched env c b init_block_height hex_to_address read_file unmarshal order parse
            ledger up p t v in
        let now = Execution-IsInOrder c b ledger parse up.loaded p faithful begins run in
        let (s, w, e, ready, (kept, reached)) =
          scan_contracts-Reaches c ledger faithful answering h latest visit t.process.evm.service
            t.process.evm.world now.publishing.ready visits in
        let next = with_listener c b s w t in
        let step : Execution c b parse up.loaded t next =
          scanned listener visit s w launched listens visits e in
        let run' : Execution c b parse up.loaded p next =
          scanned listener visit s w run listens visits e in
        let now' = Execution-IsInOrder c b ledger parse up.loaded p faithful begins run' in
        let (u, all) =
          tell_all c b ledger faithful parse up.loaded p begins now'.publishing.pending next run'
            busy now'.publishing.behind in
        let on : Execution c b parse up.loaded t u =
          Execution-trans c b parse up.loaded step all.run in
        (
          u,
          on,
          all.same_missed,
          (λ a registry info known visited.
              let later =
                Execution-IsInOrder c b ledger parse up.loaded p faithful begins
                  (Execution-trans c b parse up.loaded run on) in
              let (x, acc) =
                accounted env c b init_block_height hex_to_address read_file unmarshal order parse
                  ledger up p u v a registry later known in
              let (cursor, found, high) = reached a info visited in
              let here : lookup a u.process.evm.service.contracts ≡ some cursor =
                ap (λ (s : Evm.Service). lookup a s.contracts) all.same_listener ∙ found in
              let there = acc.monitored in
              let same : cursor ≡ acc.info = cc in
              (
                x,
                acc,
                none_left (u.missed ++ u.heard) acc.pending (sym all.all_told ∙ acc.published),
                subst (λ (i : ContractInfo). h ≤ℤ i.current_block) same high,
              )),
        )
