-- ===== src/App/Program/Invariant/Tells.antt =====
-- The bus tells of an event.
use zkcertificates_queue_pro.Base.{
  ◌≡◌, refl, sym, ap, subst, ◌∙◌, inl, inr, true, false, List, [], ◌∷◌, ◌++◌, append_assoc,
  append-nil, Result, Bool-cases,
}
use zkcertificates_queue_pro.Evm.Types.{Address, Log, ContractEvent, EthClient}
use zkcertificates_queue_pro.Evm.Scan.Ledger.{Ledger}
use zkcertificates_queue_pro.Processor.Types.{OperationQueuedEvent, Backend, State}
use zkcertificates_queue_pro.Processor.Loops.{Runs, handled}
use zkcertificates_queue_pro.Processor.Queue.Keys.{handle_all-IsQueued}
use zkcertificates_queue_pro.Processor.Queue.Memory.{handle_all}
use zkcertificates_queue_pro.App.{OperationQueued, Loaded, relay, relay_all}
use zkcertificates_queue_pro.App.Program.{Program, state_of, with_processor, told_to, tell}
use zkcertificates_queue_pro.App.Program.Parts.{
  IsPublishing, told-IsPublishing, IsQueueing, unheard, heard-IsQueueing, subscriptions-running,
  heard-publishes,
}
use zkcertificates_queue_pro.App.Program.Invariant.{IsInOrder}

-- Events run the loops' state.
Runs-handle_all :
    (b : Backend) (s : State b.World) (events : List OperationQueuedEvent) (t : State b.World)
    → Runs b s t
    → Runs b s (record t { service = handle_all events t.service })
unfolding handle_all
Runs-handle_all b s [] t run = run
Runs-handle_all b s (event ∷ events) t run = Runs-handle_all b s events _ (handled event run)

module _ (parse : Address → Log → Result OperationQueued) (loaded : List (Address × Loaded)) where
  relay_all-snoc :
      (xs : List ContractEvent) (y : ContractEvent)
      → relay_all parse loaded (xs ++ y ∷ []) ≡ relay_all parse loaded xs ++ relay parse loaded y
  unfolding relay_all
  relay_all-snoc [] y = append-nil (relay parse loaded y)
  relay_all-snoc (x ∷ xs) y =
      ap (λ l. relay parse loaded x ++ l) (relay_all-snoc xs y)
      ∙ sym (append_assoc (relay parse loaded x) (relay_all parse loaded xs) (relay parse loaded y))

module _ (c : EthClient) (b : Backend) (ledger : Ledger)
    (parse : Address → Log → Result OperationQueued) (loaded : List (Address × Loaded))
    (p : Program c b) where
  tell_idle :
      (t : Program c b) (event : ContractEvent)
      → (IsInOrder c b ledger parse loaded p) t
      → t.process.processor.service.is_running ≡ false
      → tell c b parse loaded event t ≡ record t { missed = t.missed ++ event ∷ [] }
  unfolding tell
  tell_idle t event v idle =
      rw
        (
          unheard v.queueing (relay parse loaded event) idle,
          subscriptions-running v.queueing false idle,
          told_to,
        )
        refl

  pub tell_busy :
      (t : Program c b) (event : ContractEvent)
      → (IsInOrder c b ledger parse loaded p) t
      → t.process.processor.service.is_running ≡ true
      → tell c b parse loaded event t
        ≡ with_processor c b
            (record t.process.processor {
              service = handle_all (relay parse loaded event) t.process.processor.service;
            })
            (record t { heard = t.heard ++ event ∷ [] })
  unfolding tell
  tell_busy t event v busy =
      rw
        (
          heard-publishes v.queueing (relay parse loaded event) busy,
          subscriptions-running v.queueing true busy,
          told_to,
        )
        refl

  pub told-IsInOrder :
      (t : Program c b) (event : ContractEvent) (later : List ContractEvent)
      → (IsInOrder c b ledger parse loaded p) t
      → t.process.evm.service.bus ≡ (t.missed ++ t.heard) ++ event ∷ later
      → (IsInOrder c b ledger parse loaded p) (tell c b parse loaded event t)
  told-IsInOrder t event later v e =
      let told = told-IsPublishing ledger v.publishing event later e in
      elim (Bool-cases t.process.processor.service.is_running) [
        | inr idle ↦
            subst (IsInOrder c b ledger parse loaded p) (sym (tell_idle t event v idle)) (record {
              starts = v.starts;
              publishing =
                  subst (IsPublishing ledger p.process.evm.service t.process.evm.service)
                    (ap (λ l. (t.missed ++ l) ++ event ∷ []) (v.unheard idle)
                      ∙ ap (λ l. l ++ event ∷ []) (append-nil t.missed)
                      ∙ sym (append-nil (t.missed ++ event ∷ []))
                      ∙ ap (λ l. (t.missed ++ event ∷ []) ++ l) (sym (v.unheard idle)))
                    told;
              queueing = v.queueing;
              unheard = v.unheard;
              runs = v.runs;
            })
        | inl busy ↦
            subst (IsInOrder c b ledger parse loaded p) (sym (tell_busy t event v busy)) (record {
              starts = v.starts;
              publishing =
                  subst (IsPublishing ledger p.process.evm.service t.process.evm.service)
                    (append_assoc t.missed t.heard (event ∷ [])) told;
              queueing =
                  subst
                    (IsQueueing p.process.processor (record t.process.processor {
                      service = handle_all (relay parse loaded event) t.process.processor.service;
                    }))
                    (sym (relay_all-snoc parse loaded t.heard event))
                    (heard-IsQueueing v.queueing (relay parse loaded event) busy);
              unheard = λ idle.
                  let same =
                    (handle_all-IsQueued (relay parse loaded event)
                      t.process.processor.service).same_running in
                  cc;
              runs = Runs-handle_all b _ (relay parse loaded event) (state_of c b t) v.runs;
            })
      ]
