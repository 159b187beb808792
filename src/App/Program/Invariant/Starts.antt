-- ===== src/App/Program/Invariant/Starts.antt =====
-- `StartAll` starts a service.
use zkcertificates_queue_pro.Base.{
  ◌≡◌, sym, ap, subst, ◌∙◌, inl, inr, true, List, ◌++◌, Result, Bool-cases, All,
}
use zkcertificates_queue_pro.Evm.Types.{Address, Log, EthClient}
use zkcertificates_queue_pro.Evm.Scan.Ledger.{Ledger}
use zkcertificates_queue_pro.Manager.{Service}
use zkcertificates_queue_pro.Processor.Types.{Backend}
use zkcertificates_queue_pro.Processor.Types as Processor
use zkcertificates_queue_pro.Processor.Lifecycle as Loops
use zkcertificates_queue_pro.Processor.Lifecycle.Restart.{start_service-runs}
use zkcertificates_queue_pro.Processor.Loops.{Runs, running_set}
use zkcertificates_queue_pro.App.{OperationQueued, Loaded}
use zkcertificates_queue_pro.App.Services.{Process}
use zkcertificates_queue_pro.App.Program.{Program, state_of}
use zkcertificates_queue_pro.App.Program.Parts.{
  IsPublishing, connected-IsPublishing, start_service-connects, started-IsQueueing, busy_starts,
}
use zkcertificates_queue_pro.App.Program.Invariant.{
  IsRegistered, is_server, is_listener, is_processor, IsInOrder,
}

module _ (c : EthClient) (b : Backend) (ledger : Ledger)
    (parse : Address → Log → Result OperationQueued) (loaded : List (Address × Loaded))
    (p : Program c b) where
  Runs-start :
      (t : Program c b) (q : Loops.Running)
      → Runs b (state_of c b p) (record (state_of c b t) { service = q.service })
      → Runs b
          (state_of c b p)
          (record (state_of c b t) { service = (Loops.start_service q).service })
  Runs-start t q run = elim (Bool-cases q.service.is_running) [
    | inl busy ↦
        subst
          (λ (x : Loops.Running).
            Runs b (state_of c b p) (record (state_of c b t) { service = x.service }))
          (sym (busy_starts q busy)) run
    | inr idle ↦
        subst (λ x. Runs b (state_of c b p) (record (state_of c b t) { service = x }))
          (sym (start_service-runs q idle)) (running_set true run)
  ]

  running_after : (q : Loops.Running) → (Loops.start_service q).service.is_running ≡ true
  running_after q = elim (Bool-cases q.service.is_running) [
    | inl busy ↦ ap (λ (x : Loops.Running). x.service.is_running) (busy_starts q busy) ∙ busy
    | inr idle ↦ ap (λ (x : Processor.Service). x.is_running) (start_service-runs q idle)
  ]

  pub started-IsInOrder :
      (t : Program c b) (service : Service (Process c)) (rest : List (Service (Process c)))
      → (IsInOrder c b ledger parse loaded p) t
      → All (IsRegistered c b ledger) rest
      → IsRegistered c b ledger service
      → (IsInOrder c b ledger parse loaded p)
          (record t { process = service.start t.process; starting = rest })
  started-IsInOrder t service rest v others (is_server e) =
      subst
        (λ (x : Service (Process c)).
          (IsInOrder c b ledger parse loaded p)
            (record t { process = x.start t.process; starting = rest }))
        (sym e)
        (record {
          starts = others;
          publishing = v.publishing;
          queueing = v.queueing;
          unheard = v.unheard;
          runs = v.runs;
        })
  started-IsInOrder t service rest v others (is_listener e) =
      let (client, cancel, same) = start_service-connects c t.process.evm in
      subst
        (λ (x : Service (Process c)).
          (IsInOrder c b ledger parse loaded p)
            (record t { process = x.start t.process; starting = rest }))
        (sym e)
        (record {
          starts = others;
          publishing =
              subst (λ s. IsPublishing ledger p.process.evm.service s (t.missed ++ t.heard))
                (sym same) (connected-IsPublishing ledger v.publishing client cancel);
          queueing = v.queueing;
          unheard = v.unheard;
          runs = v.runs;
        })
  started-IsInOrder t service rest v others (is_processor e) =
      subst
        (λ (x : Service (Process c)).
          (IsInOrder c b ledger parse loaded p)
            (record t { process = x.start t.process; starting = rest }))
        (sym e)
        (record {
          starts = others;
          publishing = v.publishing;
          queueing = started-IsQueueing v.queueing;
          unheard = λ idle. let busy = running_after t.process.processor in cc;
          runs = Runs-start t t.process.processor v.runs;
        })
