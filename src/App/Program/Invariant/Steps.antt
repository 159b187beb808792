-- ===== src/App/Program/Invariant/Steps.antt =====
-- All that happens to the whole program.
use zkcertificates_queue_pro.Base.{◌≡◌, sym, ap, subst, ◌∙◌, some, List, ◌∷◌, Result, lookup, All}
use zkcertificates_queue_pro.Evm.Types.{Address, Log, EthClient}
use zkcertificates_queue_pro.Evm.Scan.Ledger.{Ledger, IsFaithful}
use zkcertificates_queue_pro.Processor.Types.{Registry, Backend}
use zkcertificates_queue_pro.Processor.Types as Processor
use zkcertificates_queue_pro.Processor.Lifecycle as Loops
use zkcertificates_queue_pro.Processor.Loops.{ticked, elapsed}
use zkcertificates_queue_pro.Processor.Queue.{check_and_process_registry_queue}
use zkcertificates_queue_pro.Processor.Queue.Checks.{check_and_process-Checks}
use zkcertificates_queue_pro.Processor.Queue.Provenance.{Checked-service}
use zkcertificates_queue_pro.App.{OperationQueued, Loaded}
use zkcertificates_queue_pro.App.Program.{
  Program, state_of, with_state, Execution, launched, next_started, scanned, told,
}
use zkcertificates_queue_pro.App.Program as Program
use zkcertificates_queue_pro.App.Program.Parts.{scanned-IsPublishing, same-IsQueueing}
use zkcertificates_queue_pro.App.Program.Invariant.{
  IsRegistered, IsLaunched, IsInOrder, launched-IsInOrder,
}
use zkcertificates_queue_pro.App.Program.Invariant.Starts.{started-IsInOrder}
use zkcertificates_queue_pro.App.Program.Invariant.Tells.{told-IsInOrder}

module _ (c : EthClient) (b : Backend) (ledger : Ledger)
    (parse : Address → Log → Result OperationQueued) (loaded : List (Address × Loaded))
    (p : Program c b) where
  ticked-IsInOrder :
      (t : Program c b) (loop : Loops.Loop) (registry : Registry)
      → (IsInOrder c b ledger parse loaded p) t
      → lookup loop.address t.process.processor.service.registries ≡ some registry
      → (IsInOrder c b ledger parse loaded p) (
          with_state c b
            (check_and_process_registry_queue b loop.address registry (state_of c b t)).1
            t)
  ticked-IsInOrder t loop registry v found =
      let checked = (check_and_process-Checks b loop.address registry (state_of c b t)).1 in
      let s = (check_and_process_registry_queue b loop.address registry (state_of c b t)).1 in
      let same = Checked-service b loop.address registry (state_of c b t) s checked in
      record {
        starts = v.starts;
        publishing = v.publishing;
        queueing = same-IsQueueing v.queueing s.service same;
        unheard =
            λ idle. v.unheard (sym (ap (λ (x : Processor.Service). x.is_running) same) ∙ idle);
        runs = ticked loop.address registry v.runs found;
      }

  pub Execution-IsInOrder :
      {t : Program c b}
      → IsFaithful c ledger
      → IsLaunched c b ledger p
      → Execution c b parse loaded p t
      → (IsInOrder c b ledger parse loaded p) t
  Execution-IsInOrder faithful first launched = launched-IsInOrder c b ledger parse loaded p first
  Execution-IsInOrder faithful first (next_started {t} service rest run e) =
      let v = Execution-IsInOrder faithful first run in
      let starts : All (IsRegistered c b ledger) (service ∷ rest) =
        subst (All (IsRegistered c b ledger)) e v.starts in
      started-IsInOrder c b ledger parse loaded p t service rest v starts.1 starts.0
  Execution-IsInOrder faithful first (scanned {t} listener visit s w run listens visits e) =
      let v = Execution-IsInOrder faithful first run in
      record {
        starts = v.starts;
        publishing =
            scanned-IsPublishing ledger v.publishing c visit s t.process.evm.world w faithful visits
              e;
        queueing = v.queueing;
        unheard = v.unheard;
        runs = v.runs;
      }
  Execution-IsInOrder faithful first (told {t} event later run e) =
      told-IsInOrder c b ledger parse loaded p t event later
        (Execution-IsInOrder faithful first run) e
  Execution-IsInOrder faithful first (Program.ticked {t} loop registry run runs found) =
      ticked-IsInOrder t loop registry (Execution-IsInOrder faithful first run) found
  Execution-IsInOrder faithful first (Program.elapsed {t} x w run) =
      let v = Execution-IsInOrder faithful first run in
      record {
        starts = v.starts;
        publishing = v.publishing;
        queueing = v.queueing;
        unheard = v.unheard;
        runs = elapsed w v.runs;
      }
