-- ===== src/App/Examples/Program/Run.antt =====
-- The theorem about the whole program, at a run in which the listener publishes an operation before
-- the processor has subscribed.
use mathlib.Core.List.{Memᴰ}
use zkcertificates_queue_pro.Base.{
  ◌≡◌, refl, ap, subst, true, false, some, [], ◌∷◌, map, lookup, All, if◌then◌else◌,
}
use zkcertificates_queue_pro.Base.Int.{pos, ◌+ℤ◌, ◌-ℤ◌}
use zkcertificates_queue_pro.Evm.Types.{Address}
use zkcertificates_queue_pro.Evm.Scan.Ledger.{logs_range}
use zkcertificates_queue_pro.Evm.Types as Evm
use zkcertificates_queue_pro.Processor.Types.{Registry}
use zkcertificates_queue_pro.App.{Loaded, registry_config, relay}
use zkcertificates_queue_pro.Processor.Lifecycle.{Loop, publish_all, start_service}
use zkcertificates_queue_pro.Processor.Queue.{
  check_and_process_registry_queue, handle_operation_queued,
}
use zkcertificates_queue_pro.Processor.Queue.Keys.{keys}
use zkcertificates_queue_pro.Processor.Loops.Justified.{IsDueFor, IsConfigured}
use zkcertificates_queue_pro.App.Starts.{start_from}
use zkcertificates_queue_pro.App.Services.{http_server, evm_service, queue_processor}
use zkcertificates_queue_pro.App.Program.{
  Program, state_of, with_state, with_listener, tell, Execution, launched, next_started, scanned,
  told, ticked,
}
use zkcertificates_queue_pro.Evm.Types.{ContractInfo}
use zkcertificates_queue_pro.Evm.Scan.Progress.{IsAnswering}
use zkcertificates_queue_pro.Evm.Listen.Progress.{IsAtLeast}
use zkcertificates_queue_pro.App.Program.Progress.{IsComplete, catches_up}
use zkcertificates_queue_pro.Base.Int.{int_laws}
use zkcertificates_queue_pro.App.Program.Sound.{IsAccounted, whole_program}
use zkcertificates_queue_pro.Manager.{new_manager, register}
use zkcertificates_queue_pro.Evm.Lifecycle as Listener
use zkcertificates_queue_pro.Evm.Scan.{
  process_contract_events, process_chunks, process_chunk, process_logs, process_log, publish,
  update_contract_block, chunk_end_block, filtered_out, unconfirmed,
}
use zkcertificates_queue_pro.Evm.Listen.{scan_contracts}
use zkcertificates_queue_pro.App.Examples.{seven, height, file, config, in_order, parse, kyc}
use zkcertificates_queue_pro.App.Examples.Program.{
  accepting, begin, begin-IsSetUp, client, client-IsFaithful, event_at, keyed, ledger, made_lem,
  set_up, watching,
}

abbrev Reached : Program client accepting → Type 1
Reached = Execution client accepting parse ((7, kyc) ∷ []) begin

-- The server and the EVM service are started.
abbrev listening : Program client accepting
listening = record begin {
  process = (evm_service client).start ((http_server client).start begin.process);
  starting = queue_processor client ∷ [];
}

run_listening : Reached listening
unfolding register new_manager
run_listening =
    next_started (evm_service client) (queue_processor client ∷ [])
      (next_started (http_server client) (evm_service client ∷ queue_processor client ∷ []) launched
        refl)
      refl

abbrev scanned_service : Evm.Service
scanned_service = record watching {
  client = true;
  cancel = true;
  bus = event_at 5 ∷ event_at 8 ∷ [];
  contracts = (7, record { address = 7; start_block = pos 2; current_block = pos 10 }) ∷ [];
}

scanned_lem :
    scan_contracts client watching.contracts listening.process.evm.service tt
    ≡ some (scanned_service, tt)
unfolding scan_contracts process_contract_events process_chunks process_chunk process_logs
    process_log publish update_contract_block chunk_end_block filtered_out unconfirmed ◌+ℤ◌ ◌-ℤ◌
    logs_range Listener.start_service
scanned_lem = refl

abbrev scanned_once : Program client accepting
scanned_once = with_listener client accepting scanned_service tt listening

run_scanned : Reached scanned_once
unfolding Listener.start_service
run_scanned =
    scanned 0 watching.contracts scanned_service tt run_listening (Memᴰ.head refl) (refl, tt, tt)
      scanned_lem

-- The bus tells of the first event, and then the processor is started.
abbrev told_early : Program client accepting
told_early = tell client accepting parse ((7, kyc) ∷ []) (event_at 5) scanned_once

abbrev all_started : Program client accepting
all_started = record told_early {
  process = (queue_processor client).start told_early.process;
  starting = [];
}

run_started : Reached all_started
unfolding tell
run_started =
    next_started (queue_processor client) [] (told (event_at 5) (event_at 8 ∷ []) run_scanned refl)
      refl

-- It hears of the second, and a loop ticks.
abbrev told_late : Program client accepting
told_late = tell client accepting parse ((7, kyc) ∷ []) (event_at 8) all_started

run_told : Reached told_late
unfolding tell relay publish_all
run_told = told (event_at 8) [] run_started refl

abbrev kyc_registry : Registry
kyc_registry = record {
  name = "kyc";
  address = 7;
  current_queue_pointer = 0;
  queue =
      record { hash = 108; guardian = 3; queue_index = 0; state = 1; is_processing = false } ∷ [];
}

abbrev kyc_loop : Loop
kyc_loop = record { address = 7; interval = pos 10_000_000_000 }

abbrev sent_once : Program client accepting
sent_once =
    with_state client accepting
      (check_and_process_registry_queue accepting 7 kyc_registry
        (state_of client accepting told_late)).1
      told_late

run_ticked : Reached sent_once
unfolding tell relay publish_all start_service handle_operation_queued
run_ticked = ticked kyc_loop kyc_registry run_told (Memᴰ.head refl) refl

whole_program_example :
    ((a : Address) (registry : Loaded)
      → lookup a set_up.loaded ≡ some registry
      → (w : Unit {0}) × IsAccounted keyed client accepting height seven file config in_order parse
          ledger registry.name a
          (start_from registry.start_block (height a w).0)
          sent_once)
    × All
        (λ x.
          IsDueFor accepting (state_of client accepting begin) x
          × IsConfigured accepting (map (registry_config seven) set_up.entries) x)
        sent_once.sent
    × (map (λ (l : Loop). l.address) sent_once.process.processor.loops ≡ (
        if sent_once.process.processor.service.is_running
        then keys sent_once.process.processor.service.registries
        else []))
whole_program_example =
    whole_program keyed client accepting height seven file config in_order parse ledger set_up begin
      sent_once begin-IsSetUp client-IsFaithful
      (subst (λ loaded. Execution client accepting parse loaded begin sent_once)
        (ap (λ x. x.2) made_lem) run_ticked)

-- The first event was missed.
sent_once_missed : sent_once.missed ≡ event_at 5 ∷ []
unfolding tell start_service publish_all relay
sent_once_missed = refl

client-IsAnswering : IsAnswering client
client-IsAnswering = record { answers = λ a from to w e h. cc }

client-IsAtLeast : IsAtLeast client (pos 10)
client-IsAtLeast = record { latest = λ w. (pos 10, refl, omega int_laws) }

-- The second event is still to be told, and the listener has scanned all ten blocks.
catches_up_example :
    (u : Program client accepting) × Execution client accepting parse set_up.loaded all_started u
    × (u.missed ≡ all_started.missed)
    × ((a : Address) (registry : Loaded) (info : ContractInfo)
        → lookup a set_up.loaded ≡ some registry
        → lookup a scanned_service.contracts ≡ some info
        → IsComplete keyed client accepting height seven file config in_order parse ledger set_up
            begin begin-IsSetUp
            (pos 10)
            a
            registry
            u)
unfolding tell start_service publish_all relay Listener.start_service
catches_up_example =
    catches_up keyed client accepting height seven file config in_order parse ledger set_up begin
      begin-IsSetUp (pos 10) all_started 0 scanned_service.contracts client-IsFaithful
      client-IsAnswering client-IsAtLeast
      (subst (λ loaded. Execution client accepting parse loaded begin all_started)
        (ap (λ x. x.2) made_lem) run_started)
      refl (Memᴰ.head refl) (refl, tt, tt)
