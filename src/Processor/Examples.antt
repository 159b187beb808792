-- ===== src/Processor/Examples.antt =====
-- The theorems about queueprocessor/ at a small world: one item is due, and the node refuses the
-- first transaction that it is sent.
mod Interleave
mod Lifecycle
mod Due
mod Loops
use zkcertificates_queue_pro.Base.{
  ℕ, zero, suc, String, ◌⊎◌, ◌+◌, ◌≡◌, refl, true, none, some, List, [], ◌∷◌, map, Result, ok, err,
  lookup,
}
use zkcertificates_queue_pro.Base.Int.{pos, int64}
use zkcertificates_queue_pro.Evm.Types.{Address, Hash}
use zkcertificates_queue_pro.Processor.Types.{
  OperationQueuedEvent, RegistryConfig, Registry, Service, Backend, State, Sent,
}
use zkcertificates_queue_pro.Processor.Nonce.{
  Submission, prepare_transactor, before_attempt, attempt_once, submit_with_retry,
}
use zkcertificates_queue_pro.Processor.Nonce.Retry.{SubmissionOf, submit_with_retry-SubmissionOf}
use zkcertificates_queue_pro.Processor.Operations.{
  returned, submit_operation, complete_operation, process_issuance, process_revocation,
}
use zkcertificates_queue_pro.Processor.Operations.Completion.{
  Ends, process_issuance-Ends, process_revocation-Ends,
}
use zkcertificates_queue_pro.Processor.Queue.{
  check_and_process_registry_queue, monitor_registry_queue, get_queue_length,
}
use zkcertificates_queue_pro.Processor.Setup.{Environment, new_service_with_multiple_registries}
use zkcertificates_queue_pro.Processor.Setup.Registries.{Started, Unstarted, new_service-Started}
use zkcertificates_queue_pro.Processor.Queue.Checks.{Checks}
use zkcertificates_queue_pro.Processor.Queue.Monitor.{Monitored, monitor_registry_queue-Ends}
use zkcertificates_queue_pro.Processor.Queue.Memory.{
  handle_all, operations_for, with_operations, lookup-handle_all, queue_never_drained,
}

-- The world counts the transactions sent to the node, which refuses the first.
answer_submission : ℕ → Result Hash × ℕ
answer_submission zero = (err "replacement transaction underpriced", 1)
answer_submission (suc n) = (ok 77, suc (suc n))

abbrev small : Backend
small = record {
  World = ℕ;
  Element = ℕ;
  current_queue_pointer = λ a w. (ok 4, w);
  get_zk_certificate_queue_length = λ a w. (ok 5, w);
  zk_certificate_queue = λ a i w. (ok (1000 + i), w);
  zk_certificate_processing_data =
      λ a h w. (ok (record { guardian = 3; queue_index = 4; state = 1 }), w);
  is_zk_certificate_in_turn = λ a h w. (ok true, w);
  process_next_operation = λ a opts leaf h proof w. answer_submission w;
  pending_nonce_at = λ a w. (ok 9, w);
  get_empty_leaf_proof = λ a w. (ok (6, 11 ∷ 12 ∷ []), w);
  get_proof = λ a leaf w. (err "no such leaf", w);
  now = λ w. (0, w);
  sleep = λ t w. w;
  rand_read = λ n w. (10 ∷ 27 ∷ 44 ∷ 61 ∷ [], w);
  encode_to_string = λ bytes. "0a1b2c3d";
  bytes32 = λ e. e;
  hex = λ a. "0xaddress";
  hash_hex = λ h. "0xhash";
  big_int_string = λ n. "105";
  bytes_to_hex = λ h. "hash";
  key_address = λ k. 500;
  new_keyed_transactor = λ k id. ok 500;
}

abbrev kyc : Registry
kyc = record { name = "kyc"; address = 7; current_queue_pointer = 0; queue = [] }

abbrev keyed : Service
keyed = record {
  name = "queue-processor";
  registries = (7, kyc) ∷ [];
  is_running = true;
  check_interval = pos 10_000_000_000;
  merkle_service_url = "url";
  merkle_service_tls = true;
  private_key = some 42;
  chain_id = pos 843_843;
  current_nonce = none;
}

abbrev start : State ℕ
start = record { service = keyed; world = 0; sent = []; outputs = [] }

abbrev submission : Submission × State ℕ
submission = submit_with_retry small 42 (submit_operation small 7 6 1004 (11 ∷ 12 ∷ [])) 3 start

submit_with_retry-SubmissionOf_example :
    SubmissionOf small 42 7 6 1004 (11 ∷ 12 ∷ []) 3 start submission.0 submission.1
submit_with_retry-SubmissionOf_example =
    submit_with_retry-SubmissionOf small 42 7 6 1004 (11 ∷ 12 ∷ []) 3 start

process_issuance-Ends_example :
    (w : ℕ) × Ends small 7 1004
      (ok (6, 11 ∷ 12 ∷ []))
      start
      (process_issuance small 7 kyc 1004 4 start)
process_issuance-Ends_example = process_issuance-Ends small 7 kyc 1004 4 start

process_revocation-Ends_example :
    (w : ℕ) × Ends small 7 1004
      (err "no such leaf")
      start
      (process_revocation small 7 kyc 1004 4 start)
process_revocation-Ends_example = process_revocation-Ends small 7 kyc 1004 4 start

monitor_registry_queue-Ends_example :
    Monitored small 7 kyc start (monitor_registry_queue small 7 kyc 3 start)
monitor_registry_queue-Ends_example = monitor_registry_queue-Ends small 7 kyc 3 start

abbrev event_for : Address → Hash → OperationQueuedEvent
event_for a h = record {
  registry_address = a;
  registry_name = "kyc";
  zk_certificate_leaf_hash = h;
  guardian = 3;
  operation = 1;
  queue_index = 4;
}

abbrev some_events : List OperationQueuedEvent
some_events = event_for 7 1004 ∷ event_for 8 1005 ∷ event_for 7 1006 ∷ []

lookup-handle_all_example :
    lookup 7 (handle_all some_events keyed).registries
    ≡ some (with_operations (operations_for 7 some_events) kyc)
lookup-handle_all_example = lookup-handle_all some_events keyed 7

queue_never_drained_example :
    get_queue_length
      (handle_all some_events (check_and_process_registry_queue small 7 kyc start).1.service)
    ≡ get_queue_length keyed + 2
queue_never_drained_example = queue_never_drained small 7 kyc some_events start

-- The tick at this world sends two transactions: the second, with the same nonce, is taken.
tick_nonces :
    map (λ (t : Sent). t.opts.nonce) (check_and_process_registry_queue small 7 kyc start).1.sent
    ≡ pos 9 ∷ pos 9 ∷ []
unfolding check_and_process_registry_queue process_issuance complete_operation submit_with_retry
    attempt_once prepare_transactor before_attempt submit_operation answer_submission int64
tick_nonces = refl

-- Two configs with one address: the later name stays.
abbrev configs : List RegistryConfig
configs = record { name = "kyc"; address = 7 } ∷ record { name = "kyb"; address = 7 } ∷ []

abbrev environment : Environment
environment = record {
  getenv = λ name. "";
  new_zk_certificate_registry = λ a. ok tt;
  parse_bool = λ text. err "invalid syntax";
  connect_to_merkle_proof_service = λ url tls. ok tt;
  hex_to_ecdsa = λ text. ok 42;
}

new_service-Started_example :
    Started environment configs (
      new_service_with_multiple_registries environment "queue-processor" configs (ok (pos 843_843)))
    ⊎ ((e : String) × (new_service_with_multiple_registries environment "queue-processor" configs
            (ok (pos 843_843))
          ≡ err e)
        × Unstarted environment configs (ok (pos 843_843)))
new_service-Started_example =
    new_service-Started environment "queue-processor" configs (ok (pos 843_843))
