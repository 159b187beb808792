-- ===== src/Processor/Queue/Memory.antt =====
-- The queue in memory: `handleOperationQueued` fills it, and nothing takes from it.
use mathlib.Core.Option
use zkcertificates_queue_pro.Base.{
  ◌+◌, ◌≡◌, refl, sym, ap, ◌∙◌, inl, inr, Bool, true, false, Option, none, some, List, [], ◌∷◌,
  ◌++◌, map, append_assoc, append-nil, length, length-append, Option-cases, arith, keep_if,
  keep_if-append, map-append, lookup, insert, lookup-insert, ◌==◌, if◌then◌else◌,
}
use zkcertificates_queue_pro.Evm.Types.{Address}
use zkcertificates_queue_pro.Processor.Types.{
  QueuedOperation, OperationQueuedEvent, Registry, Service, Backend, State,
}
use zkcertificates_queue_pro.Processor.Queue.Checks.{Checked, check_and_process-Checks}
use zkcertificates_queue_pro.Processor.Queue.Provenance.{Checked-service}
use zkcertificates_queue_pro.Processor.Queue.{
  queued_operation, add_to_queue, handle_operation_queued, queue_lengths, get_queue_length,
  check_and_process_registry_queue,
}

abbrev pub is_some : Option Registry → Bool
is_some none = false
is_some (some r) = true

-- The events that the bus delivers, one after the other.
unfoldable pub handle_all : List OperationQueuedEvent → Service → Service
handle_all [] s = s
handle_all (event ∷ events) s = handle_all events (handle_operation_queued event s)

-- The operations that the events queue for a registry.
abbrev pub operations_for : Address → List OperationQueuedEvent → List QueuedOperation
operations_for a events = map queued_operation (keep_if (λ e. e.registry_address == a) events)

pub operations_for-append :
    (a : Address) (xs ys : List OperationQueuedEvent)
    → operations_for a (xs ++ ys) ≡ operations_for a xs ++ operations_for a ys
operations_for-append a xs ys = rw (keep_if-append, map-append) refl

abbrev pub with_operations : List QueuedOperation → Registry → Registry
with_operations ops registry = record registry { queue = registry.queue ++ ops }

pub with_operations-nil : (o : Option Registry) → Option.map (with_operations []) o ≡ o
with_operations-nil none = refl
with_operations-nil (some registry) =
    ap (λ q. some (record registry { queue = q })) (append-nil registry.queue)

pub with_operations-append :
    (xs ys : List QueuedOperation) (o : Option Registry)
    → Option.map (with_operations ys) (Option.map (with_operations xs) o)
      ≡ Option.map (with_operations (xs ++ ys)) o
with_operations-append xs ys none = refl
with_operations-append xs ys (some registry) =
    ap (λ q. some (record registry { queue = q })) (append_assoc registry.queue xs ys)

-- One event goes to the queue of its registry, if that is known, and nowhere else.
lookup-handle_operation_queued :
    (event : OperationQueuedEvent) (s : Service) (a : Address)
    → lookup a (handle_operation_queued event s).registries
      ≡ Option.map (with_operations (operations_for a (event ∷ []))) (lookup a s.registries)
unfolding handle_operation_queued
lookup-handle_operation_queued event s a =
    elim (Option-cases (lookup event.registry_address s.registries)) [
      | inl missing ↦
          rw (missing, add_to_queue)
            (ground (arith, missing, with_operations-nil (lookup a s.registries)))
      | inr (registry, found) ↦
          rw (found, add_to_queue)
            (ground (
              arith,
              found,
              with_operations-nil (lookup a s.registries),
              lookup-insert event.registry_address a
                  (with_operations (queued_operation event ∷ []) registry) s.registries,
            ))
    ]

is_some-map : (f : Registry → Registry) (o : Option Registry) → is_some (Option.map f o) ≡ is_some o
is_some-map f none = refl
is_some-map f (some r) = refl

operations_for_cons :
    (a : Address) (event : OperationQueuedEvent) (events : List OperationQueuedEvent)
    → operations_for a (event ∷ []) ++ operations_for a events ≡ operations_for a (event ∷ events)
operations_for_cons a event events = ground arith

-- After any events, the queue of each registry holds what it held before, and then the operations of
-- the events for that registry, each once and in their order; no registry is added or dropped.
pub lookup-handle_all :
    (events : List OperationQueuedEvent) (s : Service) (a : Address)
    → lookup a (handle_all events s).registries
      ≡ Option.map (with_operations (operations_for a events)) (lookup a s.registries)
unfolding handle_all
lookup-handle_all [] s a = sym (with_operations-nil (lookup a s.registries))
lookup-handle_all (event ∷ events) s a =
    rw
      (
        lookup-handle_all events (handle_operation_queued event s) a,
        lookup-handle_operation_queued event s a,
        with_operations-append,
      )
      (ap (λ ops. Option.map (with_operations ops) (lookup a s.registries))
        (operations_for_cons a event events))

-- The registries that an event can be for.
abbrev pub is_known : Service → OperationQueuedEvent → Bool
is_known s event = is_some (lookup event.registry_address s.registries)

is_known-handle :
    (event : OperationQueuedEvent) (s : Service) (e : OperationQueuedEvent)
    → is_known (handle_operation_queued event s) e ≡ is_known s e
is_known-handle event s e = rw (lookup-handle_operation_queued event s e.registry_address) (
    is_some-map (with_operations (operations_for e.registry_address (event ∷ [])))
      (lookup e.registry_address s.registries))

queue_lengths-insert :
    (a : Address) (r r' : Registry) (m : List (Address × Registry))
    → lookup a m ≡ some r
    → queue_lengths (insert a r' m) + length r.queue ≡ queue_lengths m + length r'.queue
unfolding queue_lengths
queue_lengths-insert a r r' [] h = cc
queue_lengths-insert a r r' ((j, x) ∷ m) h = ground (arith, queue_lengths-insert a r r' m)

get_queue_length-handle :
    (event : OperationQueuedEvent) (s : Service)
    → get_queue_length (handle_operation_queued event s)
      ≡ get_queue_length s + (if is_known s event then 1 else 0)
unfolding get_queue_length handle_operation_queued
get_queue_length-handle event s = elim (Option-cases (lookup event.registry_address s.registries)) [
  | inl missing ↦ rw (missing, add_to_queue) (omega arith)
  | inr (registry, found) ↦
      rw (found, add_to_queue)
        (omega (
          arith,
          queue_lengths-insert event.registry_address registry
              (with_operations (queued_operation event ∷ []) registry) s.registries found,
          length-append registry.queue (queued_operation event ∷ []),
        ))
]

keep_if_same :
    (p q : OperationQueuedEvent → Bool) (events : List OperationQueuedEvent)
    → ((e : OperationQueuedEvent) → p e ≡ q e)
    → keep_if p events ≡ keep_if q events
keep_if_same p q [] h = refl
keep_if_same p q (e ∷ events) h = ground (arith, h e, keep_if_same p q events h)

-- `GetQueueLength` grows by the number of events for known registries.
get_queue_length-handle_all :
    (events : List OperationQueuedEvent) (s : Service)
    → get_queue_length (handle_all events s)
      ≡ get_queue_length s + length (keep_if (is_known s) events)
unfolding handle_all
get_queue_length-handle_all [] s = omega arith
get_queue_length-handle_all (event ∷ events) s =
    let s' = handle_operation_queued event s in
    ground (
      arith,
      get_queue_length-handle_all events s',
      get_queue_length-handle event s,
      keep_if_same (is_known s') (is_known s) events (is_known-handle event s),
    )

Checked-registries :
    (b : Backend) (address : Address) (registry : Registry) (s s' : State b.World)
    → Checked b address registry s s'
    → s'.service.registries ≡ s.service.registries
Checked-registries b address registry s s' v =
    ap (λ (x : Service). x.registries) (Checked-service b address registry s s' v)

-- What `GetQueueLength` returns is the number of events received for known registries, beside what
-- was there before: a check of a queue, also one that processes an operation, takes nothing from it.
pub queue_never_drained :
    (b : Backend) (address : Address) (registry : Registry) (events : List OperationQueuedEvent)
    (s : State b.World)
    → let s' = (check_and_process_registry_queue b address registry s).1 in
      get_queue_length (handle_all events s'.service)
      ≡ get_queue_length s.service + length (keep_if (is_known s.service) events)
unfolding get_queue_length
queue_never_drained b address registry events s =
    let s' = (check_and_process_registry_queue b address registry s).1 in
    let same =
      Checked-registries b address registry s s'
        (check_and_process-Checks b address registry s).1 in
    get_queue_length-handle_all events s'.service
    ∙ ap
        (λ m.
          queue_lengths m + length (keep_if (λ e. is_some (lookup e.registry_address m)) events))
        same
