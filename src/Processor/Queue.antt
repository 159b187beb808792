-- ===== src/Processor/Queue.antt =====
-- queueprocessor/processor.go: the check of one registry's queue on the chain, and the queue in
-- memory that events fill.
pub mod Checks
pub mod Provenance
pub mod Memory
pub mod Keys
pub mod Due
pub mod Monitor
use zkcertificates_queue_pro.Base.{
  ℕ, zero, suc, ◌+◌, Bool, true, false, Option, none, some, List, [], ◌∷◌, ◌++◌, length, Result, ok,
  err, ltb, ◌==◌, if◌then◌else◌, lookup, insert,
}
use zkcertificates_queue_pro.Base.Int.{pos, leb_ℤ}
use zkcertificates_queue_pro.Evm.Types.{Address, Hash}
use zkcertificates_queue_pro.Processor.Types.{
  QueuedOperation, OperationQueuedEvent, Registry, Service, CertificateData, Backend, State, Act,
  certificate_state_issuance_queued, certificate_state_revocation_queued,
}
use zkcertificates_queue_pro.Processor.Act.{◌>>=◌, ◌>>◌, pure, call}
use zkcertificates_queue_pro.Processor.Operations.{
  Ending, returned, panicked, process_issuance, process_revocation,
}

module _ (b : Backend) where
  open b use {
    World, current_queue_pointer, get_zk_certificate_queue_length, zk_certificate_queue,
    zk_certificate_processing_data, is_zk_certificate_in_turn,
  }

  module _ (address : Address) (registry : Registry) where
    -- `switch certData.State`
    unfoldable pub process_by_state : Hash → CertificateData → Act World Ending
    process_by_state hash cert =
        if cert.state == certificate_state_issuance_queued
        then process_issuance b address registry hash cert.queue_index
        else if cert.state == certificate_state_revocation_queued
        then process_revocation b address registry hash cert.queue_index
        else pure returned

    if_in_turn : Hash → CertificateData → Result Bool → Act World Ending
    unfolding process_by_state
    if_in_turn hash cert (err e) = pure returned
    if_in_turn hash cert (ok false) = pure returned
    if_in_turn hash cert (ok true) = process_by_state hash cert

    with_data : Hash → Result CertificateData → Act World Ending
    unfolding if_in_turn
    with_data hash (err e) = pure returned
    with_data hash (ok cert) = do
      turn ← call (is_zk_certificate_in_turn registry.address hash)
      if_in_turn hash cert turn

    with_item : Result Hash → Act World Ending
    unfolding with_data
    with_item (err e) = pure returned
    with_item (ok hash) = do
      cert ← call (zk_certificate_processing_data registry.address hash)
      with_data hash cert

    unfoldable pub process_queue_items : ℕ → ℕ → Act World Ending
    unfolding with_item
    process_queue_items current_pointer queue_length =
        if ltb current_pointer queue_length
        then (do
          item ← call (zk_certificate_queue registry.address current_pointer)
          with_item item)
        else pure returned

    preview_data : Result Hash → Act World (Unit {0})
    preview_data (err e) = pure tt
    preview_data (ok hash) = do
      cert ← call (zk_certificate_processing_data registry.address hash)
      pure tt

    -- `for i := 0; i < 3 && …`: reads for the log alone, the items from `index` on.
    pub preview_items : ℕ → ℕ → ℕ → Act World (Unit {0})
    unfolding preview_data
    preview_items zero index queue_length s = (tt, s)
    preview_items (suc left) index queue_length s = elim (ltb index queue_length) [
      | false ↦ (tt, s)
      | true ↦
          let (r, s') = call (zk_certificate_queue registry.address index) s in
          preview_items left (index + 1) queue_length (preview_data r s').1
    ]

    with_length : ℕ → Result ℕ → Act World Ending
    unfolding preview_items process_queue_items
    with_length current_pointer (err e) = pure returned
    with_length current_pointer (ok queue_length) = do
      preview_items 3 current_pointer queue_length
      process_queue_items current_pointer queue_length

    with_pointer : Result ℕ → Act World Ending
    unfolding with_length
    with_pointer (err e) = pure returned
    with_pointer (ok current_pointer) = do
      l ← call (get_zk_certificate_queue_length registry.address)
      with_length current_pointer l

    unfoldable pub check_and_process_registry_queue : Act World Ending
    unfolding with_pointer
    check_and_process_registry_queue = do
      p ← call (current_queue_pointer registry.address)
      with_pointer p

    -- The first ticks of the monitoring loop; a panic ends the process.
    unfoldable pub monitor_ticks : ℕ → Act World Ending
    monitor_ticks zero s = (returned, s)
    monitor_ticks (suc ticks) s =
        let (r, s') = check_and_process_registry_queue s in
        elim r [ panicked ↦ (panicked, s') | returned ↦ monitor_ticks ticks s' ]

    -- `time.NewTicker` panics for an interval that is not positive.
    unfoldable pub monitor_registry_queue : ℕ → Act World Ending
    unfolding monitor_ticks
    monitor_registry_queue ticks s =
        if leb_ℤ s.service.check_interval (pos 0) then (panicked, s) else monitor_ticks ticks s

unfoldable pub queued_operation : OperationQueuedEvent → QueuedOperation
queued_operation event = record {
  hash = event.zk_certificate_leaf_hash;
  guardian = event.guardian;
  queue_index = event.queue_index;
  state = event.operation;
  is_processing = false;
}

add_to_queue : OperationQueuedEvent → Option Registry → Service → Service
unfolding queued_operation
add_to_queue event none s = s
add_to_queue event (some registry) s = record s {
  registries =
      insert event.registry_address
        (record registry { queue = registry.queue ++ queued_operation event ∷ [] }) s.registries;
}

unfoldable pub handle_operation_queued : OperationQueuedEvent → Service → Service
unfolding add_to_queue
handle_operation_queued event s = add_to_queue event (lookup event.registry_address s.registries) s

unfoldable pub queue_lengths : List (Address × Registry) → ℕ
queue_lengths [] = 0
queue_lengths ((_, registry) ∷ rest) = length registry.queue + queue_lengths rest

unfoldable pub get_queue_length : Service → ℕ
unfolding queue_lengths
get_queue_length s = queue_lengths s.registries
