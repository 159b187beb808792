-- ===== src/Processor/Queue/Keys.antt =====
-- Events change the queues in memory, and neither the registries nor anything else of the service.
use zkcertificates_queue_pro.Base.{
  ◌≡◌, refl, ◌∙◌, inl, inr, Option-cases, some, List, [], ◌∷◌, arith, lookup, insert,
}
use zkcertificates_queue_pro.Evm.Types.{Address}
use zkcertificates_queue_pro.Processor.Types.{OperationQueuedEvent, Registry, Service}
use zkcertificates_queue_pro.Processor.Queue.{add_to_queue, handle_operation_queued}
use zkcertificates_queue_pro.Processor.Queue.Memory.{handle_all}

abbrev pub keys : List (Address × Registry) → List Address
keys [] = []
keys ((address, registry) ∷ rest) = address ∷ keys rest

keys-insert :
    (a : Address) (r r' : Registry) (m : List (Address × Registry))
    → lookup a m ≡ some r
    → keys (insert a r' m) ≡ keys m
keys-insert a r r' [] h = cc
keys-insert a r r' ((j, x) ∷ m) h = ground (arith, keys-insert a r r' m)

-- An event changes the queues alone.
pub record IsQueued (s t : Service) : Type 0 where
  pub same_running : t.is_running ≡ s.is_running
  pub same_keys : keys t.registries ≡ keys s.registries
  pub same_key : t.private_key ≡ s.private_key

handle-IsQueued :
    (event : OperationQueuedEvent) (s : Service) → IsQueued s (handle_operation_queued event s)
unfolding handle_operation_queued
handle-IsQueued event s = elim (Option-cases (lookup event.registry_address s.registries)) [
  | inl missing ↦
      rw (missing, add_to_queue) (record { same_running = refl; same_keys = refl; same_key = refl })
  | inr (registry, found) ↦
      rw (found, add_to_queue)
        (record {
          same_running = refl;
          same_keys = keys-insert event.registry_address registry _ s.registries found;
          same_key = refl;
        })
]

pub handle_all-IsQueued :
    (events : List OperationQueuedEvent) (s : Service) → IsQueued s (handle_all events s)
unfolding handle_all
handle_all-IsQueued [] s = record { same_running = refl; same_keys = refl; same_key = refl }
handle_all-IsQueued (event ∷ events) s =
    let v = handle-IsQueued event s in
    let v' = handle_all-IsQueued events (handle_operation_queued event s) in
    record {
      same_running = v'.same_running ∙ v.same_running;
      same_keys = v'.same_keys ∙ v.same_keys;
      same_key = v'.same_key ∙ v.same_key;
    }
