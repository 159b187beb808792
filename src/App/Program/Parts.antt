-- ===== src/App/Program/Parts.antt =====
-- The parts of the whole program: what the listener has published, and what the processor queued.
use mathlib.Core.Option
use zkcertificates_queue_pro.Base.{
  ◌≡◌, refl, sym, ap, subst, ◌∙◌, inl, inr, Bool, true, false, none, some, List, [], ◌∷◌, ◌++◌,
  append_assoc, Bool-cases, lookup, if◌then◌else◌,
}
use zkcertificates_queue_pro.Evm.Types.{Address, Log, ContractEvent, ContractInfo, EthClient}
use zkcertificates_queue_pro.Evm.Types as Evm
use zkcertificates_queue_pro.Evm.Lifecycle as Listener
use zkcertificates_queue_pro.Evm.Lifecycle.Runs.{
  unreachable, unverified, listening, start_service-Started,
}
use zkcertificates_queue_pro.Evm.Scan.Ledger.{Ledger, IsFaithful}
use zkcertificates_queue_pro.Evm.Listen.{IsVisit, scan_contracts}
use zkcertificates_queue_pro.Evm.Listen.Runs.{IsReady, IsKept, IsKept-trans, scan_contracts-Leaves}
use zkcertificates_queue_pro.Processor.Types.{OperationQueuedEvent, Service}
use zkcertificates_queue_pro.Processor.Nonce.{with_nonce}
use zkcertificates_queue_pro.Processor.Lifecycle.{Running, start_service, publish_all}
use zkcertificates_queue_pro.Processor.Lifecycle.Restart.{
  repeated, publish_all_lem, IsSound, start-IsSound, handled-IsSound, start_service-runs,
}
use zkcertificates_queue_pro.Processor.Queue.Keys.{handle_all-IsQueued}
use zkcertificates_queue_pro.Processor.Queue.Memory.{
  handle_all, operations_for, with_operations, with_operations-append, lookup-handle_all,
  operations_for-append,
}

-- The listener from the service `s` on: `told` is what the bus has told of the events published.
pub record IsPublishing (ledger : Ledger) (s now : Evm.Service) (told : List ContractEvent)
    : Type 0 where
  pub ready : IsReady ledger now
  pub kept : IsKept s now
  pub pending : List ContractEvent
  pub behind : now.bus ≡ told ++ pending

module _ (ledger : Ledger) {s now : Evm.Service} {told : List ContractEvent}
    (v : IsPublishing ledger s now told) where
  pub connected-IsPublishing :
      (client cancel : Bool)
      → IsPublishing ledger s (record now { client = client; cancel = cancel }) told
  connected-IsPublishing client cancel = record {
    ready = record {
      plain = v.ready.plain;
      range = v.ready.range;
      delivered = record {
        keyed = v.ready.delivered.keyed;
        ordered = v.ready.delivered.ordered;
        once = v.ready.delivered.once;
      };
    };
    kept = record {
      filters = v.kept.filters;
      monitored = v.kept.monitored;
      published = v.kept.published;
    };
    pending = v.pending;
    behind = v.behind;
  }

  pub scanned-IsPublishing :
      (c : EthClient) (visit : List (Address × ContractInfo)) (next : Evm.Service) (w w' : c.World)
      → IsFaithful c ledger
      → IsVisit now.contracts visit
      → scan_contracts c visit now w ≡ some (next, w')
      → IsPublishing ledger s next told
  scanned-IsPublishing c visit next w w' faithful visits e =
      let (t, w'', e', ready, kept) =
        scan_contracts-Leaves c ledger faithful visit now w v.ready visits in
      let same : t ≡ next = cc in
      let ready' : IsReady ledger next = rw same at ready in
      let kept' : IsKept now next = rw same at kept in
      let (events, more) = kept'.published in
      record {
        ready = ready';
        kept = IsKept-trans v.kept kept';
        pending = v.pending ++ events;
        behind = more ∙ ap (λ l. l ++ events) v.behind ∙ append_assoc told v.pending events;
      }

  pub told-IsPublishing :
      (event : ContractEvent) (later : List ContractEvent)
      → now.bus ≡ told ++ event ∷ later
      → IsPublishing ledger s now (told ++ event ∷ [])
  told-IsPublishing event later e = record {
    ready = v.ready;
    kept = v.kept;
    pending = later;
    behind = e ∙ sym (append_assoc told (event ∷ []) later);
  }

-- `Start` of the EVM service sets the client and the context, if anything.
pub start_service-connects :
    (c : EthClient) (p : Listener.Running c.World)
    → (client cancel : Bool) × ((Listener.start_service c p).service
        ≡ record p.service { client = client; cancel = cancel })
start_service-connects c p = elim (start_service-Started c p) [
  | unreachable e dialed same l x r ↦ (p.service.client, p.service.cancel, same)
  | unverified e w dialed id same l x r ↦ (true, p.service.cancel, same)
  | listening id w dialed known same l x r ↦ (true, true, same)
]

-- The processor from `q` on, while it has heard of the events: started once at most, with one loop
-- for each registry since then.
pub record IsQueueing (q now : Running) (events : List OperationQueuedEvent) : Type 0 where
  pub sound : IsSound (if now.service.is_running then 1 else 0) now
  pub queues :
      (a : Address)
      → lookup a now.service.registries
        ≡ Option.map (with_operations (operations_for a events)) (lookup a q.service.registries)

repeated_once : (events : List OperationQueuedEvent) → repeated 1 events ≡ events
repeated_once [] = refl
repeated_once (event ∷ events) = ap (λ l. event ∷ l) (repeated_once events)

repeated_never : (events : List OperationQueuedEvent) → repeated 0 events ≡ []
repeated_never [] = refl
repeated_never (event ∷ events) = repeated_never events

pub busy_starts : (p : Running) → p.service.is_running ≡ true → start_service p ≡ p
unfolding start_service
busy_starts p busy = rw (busy, start_service) refl

module _ {q now : Running} {events : List OperationQueuedEvent} (v : IsQueueing q now events) where
  pub started-IsQueueing : IsQueueing q (start_service now) events
  started-IsQueueing = elim (Bool-cases now.service.is_running) [
    | inl busy ↦ subst (λ p. IsQueueing q p events) (sym (busy_starts now busy)) v
    | inr idle ↦
        let runs = start_service-runs now idle in
        let flag = ap (λ (s : Service). s.is_running) runs in
        record {
          sound =
              subst (λ b. IsSound (if b then 1 else 0) (start_service now)) (sym flag)
                (start-IsSound idle (subst (λ b. IsSound (if b then 1 else 0) now) idle v.sound));
          queues = λ a. ap (λ (s : Service). lookup a s.registries) runs ∙ v.queues a;
        }
  ]

  pub subscriptions-running :
      (b : Bool) → now.service.is_running ≡ b → now.subscriptions ≡ (if b then 1 else 0)
  subscriptions-running b e = v.sound.subscribed ∙ ap (λ x. if x then 1 else 0) e

  -- The bus tells nothing to a processor that has not been started.
  pub unheard :
      (more : List OperationQueuedEvent)
      → now.service.is_running ≡ false
      → publish_all more now ≡ now
  unfolding handle_all
  unheard more idle =
      rw (publish_all_lem more now, subscriptions-running false idle, repeated_never more) refl

  pub heard-IsQueueing :
      (more : List OperationQueuedEvent)
      → now.service.is_running ≡ true
      → IsQueueing q (record now { service = handle_all more now.service }) (events ++ more)
  heard-IsQueueing more busy =
      let queued = handle_all-IsQueued more now.service in
      record {
        sound =
            subst
              (λ b.
                IsSound (if b then 1 else 0) (record now { service = handle_all more now.service }))
              (sym queued.same_running)
              (handled-IsSound now (handle_all more now.service) queued v.sound);
        queues = λ a.
            rw (lookup-handle_all more now.service a, v.queues a, with_operations-append)
              (ap (λ ops. Option.map (with_operations ops) (lookup a q.service.registries))
                (sym (operations_for-append a events more)));
      }

  pub heard-publishes :
      (more : List OperationQueuedEvent)
      → now.service.is_running ≡ true
      → publish_all more now ≡ record now { service = handle_all more now.service }
  heard-publishes more busy =
      rw (publish_all_lem more now, subscriptions-running true busy, repeated_once more) refl

  -- Whatever leaves all of the service alone but the nonce.
  pub same-IsQueueing :
      (s : Service)
      → with_nonce none s ≡ with_nonce none now.service
      → IsQueueing q (record now { service = s }) events
  same-IsQueueing s same =
      let flag = ap (λ (x : Service). x.is_running) same in
      let map = ap (λ (x : Service). x.registries) same in
      record {
        sound = record {
          bus = v.sound.bus;
          subscribed = rw flag v.sound.subscribed;
          looping = rw (flag, map) v.sound.looping;
        };
        queues = λ a. ap (λ m. lookup a m) map ∙ v.queues a;
      }
