-- ===== src/Processor/Lifecycle/Restart.antt =====
-- The service over any starts, clean shutdowns and events.
use mathlib.Core.Option
use zkcertificates_queue_pro.Base.{
  ℕ, zero, suc, ◌≡◌, refl, sym, ap, subst, ◌∙◌, Bool, true, false, List, [], ◌∷◌, map, append-nil,
  map-append, lookup, if◌then◌else◌,
}
use zkcertificates_queue_pro.Base.Int.{ℤ}
use zkcertificates_queue_pro.Evm.Types.{Address}
use zkcertificates_queue_pro.Processor.Types.{OperationQueuedEvent, Registry, Service}
use zkcertificates_queue_pro.Processor.Queue.{handle_operation_queued}
use zkcertificates_queue_pro.Processor.Queue.Keys.{keys, IsQueued, handle_all-IsQueued}
use zkcertificates_queue_pro.Processor.Queue.Memory.{
  handle_all, operations_for, with_operations, lookup-handle_all,
}
use zkcertificates_queue_pro.Processor.Lifecycle.{
  Loop, Running, loops_for, begin_service, start_service, set_check_interval, stop_service,
  not_running, waited, notify, publish_all, Steps, here, started, started_again, stopped,
  interval_set, published, IsNew,
}

-- Each event `n` times, one after the other.
abbrev pub copies : ℕ → OperationQueuedEvent → List OperationQueuedEvent → List OperationQueuedEvent
copies zero event events = events
copies (suc n) event events = event ∷ copies n event events

abbrev pub repeated : ℕ → List OperationQueuedEvent → List OperationQueuedEvent
repeated n [] = []
repeated n (event ∷ events) = copies n event (repeated n events)

notify_all :
    (n : ℕ) (event : OperationQueuedEvent) (events : List OperationQueuedEvent) (s : Service)
    → handle_all (copies n event events) s ≡ handle_all events (notify n event s)
unfolding handle_all notify
notify_all zero event events s = refl
notify_all (suc n) event events s = notify_all n event events (handle_operation_queued event s)

pub publish_all_lem :
    (events : List OperationQueuedEvent) (p : Running)
    → publish_all events p
      ≡ record p { service = handle_all (repeated p.subscriptions events) p.service }
unfolding publish_all handle_all
publish_all_lem [] p = refl
publish_all_lem (event ∷ events) p =
    publish_all_lem events (record p { service = notify p.subscriptions event p.service })
    ∙ ap (λ s. record p { service = s })
        (sym (notify_all p.subscriptions event (repeated p.subscriptions events) p.service))

keys-loops_for :
    (interval : ℤ) (m : List (Address × Registry))
    → map (λ (l : Loop). l.address) (loops_for interval m) ≡ keys m
unfolding loops_for
keys-loops_for interval [] = refl
keys-loops_for interval ((a, r) ∷ m) = ap (λ l. a ∷ l) (keys-loops_for interval m)

-- A service that was started `n` times has subscribed `n` times; while it runs, it has one loop for
-- each registry, and none else.
pub record IsSound (n : ℕ) (q : Running) : Type 0 where
  pub bus : q.event_bus ≡ true
  pub subscribed : q.subscriptions ≡ n
  pub looping :
      map (λ (l : Loop). l.address) q.loops
      ≡ (if q.service.is_running then keys q.service.registries else [])

pub start_service-runs :
    (q : Running)
    → q.service.is_running ≡ false
    → (start_service q).service ≡ record q.service { is_running = true }
unfolding start_service begin_service
start_service-runs q idle = rw (idle, start_service) refl

pub start-IsSound :
    {n : ℕ} {q : Running}
    → q.service.is_running ≡ false
    → IsSound n q
    → IsSound (suc n) (start_service q)
unfolding start_service begin_service
start-IsSound {n} {q} idle v =
    let ended : map (λ (l : Loop). l.address) q.loops ≡ [] = rw idle at v.looping in
    rw (idle, start_service)
      (record {
        bus = v.bus;
        subscribed = rw (v.bus, v.subscribed) refl;
        looping =
            map-append (λ (l : Loop). l.address)
              (loops_for q.service.check_interval q.service.registries) q.loops
            ∙ rw (keys-loops_for q.service.check_interval q.service.registries, ended)
                (append-nil (keys q.service.registries));
      })

kept {ℓ} : {A : Type ℓ} {x : A} (y : A) (b : Bool) → b ≡ true → (if b then x else y) ≡ x
kept y b h = rw h refl

pub running_stays :
    {n : ℕ} {q : Running} → q.service.is_running ≡ true → IsSound n q → IsSound n (start_service q)
unfolding start_service
running_stays {n} {q} busy v = subst (IsSound n) (sym (kept _ q.service.is_running busy)) v

pub handled-IsSound :
    {n : ℕ} (q : Running) (s : Service)
    → IsQueued q.service s
    → IsSound n q
    → IsSound n (record q { service = s })
handled-IsSound q s w v = record {
  bus = v.bus;
  subscribed = v.subscribed;
  looping = rw (w.same_running, w.same_keys) v.looping;
}

pub Steps-IsSound : {p : Running} {n : ℕ} {q : Running} → IsNew p → Steps p n q → IsSound n q
unfolding stop_service set_check_interval
Steps-IsSound {p} fresh here = record {
  bus = fresh.bus;
  subscribed = fresh.unsubscribed;
  looping = rw (fresh.no_loop, fresh.idle) refl;
}
Steps-IsSound fresh (started run idle) = start-IsSound idle (Steps-IsSound fresh run)
Steps-IsSound fresh (started_again run busy) = running_stays busy (Steps-IsSound fresh run)
Steps-IsSound fresh (stopped run (not_running idle)) = Steps-IsSound fresh run
Steps-IsSound fresh (stopped run (waited busy)) =
    let v = Steps-IsSound fresh run in
    record { bus = v.bus; subscribed = v.subscribed; looping = refl }
Steps-IsSound fresh (interval_set interval run) =
    let v = Steps-IsSound fresh run in
    record { bus = v.bus; subscribed = v.subscribed; looping = v.looping }
Steps-IsSound fresh (published {q = q} events run) =
    let v = Steps-IsSound fresh run in
    subst (IsSound _) (sym (publish_all_lem events q)) (
      handled-IsSound q (handle_all (repeated q.subscriptions events) q.service)
        (handle_all-IsQueued (repeated q.subscriptions events) q.service) v)

-- Whatever calls of `Start`, `SetCheckInterval` and `Shutdown` are made and events published, if each
-- `Shutdown` returns without an error: the service runs one monitoring loop for each of its registries
-- while it is started, and none otherwise.
pub one_loop_each :
    {p : Running} {n : ℕ} {q : Running}
    → IsNew p
    → Steps p n q
    → map (λ (l : Loop). l.address) q.loops
      ≡ (if q.service.is_running then keys q.service.registries else [])
one_loop_each fresh run = (Steps-IsSound fresh run).looping

-- After `n` starts, with clean shutdowns in between, each published event is queued `n` times in its
-- registry: a start subscribes to the bus, and nothing ends a subscription.
pub restart_duplicates :
    {p : Running} {n : ℕ} {q : Running} (events : List OperationQueuedEvent) (a : Address)
    → IsNew p
    → Steps p n q
    → lookup a (publish_all events q).service.registries
      ≡ Option.map
          (with_operations (operations_for a (repeated n events)))
          (lookup a q.service.registries)
restart_duplicates {q = q} events a fresh run =
    rw (publish_all_lem, (Steps-IsSound fresh run).subscribed)
      (lookup-handle_all (repeated _ events) q.service a)
