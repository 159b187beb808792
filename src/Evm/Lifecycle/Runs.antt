-- ===== src/Evm/Lifecycle/Runs.antt =====
-- The listeners of a service over any calls of its methods.
use mathlib.Core.List.{Memᴰ}
use zkcertificates_queue_pro.Base.{
  ap, sym, ℕ, suc, ◌++◌, ◌≤◌, ◌≡◌, refl, inl, inr, String, true, false, none, some, List, [], ◌∷◌,
  ok, err, Result-cases, Option-cases, arith,
}
use zkcertificates_queue_pro.Base.Int.{ℤ}
use zkcertificates_queue_pro.Evm.Types.{EthClient}
use zkcertificates_queue_pro.Sentry.{capture_error}
use zkcertificates_queue_pro.Evm.Lifecycle.{
  Running, capture, listen, with_chain_id, with_dialed, start_service, cancel_context, close_client,
  Shutdown, waited, timed_out, IsNew, Steps, here, started, worked, stopped,
}

module _ (c : EthClient) where
  open c use {World, dial, chain_id}

  abbrev tags : String → Running World → List (String × String)
  tags location p = ("location", location) ∷ ("rpc", p.service.rpc_url) ∷ []

  -- What `Start` leads to.
  pub data Started (p q : Running World) : Type 0 where
    unreachable :
        (e : String)
        → (dial p.service.rpc_url p.world).0 ≡ err e
        → q.service ≡ p.service
        → q.listeners ≡ p.listeners
        → q.cancels ≡ p.cancels
        → q.reports ≡ p.reports ++ capture_error (some e) (tags "evm_connection" p)
        → Started p q
    unverified :
        (e : String) (w : World)
        → (dial p.service.rpc_url p.world).0 ≡ ok tt
        → (chain_id w).0 ≡ err e
        → q.service ≡ record p.service { client = true }
        → q.listeners ≡ p.listeners
        → q.cancels ≡ p.cancels
        → q.reports ≡ p.reports ++ capture_error (some e) (tags "evm_chain_id" p)
        → Started p q
    listening :
        (id : ℤ) (w : World)
        → (dial p.service.rpc_url p.world).0 ≡ ok tt
        → (chain_id w).0 ≡ ok id
        → q.service ≡ record p.service { client = true; cancel = true }
        → q.listeners ≡ p.contexts ∷ p.listeners
        → q.cancels ≡ some p.contexts
        → q.reports ≡ p.reports
        → Started p q

  with_chain_id-Started :
      (p : Running World) (w : World)
      → (dial p.service.rpc_url p.world).0 ≡ ok tt
      → Started p (
          with_chain_id c (chain_id w).0 (record p {
            service = record p.service { client = true };
            world = (chain_id w).1;
            closed = false;
          }))
  unfolding with_chain_id capture listen
  with_chain_id-Started p w dialed = elim (Result-cases (chain_id w).0) [
    | inl (id, known) ↦ rw (known, with_chain_id) (listening id w dialed known refl refl refl refl)
    | inr (e, failed) ↦
        rw (failed, with_chain_id) (unverified e w dialed failed refl refl refl refl)
  ]

  -- `Start` ends in one of three ways. If the node is not reached, the service stays as it is; if the
  -- node tells no chain id, only the client is set: both are reported to Sentry, and no listener runs
  -- that did not run before. Else one more listener runs, under a new context that `Shutdown` cancels.
  pub start_service-Started : (p : Running World) → Started p (start_service c p)
  unfolding start_service with_dialed capture
  start_service-Started p = elim (Result-cases (dial p.service.rpc_url p.world).0) [
    | inl (tt, dialed) ↦
        rw (dialed, with_dialed) (with_chain_id-Started p (dial p.service.rpc_url p.world).1 dialed)
    | inr (e, failed) ↦ rw (failed, with_dialed) (unreachable e failed refl refl refl refl)
  ]

  only : (x y : ℕ) (l : List ℕ) → ((z : ℕ) → ¬ Memᴰ z l) → Memᴰ x (y ∷ l) → y ≡ x
  only x y l empty (Memᴰ.head same) = sym same
  only x y l empty (Memᴰ.tail m) = absurd (empty x m)

  -- A listener runs under a context that was made, and with a client; under the one that `s.cancel`
  -- cancels while `Start` was called once at most.
  record IsSound (n : ℕ) (q : Running World) : Type 0 where
    connected : (context : ℕ) → Memᴰ context q.listeners → q.service.client ≡ true
    none_yet : n ≡ 0 → (context : ℕ) → ¬ Memᴰ context q.listeners
    reached : n ≤ 1 → (context : ℕ) → Memᴰ context q.listeners → q.cancels ≡ some context

  start-IsSound : (n : ℕ) (p q : Running World) → Started p q → IsSound n p → IsSound (suc n) q
  start-IsSound n p q (unreachable e _ service listeners cancels _) v = record {
    connected = λ x m. rw service (v.connected x (rw listeners at m));
    none_yet = λ z. absurd (omega arith);
    reached = λ few x m. rw cancels (v.reached (omega arith) x (rw listeners at m));
  }
  start-IsSound n p q (unverified e w _ _ service listeners cancels _) v = record {
    connected = λ x m. rw service refl;
    none_yet = λ z. absurd (omega arith);
    reached = λ few x m. rw cancels (v.reached (omega arith) x (rw listeners at m));
  }
  start-IsSound n p q (listening id w _ _ service listeners cancels _) v = record {
    connected = λ x m. rw service refl;
    none_yet = λ z. absurd (omega arith);
    reached = λ few x m.
        rw cancels
          (ap some (only x p.contexts p.listeners (v.none_yet (omega arith)) (rw listeners at m)));
  }

  cancel_context_kept :
      (q : Running World)
      → ((cancel_context c q).cancels ≡ q.cancels) × ((cancel_context c q).service ≡ q.service)
  unfolding cancel_context
  cancel_context_kept q = elim (Option-cases q.cancels) [
    | inl never ↦ rw (never, cancel_context) (never, refl)
    | inr (x, set) ↦ rw (set, cancel_context) (set, refl)
  ]

  -- After the cancellation, with only listeners left that ran before.
  left-IsSound :
      (n : ℕ) (q : Running World) (left : List ℕ)
      → ((x : ℕ) → Memᴰ x left → Memᴰ x q.listeners)
      → IsSound n q
      → IsSound n (close_client c (record (cancel_context c q) { listeners = left }))
  unfolding close_client
  left-IsSound n q left among v =
      let (cancels, service) = cancel_context_kept q in
      record {
        connected = λ x m. rw service (v.connected x (among x m));
        none_yet = λ z x m. v.none_yet z x (among x m);
        reached = λ few x m. rw cancels (v.reached few x (among x m));
      }

  Steps-IsSound :
      {p : Running World} {n : ℕ} {q : Running World} → IsNew c p → Steps c p n q → IsSound n q
  Steps-IsSound {p = p} fresh here = record {
    connected = λ x m. elim (rw fresh.no_listener at m) [ ];
    none_yet = λ z x m. elim (rw fresh.no_listener at m) [ ];
    reached = λ few x m. elim (rw fresh.no_listener at m) [ ];
  }
  Steps-IsSound fresh (started {n} {q} run) =
      start-IsSound n q (start_service c q) (start_service-Started q) (Steps-IsSound fresh run)
  Steps-IsSound fresh (worked s w run same) =
      let v = Steps-IsSound fresh run in
      record {
        connected = λ x m. rw same (v.connected x m);
        none_yet = v.none_yet;
        reached = v.reached;
      }
  Steps-IsSound fresh (stopped {n} {q} e run (waited all)) =
      left-IsSound n q [] (λ x m. elim m [ ]) (Steps-IsSound fresh run)
  Steps-IsSound fresh (stopped {n} {q} e run (timed_out left among done)) =
      left-IsSound n q left among (Steps-IsSound fresh run)

  -- In every state that calls of `Start` and `Shutdown` and the listeners' work lead to, a listener
  -- that runs finds the client set: it never calls a nil client.
  pub listeners_connected :
      {p : Running World} {n : ℕ} {q : Running World} (context : ℕ)
      → IsNew c p
      → Steps c p n q
      → Memᴰ context q.listeners
      → q.service.client ≡ true
  listeners_connected context fresh run m = (Steps-IsSound fresh run).connected context m

  in_cancelled :
      (q : Running World) (x : ℕ) → q.cancels ≡ some x → Memᴰ x (cancel_context c q).cancelled
  unfolding cancel_context
  in_cancelled q x set = rw (set, cancel_context) (Memᴰ.head refl)

  -- While `Start` was called once at most, `Shutdown` reaches every listener: its wait can end, with no
  -- error, no listener left, and the client closed if it was set.
  pub listeners_end :
      {p : Running World} {n : ℕ} {q : Running World}
      → IsNew c p
      → Steps c p n q
      → n ≤ 1
      → (t : Running World) × Shutdown c q none t
        × (t.listeners ≡ [])
        × (q.service.client ≡ true → t.closed ≡ true)
  unfolding close_client
  listeners_end {q = q} fresh run few =
      let v = Steps-IsSound fresh run in
      let (_, service) = cancel_context_kept q in
      (_, waited (λ x m. in_cancelled q x (v.reached few x m)), refl, λ set. rw (service, set) refl)
