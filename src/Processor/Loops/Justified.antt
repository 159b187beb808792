-- ===== src/Processor/Loops/Justified.antt =====
-- Why the service sends what it sends, however long it runs.
use mathlib.Core.List.{Memᴰ}
use zkcertificates_queue_pro.Base.{
  String, ℕ, ◌≡◌, ◌⊎◌, refl, sym, ap, subst, ◌∙◌, inl, inr, Option, none, some, Option-cases, List,
  [], ◌∷◌, ◌++◌, append_assoc, append-nil, Result, ok, All, All-append, All-map, lookup, Bool-cases,
  ◌==◌, if◌then◌else◌,
}
use zkcertificates_queue_pro.Base.Int.{ℤ}
use zkcertificates_queue_pro.Evm.Types.{Address}
use zkcertificates_queue_pro.Processor.Types.{
  OperationQueuedEvent, RegistryConfig, Registry, Service, Sent, Backend, State,
}
use zkcertificates_queue_pro.Processor.Nonce.{with_nonce}
use zkcertificates_queue_pro.Processor.Queue.{
  check_and_process_registry_queue, handle_operation_queued,
}
use zkcertificates_queue_pro.Processor.Queue.Checks.{check_and_process-Checks}
use zkcertificates_queue_pro.Processor.Queue.Memory.{
  handle_all, lookup-handle_all, with_operations, operations_for,
}
use zkcertificates_queue_pro.Processor.Queue.Keys.{handle_all-IsQueued}
use zkcertificates_queue_pro.Processor.Queue.Provenance.{
  IsJustified, IsSentWith, Checked-IsSentWith, Checked-service,
}
use zkcertificates_queue_pro.Processor.Setup.{
  Environment, new_registry, new_service_with_multiple_registries,
}
use zkcertificates_queue_pro.Processor.Setup.Registries.{last_of, new_service-Started}
use zkcertificates_queue_pro.Processor.Lifecycle.{set_check_interval}
use zkcertificates_queue_pro.Processor.Loops.{
  Runs, begun, ticked, handled, running_set, interval_set, elapsed,
}

-- The key stays, and no registry comes or changes its contract.
record IsSame (s t : Service) : Type 0 where
  key : t.private_key ≡ s.private_key
  contracts :
      (a : Address) (r : Registry)
      → lookup a t.registries ≡ some r
      → (r0 : Registry) × (lookup a s.registries ≡ some r0) × (r.address ≡ r0.address)

IsSame-trans : {s t u : Service} → IsSame s t → IsSame t u → IsSame s u
IsSame-trans v v' = record {
  key = v'.key ∙ v.key;
  contracts = λ a r known.
      let (r1, known1, same1) = v'.contracts a r known in
      let (r0, known0, same0) = v.contracts a r1 known1 in (r0, known0, same1 ∙ same0);
}

IsSame-nonce : (s t : Service) → with_nonce none t ≡ with_nonce none s → IsSame s t
IsSame-nonce s t same = record {
  key = ap (λ (x : Service). x.private_key) same;
  contracts = λ a r known.
      (r, subst (λ m. lookup a m ≡ some r) (ap (λ (x : Service). x.registries) same) known, refl);
}

handled-IsSame :
    (event : OperationQueuedEvent) (s : Service) → IsSame s (handle_operation_queued event s)
unfolding handle_all
handled-IsSame event s = record {
  key = (handle_all-IsQueued (event ∷ []) s).same_key;
  contracts = λ a r known.
      let e = sym (lookup-handle_all (event ∷ []) s a) ∙ known in
      elim (Option-cases (lookup a s.registries)) [
        | inl missing ↦ let e' = rw missing at e in cc
        | inr (r0, found) ↦
            let e' = rw found at e in
            let same : with_operations (operations_for a (event ∷ [])) r0 ≡ r = cc in
            (r0, found, ap (λ (x : Registry). x.address) (sym same))
      ];
}

-- The registry of a config with this contract.
last_of-config :
    (a : Address) (configs : List RegistryConfig) (before : Option Registry) (r : Registry)
    → last_of a configs before ≡ some r
    → (before ≡ some r)
      ⊎ ((config : RegistryConfig) × Memᴰ config configs × (r.address ≡ config.address))
unfolding new_registry
last_of-config a [] before r e = inl e
last_of-config a (config ∷ configs) before r e =
    elim (last_of-config a configs
      (if config.address == a then some (new_registry config) else before) r e) [
        | inr (c, m, same) ↦ inr (c, Memᴰ.tail m, same)
        | inl now ↦ elim (Bool-cases (config.address == a)) [
          | inr other ↦ inl (rw other at now)
          | inl mine ↦
              let same : new_registry config ≡ r = cc (rw mine at now) in
              inr (config, Memᴰ.head refl, ap (λ (x : Registry). x.address) (sym same))
        ]
      ]

-- The registries are those of the configs.
abbrev pub AreConfigured : List RegistryConfig → Service → Type 0
AreConfigured configs s = (a : Address) → lookup a s.registries ≡ last_of a configs none

module _ (b : Backend) where
  open b use {World}

  -- For a registry that the service had at the start, with the key that it had.
  pub record IsDueFor (s : State World) (t : Sent) : Type 0 where
    pub address : Address
    pub registry : Registry
    pub known : Registry
    pub found : lookup address s.service.registries ≡ some known
    pub contract_is : registry.address ≡ known.address
    pub justified : IsJustified b address registry t
    pub keyed : (key : ℕ) × (s.service.private_key ≡ some key)

  ticked-IsDueFor :
      (s t : State World) (address : Address) (registry : Registry) (sent : Sent)
      → IsSame s.service t.service
      → lookup address t.service.registries ≡ some registry
      → IsSentWith b address registry t sent
      → IsDueFor s sent
  ticked-IsDueFor s t address registry sent v here (justified, (key, keyed)) =
      let (known, found, same) = v.contracts address registry here in
      record {
        address = address;
        registry = registry;
        known = known;
        found = found;
        contract_is = same;
        justified = justified;
        keyed = (key, sym v.key ∙ keyed);
      }

  Runs-IsDueFor :
      {s t : State World}
      → Runs b s t
      → IsSame s.service t.service
        × ((ts : List Sent) × (t.sent ≡ s.sent ++ ts) × All (IsDueFor s) ts)
  unfolding set_check_interval
  Runs-IsDueFor {s} begun = (IsSame-nonce s.service s.service refl, ([], rw append-nil refl, tt))
  Runs-IsDueFor {s} (ticked {t} address registry run here) =
      let (v, (ts, sent, all)) = Runs-IsDueFor run in
      let t' = (check_and_process_registry_queue b address registry t).1 in
      let checked = (check_and_process-Checks b address registry t).1 in
      let (more, sent', all') = Checked-IsSentWith b address registry t t' checked in
      (
        IsSame-trans v
            (IsSame-nonce t.service t'.service (Checked-service b address registry t t' checked)),
        (
          ts ++ more,
          sent' ∙ ap (λ l. l ++ more) sent ∙ append_assoc s.sent ts more,
          All-append (IsDueFor s) ts more all (
              All-map (IsSentWith b address registry t) (IsDueFor s) more
                (λ x. ticked-IsDueFor s t address registry x v here) all'),
        ),
      )
  Runs-IsDueFor {s} (handled {t} event run) =
      let (v, sents) = Runs-IsDueFor run in (IsSame-trans v (handled-IsSame event t.service), sents)
  Runs-IsDueFor {s} (running_set {t} is_running run) =
      let (v, sents) = Runs-IsDueFor run in (record { key = v.key; contracts = v.contracts }, sents)
  Runs-IsDueFor {s} (interval_set {t} interval run) =
      let (v, sents) = Runs-IsDueFor run in (record { key = v.key; contracts = v.contracts }, sents)
  Runs-IsDueFor (elapsed w run) = Runs-IsDueFor run

  -- For the contract of one of the configs.
  abbrev pub IsConfigured : List RegistryConfig → Sent → Type 0
  IsConfigured configs t =
      (config : RegistryConfig) × Memᴰ config configs × (t.contract ≡ config.address)

  IsDueFor-IsConfigured :
      (configs : List RegistryConfig) (s : State World)
      → AreConfigured configs s.service
      → (t : Sent) → IsDueFor s t
      → IsDueFor s t × IsConfigured configs t
  IsDueFor-IsConfigured configs s entries t v =
      elim (last_of-config v.address configs none v.known (sym (entries v.address) ∙ v.found)) [
        | inl never ↦ cc
        | inr (config, m, same) ↦ (v, (config, m, v.justified.contract_is ∙ v.contract_is ∙ same))
      ]

  pub Runs-sent :
      (configs : List RegistryConfig) {s t : State World}
      → AreConfigured configs s.service
      → s.sent ≡ []
      → Runs b s t
      → All (λ x. IsDueFor s x × IsConfigured configs x) t.sent
  Runs-sent configs {s} {t} entries none_yet run =
      let (_, (ts, sent, all)) = Runs-IsDueFor run in
      let all_sent : t.sent ≡ ts = sent ∙ ap (λ l. l ++ ts) none_yet in
      subst (All (λ x. IsDueFor s x × IsConfigured configs x)) (sym all_sent) (
        All-map (IsDueFor s) (λ x. IsDueFor s x × IsConfigured configs x) ts
          (IsDueFor-IsConfigured configs s entries) all)

  -- From a service that the constructor made, with or without a key, after any ticks of its loops, in
  -- any order, any events and any calls of `Start`, `Shutdown` and `SetCheckInterval`, and whatever the contracts, the node and the proof service answer: each
  -- transaction that was sent is for the contract of a config, and for an item that the contract said
  -- was due, with the leaf and the path that the proof service told for it, and a key was set.
  pub every_sent_due :
      (env : Environment) (name : String) (configs : List RegistryConfig) (chain : Result ℤ)
      (p : Service) (s t : State World)
      → new_service_with_multiple_registries env name configs chain ≡ ok p
      → s.service.registries ≡ p.registries
      → s.sent ≡ []
      → Runs b s t
      → All (λ x. IsDueFor s x × IsConfigured configs x) t.sent
  every_sent_due env name configs chain p s t made same none_yet run =
      elim (new_service-Started env name configs chain) [
        | inr (e, failed, why) ↦ cc
        | inl v ↦
            let mine : v.service ≡ p = cc in
            Runs-sent configs
              (λ a.
                ap (λ m. lookup a m) same
                ∙ subst (λ (x : Service). lookup a x.registries ≡ last_of a configs none) mine
                    (v.registries a))
              none_yet run
      ]
