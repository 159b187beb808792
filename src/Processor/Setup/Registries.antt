-- ===== src/Processor/Setup/Registries.antt =====
-- The registries that a new service of queueprocessor/processor.go starts with.
use zkcertificates_queue_pro.Base.{
  ℕ, String, ◌≢◌, sym, ◌≡◌, refl, ap, ◌∙◌, ◌⊎◌, inl, inr, false, none, some, Option, List, [], ◌∷◌,
  Result, ok, err, Result-cases, lookup, insert, lookup-insert, ◌==◌, if◌then◌else◌,
}
use zkcertificates_queue_pro.Base.Int.{ℤ}
use zkcertificates_queue_pro.Evm.Types.{Address}
use zkcertificates_queue_pro.Processor.Types.{RegistryConfig, Registry, Service}
use zkcertificates_queue_pro.Processor.Setup.{
  Environment, new_registry, without_prefix, invalid_key, with_key, set_private_key, bind_error,
  bind_registry, bind_registries, connected, with_registries, started_with, merkle_service_url,
  merkle_service_tls, new_service_with_multiple_registries,
}

err≢ok : {e : String} {u : Unit {0}} → err e ≢ ok u
err≢ok h = cc

-- The last config with this address, if any; else what was there.
abbrev pub last_of : Address → List RegistryConfig → Option Registry → Option Registry
last_of a [] before = before
last_of a (config ∷ configs) before =
    last_of a configs (if config.address == a then some (new_registry config) else before)

-- Every contract of the configs can be bound.
abbrev pub AllBind : Environment → List RegistryConfig → Type 0
AllBind env [] = Unit
AllBind env (config ∷ configs) =
    (env.new_zk_certificate_registry config.address ≡ ok tt) × AllBind env configs

module _ (env : Environment) where
  -- What the loop makes of the map it started with.
  record Bound (configs : List RegistryConfig) (before : List (Address × Registry))
      (r : Result (List (Address × Registry))) : Type 0 where
    result : List (Address × Registry)
    same : r ≡ ok result
    bound : AllBind env configs
    entries : (a : Address) → lookup a result ≡ last_of a configs (lookup a before)

  bind_registries-Bound :
      (configs : List RegistryConfig) (before : List (Address × Registry))
      → Bound configs before (bind_registries env configs before)
        ⊎ ((e : String) × (bind_registries env configs before ≡ err e) × (¬ AllBind env configs))
  unfolding bind_registries
  bind_registries-Bound [] before =
      inl (record { result = before; same = refl; bound = tt; entries = λ a. refl })
  bind_registries-Bound (config ∷ configs) before =
      elim (Result-cases (env.new_zk_certificate_registry config.address)) [
        | inr (e, failed) ↦ inr (
          bind_error env config e,
          rw (failed, bind_registries, bind_registry) refl,
          λ all. err≢ok (sym failed ∙ all.0),
        )
        | inl (u, good) ↦
            elim (bind_registries-Bound configs
              (insert config.address (new_registry config) before)) [
                | inr (e, failed, unbound) ↦
                    inr (e, rw (good, bind_registries, bind_registry) failed, λ all. unbound all.1)
                | inl v ↦
                    let same : bind_registries env (config ∷ configs) before ≡ ok v.result =
                      rw (good, bind_registries, bind_registry) v.same in
                    inl (record {
                      result = v.result;
                      same = same;
                      bound = (good, v.bound);
                      entries = λ a.
                          v.entries a
                          ∙ ap (last_of a configs)
                              (lookup-insert config.address a (new_registry config) before);
                    })
              ]
      ]

  -- How a new service starts: every contract could be bound, each registry has the name of its last
  -- config and an empty queue, and there is no key and no nonce, and no loop runs.
  pub record Started (configs : List RegistryConfig) (r : Result Service) : Type 0 where
    pub service : Service
    pub same : r ≡ ok service
    pub bound : AllBind env configs
    pub registries : (a : Address) → lookup a service.registries ≡ last_of a configs none
    pub keyless : service.private_key ≡ none
    pub fresh_nonce : service.current_nonce ≡ none
    pub stopped : service.is_running ≡ false

  -- Why there is none.
  pub data Unstarted (configs : List RegistryConfig) (chain : Result ℤ) : Type 0 where
    no_chain : (e : String) → chain ≡ err e → Unstarted configs chain
    no_proofs :
        (e : String)
        → env.connect_to_merkle_proof_service (merkle_service_url env) (merkle_service_tls env)
          ≡ err e
        → Unstarted configs chain
    no_contract : (¬ AllBind env configs) → Unstarted configs chain

  -- The constructor gives a service that has a registry with an empty queue for each address of the
  -- configs, named as the last of them, no other registry, no key and no nonce, and that does not run;
  -- or it gives an error, and then the node did not tell its chain's number, the merkle proof service
  -- could not be reached, or some registry contract could not be bound.
  pub new_service-Started :
      (name : String) (configs : List RegistryConfig) (chain : Result ℤ)
      → Started configs (new_service_with_multiple_registries env name configs chain)
        ⊎ ((e : String) × (new_service_with_multiple_registries env name configs chain ≡ err e)
            × Unstarted configs chain)
  unfolding new_service_with_multiple_registries
  new_service-Started name configs (err e) = inr (_, refl, no_chain e refl)
  new_service-Started name configs (ok chain_id) =
      elim (Result-cases
        (env.connect_to_merkle_proof_service (merkle_service_url env) (merkle_service_tls env))) [
          | inr (e, failed) ↦ inr (e, rw (failed, connected) refl, no_proofs e failed)
          | inl (_, reached) ↦ elim (bind_registries-Bound configs []) [
            | inr (e, failed, unbound) ↦
                inr (e, rw (reached, connected, failed, with_registries) refl, no_contract unbound)
            | inl v ↦ inl (record {
              service = started_with env name chain_id v.result;
              same = rw (reached, connected, v.same, with_registries) refl;
              bound = v.bound;
              registries = v.entries;
              keyless = refl;
              fresh_nonce = refl;
              stopped = refl;
            })
          ]
        ]

  -- A key that parses is set, and nothing else is changed.
  pub set_private_key-key :
      (text : String) (p : Service)
      → ((key : ℕ) × (set_private_key env text p ≡ ok (record p { private_key = some key })))
        ⊎ ((e : String) × (set_private_key env text p ≡ err e))
  unfolding set_private_key
  set_private_key-key text p = elim (Result-cases (env.hex_to_ecdsa (without_prefix text))) [
    | inl (key, good) ↦ inl (key, rw (good, with_key) refl)
    | inr (e, failed) ↦ inr (invalid_key e, rw (failed, with_key) refl)
  ]
