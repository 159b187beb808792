-- ===== src/App/Startup.antt =====
-- main.go: what `main` has set up when it starts the services.
use text.Mathlib.Text.{◌==◌ as str_eq}
use zkcertificates_queue_pro.Base.{
  ℕ, String, ◌≡◌, refl, ◌∙◌, ◌⊎◌, inl, inr, false, Option, none, some, List, [], ◌∷◌, map, Result,
  ok, err, Result-cases, Bool-cases, lookup,
}
use zkcertificates_queue_pro.Evm.Types.{Address, EthClient}
use zkcertificates_queue_pro.Evm.Types as Evm
use zkcertificates_queue_pro.Evm.{default_service, apply_options, new_service}
use zkcertificates_queue_pro.Evm.Fresh.{IsUsable, nil, new_service-IsUsable}
use zkcertificates_queue_pro.Processor.Types as Processor
use zkcertificates_queue_pro.Processor.Setup.{Environment}
use zkcertificates_queue_pro.Processor.Setup.Registries.{
  Unstarted, set_private_key-key, last_of, new_service-Started,
}
use zkcertificates_queue_pro.App.{
  RegistryEntry, Loaded, load_registries, registry_config, configure_key, evm_rpc_url,
  register_registries, with_processor, with_client, with_config, with_data, config_file, start,
  Launch, starts, exits, fail_with, config_tags, client_tags, processor_tags, key_or_none,
}
use zkcertificates_queue_pro.App.Starts.{start_from, entry_at, register_registries-Watched}
use zkcertificates_queue_pro.App.Loading.{
  IsRange, load_registries-AreDistinct, last_entry, lookup-load_registries,
}

-- With no options, nothing is filtered and no confirmations are asked for.
new_service-nil :
    (name url : String)
    → let s = new_service name url [] in
      (s.client ≡ false) × (s.confirmations ≡ 0) × (s.event_filters ≡ [])
unfolding new_service default_service apply_options
new_service-nil name url = (refl, refl, refl)

-- The key alone is changed, if anything.
configure_key-key :
    (env : Environment) (p : Processor.Service)
    → (key : Option ℕ) × (configure_key env p ≡ record p { private_key = key })
unfolding configure_key
configure_key-key env p = elim (Bool-cases (str_eq (env.getenv "PRIVATE_KEY") "")) [
  | inl unset ↦ (p.private_key, rw unset refl)
  | inr given ↦ elim (set_private_key-key env (env.getenv "PRIVATE_KEY") p) [
    | inl (key, good) ↦ (some key, rw (given, good, key_or_none) refl)
    | inr (e, failed) ↦ (p.private_key, rw (given, failed, key_or_none) refl)
  ]
]

module _ (env : Environment) (c : EthClient)
    (init_block_height : Address → c.World → Result ℕ × c.World) (hex_to_address : String → Address)
    (read_file : String → Result (List ℕ)) (unmarshal : List ℕ → Result (List RegistryEntry))
    (order : List (Address × Loaded) → List (Address × Loaded)) where
  open c use {World}

  -- The config file reads and parses as these entries.
  abbrev pub IsConfigFile : List RegistryEntry → Type 0
  IsConfigFile entries =
      (bytes : List ℕ) × (read_file (config_file env) ≡ ok bytes) × (unmarshal bytes ≡ ok entries)

  -- Why `main` exits: the error that it reports, and the tags that tell where.
  pub data Exit : String → List (String × String) → Type 0 where
    unread : (e : String) → read_file (config_file env) ≡ err e → Exit e (config_tags env)
    unparsed :
        (e : String) (bytes : List ℕ)
        → read_file (config_file env) ≡ ok bytes
        → unmarshal bytes ≡ err e
        → Exit e (config_tags env)
    unconfigured :
        (bytes : List ℕ)
        → read_file (config_file env) ≡ ok bytes
        → unmarshal bytes ≡ ok []
        → Exit "no registries configured in config file" (config_tags env)
    undialed :
        (e : String) (w : World) → (c.dial (evm_rpc_url env) w).0 ≡ err e → Exit e (client_tags env)
    unstarted :
        (e : String) (entries : List RegistryEntry) (w : World)
        → IsConfigFile entries
        → Unstarted env (map (registry_config hex_to_address) entries) (c.chain_id w).0
        → Exit e processor_tags

  abbrev pub Exits : Launch → Type 0
  Exits r =
      (e : String) × (tags : List (String × String)) × (r
        ≡ exits (record { tags = tags; context = []; exception = e } ∷ []))
      × Exit e tags

  -- What is ready when the services start, for the entries of the config file.
  pub record SetUp (r : Launch) : Type 0 where
    pub entries : List RegistryEntry
    pub evm_service : Evm.Service
    pub queue_processor : Processor.Service
    pub loaded : List (Address × Loaded)
    pub same : r ≡ starts evm_service queue_processor loaded
    pub configured : IsConfigFile entries
    pub known : (a : Address) → lookup a loaded ≡ last_entry hex_to_address a entries none
    pub usable : IsUsable evm_service
    pub unconfirmed : evm_service.confirmations ≡ 0
    pub unfiltered : evm_service.event_filters ≡ []
    pub starts :
        (a : Address) (registry : Loaded)
        → lookup a loaded ≡ some registry
        → (w : World) × (lookup a evm_service.contracts
            ≡ some (entry_at a (start_from registry.start_block (init_block_height a w).0)))
    pub registries :
        (a : Address)
        → lookup a queue_processor.registries
          ≡ last_of a (map (registry_config hex_to_address) entries) none
    pub stopped : queue_processor.is_running ≡ false

  with_client-SetUp :
      (entries : List RegistryEntry) (r : Result (Unit {0})) (w v : World)
      → (c.dial (evm_rpc_url env) v).0 ≡ r
      → IsRange order
      → IsConfigFile entries
      → let end =
          with_client env c init_block_height hex_to_address read_file unmarshal order entries r
            w in
        SetUp end.0 ⊎ Exits end.0
  unfolding with_client fail_with
  with_client-SetUp entries (err e) w v dialed range file =
      inr (e, client_tags env, refl, undialed e v dialed)
  with_client-SetUp entries (ok _) w v dialed range file =
      let loaded = load_registries env hex_to_address entries [] in
      let first = new_service "evm" (evm_rpc_url env) [] in
      let plain = new_service-nil "evm" (evm_rpc_url env) in
      let distinct = load_registries-AreDistinct env hex_to_address entries [] tt in
      let w' = (register_registries c init_block_height (order loaded) first w).1 in
      let watched =
        register_registries-Watched c init_block_height (order loaded) first w plain.0
          (range.distinct loaded distinct)
          (new_service-IsUsable (λ s. false) hex_to_address "evm" (evm_rpc_url env) nil) in
      elim (new_service-Started env "queue-processor" (map (registry_config hex_to_address) entries)
        (c.chain_id w').0) [
          | inr (e, failed, cause) ↦ inr (
            e,
            processor_tags,
            rw (failed, with_processor) refl,
            unstarted e entries w' file cause,
          )
          | inl p ↦
              let (key, keyed) = configure_key-key env p.service in
              inl (record {
                entries = entries;
                evm_service = (register_registries c init_block_height (order loaded) first w).0;
                queue_processor = configure_key env p.service;
                loaded = loaded;
                same = rw (p.same, with_processor) refl;
                configured = file;
                known = λ a. lookup-load_registries env hex_to_address a entries [] p.bound;
                usable = watched.usable;
                unconfirmed = watched.plain ∙ plain.1;
                unfiltered = watched.filters ∙ plain.2;
                starts =
                    λ a registry h. watched.starts a registry (range.same loaded a distinct ∙ h);
                registries = λ a. rw keyed (p.registries a);
                stopped = rw keyed p.stopped;
              })
        ]

  -- Let the range clause visit each entry of a map once. `main` starts the services from a config file
  -- that it could read, having loaded each of its registries (the last entry of an address counts),
  -- with a listener that can run, that asks for no confirmations and filters nothing, and that monitors
  -- each of them from its start: the block of the config file, else the one before the block that the
  -- contract answers, else block 0. The processor has a registry with an empty queue for each address
  -- of the config file, named as its last entry, and no other; it does not run yet. Or `main` exits
  -- with code 1 and one error reported to Sentry, with tags that tell where it comes from, and then the
  -- file could not be read or parsed, or has no registries, the node could not be
  -- dialed or did not tell its chain's number, the merkle proof service could not be reached, or some
  -- registry contract could not be bound.
  pub start-SetUp :
      (w : World)
      → IsRange order
      → let end = start env c init_block_height hex_to_address read_file unmarshal order w in
        SetUp end.0 ⊎ Exits end.0
  unfolding start fail_with
  start-SetUp w range = elim (Result-cases (read_file (config_file env))) [
    | inr (e, failed) ↦ inr (e, config_tags env, rw (failed, with_data) refl, unread e failed)
    | inl (bytes, read) ↦
        rw (read, with_data)
          (elim (Result-cases (unmarshal bytes)) [
            | inr (e, failed) ↦
                inr
                  (e, config_tags env, rw (failed, with_config) refl, unparsed e bytes read failed)
            | inl ([], empty) ↦ inr (
              "no registries configured in config file",
              config_tags env,
              rw (empty, with_config) refl,
              unconfigured bytes read empty,
            )
            | inl (entry ∷ entries, parsed) ↦
                rw (parsed, with_config)
                  (with_client-SetUp (entry ∷ entries) _ _ w refl range (bytes, read, parsed))
          ])
  ]
