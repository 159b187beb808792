-- ===== src/Evm/Fresh.antt =====
-- evm/evm.go and evm/options.go: what `NewService` and the registrations give the listener.
use zkcertificates_queue_pro.Base.{
  ℕ, String, ◌≡◌, refl, ◌∙◌, inl, inr, Bool, true, Option, none, some, List, [], ◌∷◌, Bool-cases,
  arith, insert, lookup-insert, lookup-erase,
}
use zkcertificates_queue_pro.Base.Int.{ℤ, pos, ◌≤ℤ◌, ◌<ℤ◌, ltb_ℤ, int_laws}
use zkcertificates_queue_pro.Evm.Types.{Address, Hash, Service, EthClient}
use zkcertificates_queue_pro.Evm.Options.{
  with_polling_interval, with_default_start_block, with_initial_contracts, with_block_confirmations,
  with_event_filter, with_max_block_range,
}
use zkcertificates_queue_pro.Evm.{
  default_service, apply_options, new_service, register_contract, unregister_contract,
  register_contract_from_current,
}
use zkcertificates_queue_pro.Evm.Listen.Runs.{IsFresh}

-- The options that the package offers.
pub data IsOption (is_hex : String → Bool) (to_address : String → Address)
    : (Service → Service) → Type 0 where
  polling_interval : (interval : ℤ) → IsOption is_hex to_address (with_polling_interval interval)
  default_start_block :
      (block : Option ℤ) → IsOption is_hex to_address (with_default_start_block block)
  initial_contracts :
      (contracts : List (String × Option ℤ))
      → IsOption is_hex to_address (with_initial_contracts is_hex to_address contracts)
  block_confirmations :
      (confirmations : ℕ) → IsOption is_hex to_address (with_block_confirmations confirmations)
  event_filter :
      (signatures : List Hash) → IsOption is_hex to_address (with_event_filter signatures)
  max_block_range : (blocks : Option ℤ) → IsOption is_hex to_address (with_max_block_range blocks)

-- What the listener relies on: queries of at least two blocks, a pause between rounds, and
-- contracts that are registered under their own address, with nothing scanned or published.
pub record IsUsable (s : Service) : Type 0 where
  pub range : pos 2 ≤ℤ s.max_block_range
  pub pause : pos 0 <ℤ s.polling_interval
  pub fresh : IsFresh s

-- An entry that was just registered, among entries that were.
pub insert-IsFresh :
    (s : Service) (a : Address) (block : ℤ)
    → IsFresh s
    → IsFresh (record s {
      contracts =
          insert a (record { address = a; start_block = block; current_block = block }) s.contracts;
    })
insert-IsFresh s a block v = record {
  silent = v.silent;
  keyed = λ j i h. ground (
    arith,
    v.keyed j i,
    lookup-insert a j (record { address = a; start_block = block; current_block = block })
        s.contracts,
  );
  unscanned = λ j i h. ground (
    arith,
    v.unscanned j i,
    lookup-insert a j (record { address = a; start_block = block; current_block = block })
        s.contracts,
  );
}

-- A change of the settings alone.
retuned :
    (s t : Service)
    → t.bus ≡ s.bus
    → t.contracts ≡ s.contracts
    → pos 2 ≤ℤ t.max_block_range
    → pos 0 <ℤ t.polling_interval
    → IsUsable s
    → IsUsable t
retuned s t b m range pause v = record {
  range = range;
  pause = pause;
  fresh = record {
    silent = b ∙ v.fresh.silent;
    keyed = λ j i h. v.fresh.keyed j i (rw (← m) h);
    unscanned = λ j i h. v.fresh.unscanned j i (rw (← m) h);
  };
}

event_filter-IsUsable :
    (signatures : List Hash) (s : Service) → IsUsable s → IsUsable (with_event_filter signatures s)
unfolding with_event_filter
event_filter-IsUsable [] s v = v
event_filter-IsUsable (signature ∷ rest) s v =
    let s' : Service = record s { event_filters = insert signature true s.event_filters } in
    event_filter-IsUsable rest s' (retuned s s' refl refl v.range v.pause v)

module _ (is_hex : String → Bool) (to_address : String → Address) where
  initial_contracts-IsUsable :
      (contracts : List (String × Option ℤ)) (s : Service)
      → IsUsable s
      → IsUsable (with_initial_contracts is_hex to_address contracts s)
  unfolding with_initial_contracts
  initial_contracts-IsUsable [] s v = v
  initial_contracts-IsUsable ((addr, start_block) ∷ rest) s v = elim (Bool-cases (is_hex addr)) [
    | inl good ↦
        rw (good, with_initial_contracts)
          (initial_contracts-IsUsable rest _
            (record { range = v.range; pause = v.pause; fresh = insert-IsFresh s _ _ v.fresh }))
    | inr bad ↦ rw (bad, with_initial_contracts) (initial_contracts-IsUsable rest s v)
  ]

  option-IsUsable :
      {opt : Service → Service} (s : Service)
      → IsOption is_hex to_address opt
      → IsUsable s
      → IsUsable (opt s)
  unfolding with_polling_interval with_default_start_block with_block_confirmations
      with_max_block_range
  option-IsUsable s (polling_interval interval) v = elim (Bool-cases (ltb_ℤ (pos 0) interval)) [
    | inl good ↦ rw good (retuned s _ refl refl v.range (omega int_laws) v)
    | inr bad ↦ rw bad v
  ]
  option-IsUsable s (default_start_block none) v = v
  option-IsUsable s (default_start_block (some block)) v = retuned s _ refl refl v.range v.pause v
  option-IsUsable s (initial_contracts contracts) v = initial_contracts-IsUsable contracts s v
  option-IsUsable s (block_confirmations confirmations) v = retuned s _ refl refl v.range v.pause v
  option-IsUsable s (event_filter signatures) v = event_filter-IsUsable signatures s v
  option-IsUsable s (max_block_range none) v = v
  option-IsUsable s (max_block_range (some blocks)) v = elim (Bool-cases (ltb_ℤ (pos 1) blocks)) [
    | inl good ↦ rw good (retuned s _ refl refl (omega int_laws) v.pause v)
    | inr bad ↦ rw bad v
  ]

  -- The options of one call of `NewService`.
  pub data AreOptions : List (Service → Service) → Type 0 where
    nil : AreOptions []
    cons :
        {opt : Service → Service} {opts : List (Service → Service)}
        → IsOption is_hex to_address opt
        → AreOptions opts
        → AreOptions (opt ∷ opts)

  apply_options-IsUsable :
      {opts : List (Service → Service)} (s : Service)
      → AreOptions opts
      → IsUsable s
      → IsUsable (apply_options opts s)
  unfolding apply_options
  apply_options-IsUsable s nil v = v
  apply_options-IsUsable s (cons {opt} o os) v =
      apply_options-IsUsable (opt s) os (option-IsUsable s o v)

  -- Whatever options of the package `NewService` is given, in any order and with any arguments, the
  -- service queries at least two blocks at a time and pauses between its rounds; its contracts are
  -- registered under their own addresses with the cursor at the start block, and nothing is
  -- published.
  pub new_service-IsUsable :
      (name url : String) {opts : List (Service → Service)}
      → AreOptions opts
      → IsUsable (new_service name url opts)
  unfolding new_service default_service
  new_service-IsUsable name url os = apply_options-IsUsable (default_service name url) os (record {
    range = omega arith;
    pause = omega arith;
    fresh = record { silent = refl; keyed = λ a i h. cc; unscanned = λ a i h. cc };
  })

module _ (c : EthClient) where
  -- The ways to change the registered contracts before the listener runs.
  pub data Registers (s : Service) : Service → Type 0 where
    register : (a : Address) (block : Option ℤ) → Registers s (register_contract a block s)
    from_current :
        (a : Address) (w : c.World) → Registers s (register_contract_from_current c a s w).0
    unregister : (a : Address) → Registers s (unregister_contract a s)

  -- Any registrations of contracts, from a block or from the current one, and removals of contracts
  -- keep a service usable: it queries at least two blocks at a time and pauses between its rounds,
  -- its contracts are registered under their own addresses with the cursor at the start block, and
  -- nothing is published.
  pub Registers-IsUsable : {s t : Service} → Registers s t → IsUsable s → IsUsable t
  unfolding register_contract register_contract_from_current unregister_contract
  Registers-IsUsable {s} (register a none) v = record {
    range = v.range;
    pause = v.pause;
    fresh = insert-IsFresh s a _ v.fresh;
  }
  Registers-IsUsable {s} (register a (some block)) v = record {
    range = v.range;
    pause = v.pause;
    fresh = insert-IsFresh s a _ v.fresh;
  }
  Registers-IsUsable {s} (from_current a w) v = elim (Bool-cases s.client) [
    | inl set ↦
        rw (set, register_contract_from_current)
          (record { range = v.range; pause = v.pause; fresh = insert-IsFresh s a _ v.fresh })
    | inr unset ↦
        rw (unset, register_contract_from_current)
          (record { range = v.range; pause = v.pause; fresh = insert-IsFresh s a _ v.fresh })
  ]
  Registers-IsUsable {s} (unregister a) v = record {
    range = v.range;
    pause = v.pause;
    fresh = record {
      silent = v.fresh.silent;
      keyed = λ j i h. ground (arith, v.fresh.keyed j i, lookup-erase a j s.contracts);
      unscanned = λ j i h. ground (arith, v.fresh.unscanned j i, lookup-erase a j s.contracts);
    };
  }
