-- ===== src/App/Starts.antt =====
-- main.go: where the listener starts for each registry that was loaded.
use zkcertificates_queue_pro.Base.{
  ℕ, ◌≡◌, ◌≢◌, refl, subst, ◌∙◌, inl, inr, false, Option, none, some, List, [], ◌∷◌, Result, ok,
  err, Result-cases, Bool-cases, ==_iff, arith, lookup, lookup-insert, ◌==◌,
}
use zkcertificates_queue_pro.Base.Int.{ℤ, pos, ◌-ℤ◌}
use zkcertificates_queue_pro.Evm.Types.{Address, ContractInfo, Service, EthClient}
use zkcertificates_queue_pro.Evm.{watch_from, register_contract, register_contract_from_current}
use zkcertificates_queue_pro.Evm.Fresh.{IsUsable, insert-IsFresh}
use zkcertificates_queue_pro.App.{Loaded, from_contract, register_registry, register_registries}

-- No address comes twice, as in the range clause over a map.
abbrev pub IsAbsent : Address → List (Address × Loaded) → Type 0
IsAbsent a [] = Unit
IsAbsent a ((j, _) ∷ rest) = (j ≢ a) × IsAbsent a rest

abbrev pub AreDistinct : List (Address × Loaded) → Type 0
AreDistinct [] = Unit
AreDistinct ((j, _) ∷ rest) = IsAbsent j rest × AreDistinct rest

-- The block of the config file; else the one before the contract's first; else the genesis block.
pub start_from : Option ℕ → Result ℕ → ℤ
start_from (some block) height = pos block
start_from none (ok height) = pos height -ℤ pos 1
start_from none (err e) = pos 0

abbrev pub entry_at : Address → ℤ → ContractInfo
entry_at a block = record { address = a; start_block = block; current_block = block }

module _ (c : EthClient) (init_block_height : Address → c.World → Result ℕ × c.World) where
  open c use {World}

  -- Before the service is started there is no client, so an unanswered call counts as block 0.
  register_registry-watch_from :
      (a : Address) (block : Option ℕ) (s : Service) (w : World)
      → s.client ≡ false
      → (register_registry c init_block_height a block s w).0
        ≡ watch_from a (start_from block (init_block_height a w).0) s
  unfolding register_registry register_contract register_contract_from_current start_from
  register_registry-watch_from a (some block) s w no_client = refl
  register_registry-watch_from a none s w no_client =
      elim (Result-cases (init_block_height a w).0) [
        | inl (height, answered) ↦ rw (answered, from_contract) refl
        | inr (e, failed) ↦ rw (failed, from_contract, no_client) refl
      ]

  -- What the loop leaves alone, and where it leaves the contracts.
  pub record Watched (visit : List (Address × Loaded)) (s t : Service) : Type 0 where
    pub usable : IsUsable t
    pub plain : t.confirmations ≡ s.confirmations
    pub filters : t.event_filters ≡ s.event_filters
    pub others : (a : Address) → IsAbsent a visit → lookup a t.contracts ≡ lookup a s.contracts
    pub starts :
        (a : Address) (registry : Loaded)
        → lookup a visit ≡ some registry
        → (w : World) × (lookup a t.contracts
            ≡ some (entry_at a (start_from registry.start_block (init_block_height a w).0)))

  watch_from-IsUsable :
      (a : Address) (block : ℤ) (s : Service) → IsUsable s → IsUsable (watch_from a block s)
  watch_from-IsUsable a block s v = record {
    range = v.range;
    pause = v.pause;
    fresh = insert-IsFresh s a block v.fresh;
  }

  pub register_registries-Watched :
      (visit : List (Address × Loaded)) (s : Service) (w : World)
      → s.client ≡ false
      → AreDistinct visit
      → IsUsable s
      → Watched visit s (register_registries c init_block_height visit s w).0
  unfolding register_registries
  register_registries-Watched [] s w no_client d v = record {
    usable = v;
    plain = refl;
    filters = refl;
    others = λ a _. refl;
    starts = λ a r h. cc;
  }
  register_registries-Watched ((j, registry) ∷ rest) s w no_client d v =
      let block = start_from registry.start_block (init_block_height j w).0 in
      let here = register_registry-watch_from j registry.start_block s w no_client in
      let next =
        register_registries-Watched rest (watch_from j block s)
          (register_registry c init_block_height j registry.start_block s w).1 no_client d.1
          (watch_from-IsUsable j block s v) in
      let kept : (a : Address)
          → j ≢ a
          → lookup a (watch_from j block s).contracts ≡ lookup a s.contracts =
        λ a o. ground (arith, lookup-insert j a (entry_at j block) s.contracts, o) in
      rw (register_registries, here)
        (record {
          usable = next.usable;
          plain = next.plain;
          filters = next.filters;
          others = λ a absent. next.others a absent.1 ∙ kept a (absent.0);
          starts = λ a r h. elim (Bool-cases (j == a)) [
            | inl same ↦
                let e : j ≡ a = (==_iff j a).0 same in
                let loaded : some registry ≡ some r = rw same at h in
                let stored : lookup a (watch_from j block s).contracts ≡ some (entry_at j block) =
                  lookup-insert j a (entry_at j block) s.contracts ∙ rw same refl in
                let kept_later = next.others a (subst (λ x. IsAbsent x rest) e d.0) in (w, cc)
            | inr other ↦ next.starts a r (rw other at h)
          ];
        })
