-- ===== src/App/Loading.antt =====
-- main.go: the map of the registries that `main` has loaded.
use zkcertificates_queue_pro.Base.{
  String, ◌≡◌, ◌≢◌, refl, subst, ◌∙◌, inl, inr, Option, some, List, [], ◌∷◌, map, Result-cases,
  Bool-cases, ==_iff, arith, lookup, insert, lookup-insert, ap, if◌then◌else◌, ◌==◌,
}
use mathlib.Core.Option
use zkcertificates_queue_pro.Processor.Types.{Registry}
use zkcertificates_queue_pro.Processor.Setup.{new_registry}
use zkcertificates_queue_pro.Processor.Setup.Registries.{last_of}
use zkcertificates_queue_pro.Evm.Types.{Address}
use zkcertificates_queue_pro.Processor.Setup.{Environment}
use zkcertificates_queue_pro.Processor.Setup.Registries.{AllBind}
use zkcertificates_queue_pro.App.{
  RegistryEntry, Loaded, load_registry, load_registries, registry_config,
}
use zkcertificates_queue_pro.App.Starts.{IsAbsent, AreDistinct}

-- A range clause visits the entries of a map, each once.
pub record IsRange (order : List (Address × Loaded) → List (Address × Loaded)) : Type 0 where
  pub distinct : (m : List (Address × Loaded)) → AreDistinct m → AreDistinct (order m)
  pub same :
      (m : List (Address × Loaded)) (a : Address) → AreDistinct m → lookup a (order m) ≡ lookup a m

insert-IsAbsent :
    (j a : Address) (registry : Loaded) (m : List (Address × Loaded))
    → a ≢ j
    → IsAbsent j m
    → IsAbsent j (insert a registry m)
insert-IsAbsent j a registry [] o absent = (o, tt)
insert-IsAbsent j a registry ((k, r) ∷ m) o absent = elim (Bool-cases (k == a)) [
  | inl same ↦ rw same (o, absent.1)
  | inr other ↦ rw other (absent.0, insert-IsAbsent j a registry m o absent.1)
]

pub insert-AreDistinct :
    (a : Address) (registry : Loaded) (m : List (Address × Loaded))
    → AreDistinct m
    → AreDistinct (insert a registry m)
insert-AreDistinct a registry [] d = (tt, tt)
insert-AreDistinct a registry ((k, r) ∷ m) d = elim (Bool-cases (k == a)) [
  | inl same ↦ rw same (subst (λ x. IsAbsent x m) ((==_iff k a).0 same) d.0, d.1)
  | inr other ↦
      rw other (
        insert-IsAbsent k a registry m (λ e. ground arith) d.0,
        insert-AreDistinct a registry m d.1,
      )
]

module _ (env : Environment) (hex_to_address : String → Address) where
  pub load_registries-AreDistinct :
      (entries : List RegistryEntry) (m : List (Address × Loaded))
      → AreDistinct m
      → AreDistinct (load_registries env hex_to_address entries m)
  unfolding load_registries
  load_registries-AreDistinct [] m d = d
  load_registries-AreDistinct (entry ∷ entries) m d =
      elim (Result-cases (env.new_zk_certificate_registry (hex_to_address entry.address))) [
        | inl (_, bound) ↦
            rw (load_registries, bound, load_registry)
              (load_registries-AreDistinct entries _ (insert-AreDistinct _ _ m d))
        | inr (e, failed) ↦
            rw (load_registries, failed, load_registry) (load_registries-AreDistinct entries m d)
      ]

-- The last entry of the file with this address, if any; else what was there.
abbrev pub last_entry :
    (String → Address) → Address → List RegistryEntry → Option Loaded → Option Loaded
last_entry hex_to_address a [] before = before
last_entry hex_to_address a (entry ∷ entries) before = last_entry hex_to_address a entries (
    if hex_to_address entry.address == a
    then some (record { name = entry.name; start_block = entry.start_block })
    else before)

-- If every contract can be bound, every entry is loaded.
pub lookup-load_registries :
    (env : Environment) (hex_to_address : String → Address) (a : Address)
    (entries : List RegistryEntry) (m : List (Address × Loaded))
    → AllBind env (map (registry_config hex_to_address) entries)
    → lookup a (load_registries env hex_to_address entries m)
      ≡ last_entry hex_to_address a entries (lookup a m)
unfolding load_registries registry_config
lookup-load_registries env hex_to_address a [] m all = refl
lookup-load_registries env hex_to_address a (entry ∷ entries) m all =
    let registry : Loaded = record { name = entry.name; start_block = entry.start_block } in
    rw (load_registries, all.0, load_registry)
      (lookup-load_registries env hex_to_address a entries
          (insert (hex_to_address entry.address) registry m) all.1
        ∙ ap (last_entry hex_to_address a entries)
            (lookup-insert (hex_to_address entry.address) a registry m))

abbrev pub empty_registry : Address → String → Registry
empty_registry a name = record { name = name; address = a; current_queue_pointer = 0; queue = [] }

-- The processor has an empty registry for each that is loaded, of the same name.
pub last_of-last_entry :
    (hex_to_address : String → Address) (a : Address) (entries : List RegistryEntry)
    (before : Option Loaded) (made : Option Registry) (registry : Loaded)
    → ((r : Loaded) → before ≡ some r → made ≡ some (empty_registry a r.name))
    → last_entry hex_to_address a entries before ≡ some registry
    → last_of a (map (registry_config hex_to_address) entries) made
      ≡ some (empty_registry a registry.name)
unfolding registry_config new_registry
last_of-last_entry hex_to_address a [] before made registry h e = h registry e
last_of-last_entry hex_to_address a (entry ∷ entries) before made registry h e =
    last_of-last_entry hex_to_address a entries _ _ registry
      (elim (Bool-cases (hex_to_address entry.address == a)) [
        | inl same ↦
            let at : hex_to_address entry.address ≡ a = (==_iff _ a).0 same in
            rw same (λ r e'. rw at (ap (Option.map (λ (l : Loaded). empty_registry a l.name)) e'))
        | inr other ↦ rw other h
      ])
      e
