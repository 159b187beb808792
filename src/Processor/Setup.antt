-- ===== src/Processor/Setup.antt =====
-- queueprocessor/processor.go: `NewServiceWithMultipleRegistries`, `NewService` and `SetPrivateKey`.
pub mod Registries
use Prim.Native.String.{◌++◌ as str_append, slice, len}
use text.Mathlib.Text.{◌==◌ as str_eq}
use zkcertificates_queue_pro.Base.{
  ℕ, String, Bool, true, false, Option, none, some, List, [], ◌∷◌, Result, ok, err, leb, insert,
  if◌then◌else◌,
}
use zkcertificates_queue_pro.Base.Int.{ℤ, pos}
use zkcertificates_queue_pro.Evm.Types.{Address}
use zkcertificates_queue_pro.Processor.Types.{RegistryConfig, Registry, Service}

-- What the constructor calls outside the repository: the environment's variables (the empty text if
-- not set), the binding of a contract, `strconv.ParseBool`, and the connection to the proof service.
pub record Environment : Type 0 where
  pub getenv : String → String
  pub new_zk_certificate_registry : Address → Result (Unit {0})
  pub parse_bool : String → Result Bool
  pub connect_to_merkle_proof_service : String → Bool → Result (Unit {0})
  pub hex_to_ecdsa : String → Result ℕ

abbrev pub or_default : String → String → String
or_default default value = if str_eq value "" then default else value

-- An invalid value counts as true.
parsed_tls : Result Bool → Bool
parsed_tls (ok b) = b
parsed_tls (err e) = true

unfoldable pub new_registry : RegistryConfig → Registry
new_registry config = record {
  name = config.name;
  address = config.address;
  current_queue_pointer = 0;
  queue = [];
}

-- `if len(s) >= 2 && s[:2] == "0x" { s = s[2:] }`
pub without_prefix : String → String
without_prefix text =
    if leb 2 (len text)
    then if str_eq (slice text 0 2) "0x" then slice text 2 (len text) else text
    else text

abbrev invalid_key : String → String
invalid_key e = str_append "invalid private key: " e

with_key : Result ℕ → Service → Result Service
with_key (err e) s = err (invalid_key e)
with_key (ok key) s = ok (record s { private_key = some key })

module _ (env : Environment) where
  open env use {
    getenv, new_zk_certificate_registry, parse_bool, connect_to_merkle_proof_service, hex_to_ecdsa,
  }

  abbrev bind_error : RegistryConfig → String → String
  bind_error config e =
      str_append
        (str_append (str_append "failed to create registry contract for " config.name) ": ") e

  bind_registry :
      RegistryConfig
      → Result (Unit {0})
      → List (Address × Registry)
      → Result (List (Address × Registry))
  unfolding new_registry
  bind_registry config (err e) registries = err (bind_error config e)
  bind_registry config (ok _) registries =
      ok (insert config.address (new_registry config) registries)

  -- The loop over the registry configs, on the map made so far.
  unfoldable pub bind_registries :
      List RegistryConfig → List (Address × Registry) → Result (List (Address × Registry))
  unfolding bind_registry
  bind_registries [] registries = ok registries
  bind_registries (config ∷ configs) registries =
      elim (bind_registry config (new_zk_certificate_registry config.address) registries) [
        | err e ↦ err e
        | ok registries' ↦ bind_registries configs registries'
      ]

  pub merkle_service_url : String
  merkle_service_url =
      or_default "grpc-merkle-843843.galactica.com:443" (getenv "MERKLE_SERVICE_URL")

  pub merkle_service_tls : Bool
  unfolding parsed_tls
  merkle_service_tls =
      if str_eq (getenv "MERKLE_SERVICE_TLS") ""
      then true
      else parsed_tls (parse_bool (getenv "MERKLE_SERVICE_TLS"))

  abbrev started_with : String → ℤ → List (Address × Registry) → Service
  started_with name chain_id registries = record {
    name = name;
    registries = registries;
    is_running = false;
    check_interval = pos 10_000_000_000;
    merkle_service_url = merkle_service_url;
    merkle_service_tls = merkle_service_tls;
    private_key = none;
    chain_id = chain_id;
    current_nonce = none;
  }

  with_registries : String → ℤ → Result (List (Address × Registry)) → Result Service
  with_registries name chain_id (err e) = err e
  with_registries name chain_id (ok registries) = ok (started_with name chain_id registries)

  connected : String → ℤ → List RegistryConfig → Result (Unit {0}) → Result Service
  unfolding with_registries bind_registries
  connected name chain_id configs (err e) = err e
  connected name chain_id configs (ok _) =
      with_registries name chain_id (bind_registries configs [])

  -- The third argument is the node's answer to the request for its chain's number.
  unfoldable pub new_service_with_multiple_registries :
      String → List RegistryConfig → Result ℤ → Result Service
  unfolding connected merkle_service_url merkle_service_tls
  new_service_with_multiple_registries name configs (err e) =
      err (str_append "failed to get chain ID: " e)
  new_service_with_multiple_registries name configs (ok chain_id) =
      connected name chain_id configs
        (connect_to_merkle_proof_service merkle_service_url merkle_service_tls)

  pub new_default_service : String → Address → Result ℤ → Result Service
  unfolding new_service_with_multiple_registries
  new_default_service name address chain_id =
      new_service_with_multiple_registries name
        (record { name = "Default"; address = address } ∷ []) chain_id

  unfoldable pub set_private_key : String → Service → Result Service
  unfolding with_key without_prefix
  set_private_key text s = with_key (hex_to_ecdsa (without_prefix text)) s
