-- ===== src/Evm/Lifecycle.antt =====
-- evm/evm.go: `Start`, `Shutdown` and `GetChainID`.
pub mod Runs
use zkcertificates_queue_pro.Base.{
  ℕ, suc, String, Bool, true, false, Option, none, some, List, [], ◌∷◌, ◌++◌, Result, ok, err,
  if◌then◌else◌, ◌≡◌, ◌⊎◌,
}
use mathlib.Core.List.{Memᴰ}
use zkcertificates_queue_pro.Base.Int.{ℤ}
use zkcertificates_queue_pro.Evm.Types.{Service, EthClient}
use zkcertificates_queue_pro.Sentry.{Report, capture_error}

-- The service, and around it: the contexts that were made (by their numbers, from 0 on), the one that
-- `s.cancel` cancels, those that are cancelled, the context of each listener that runs, whether the
-- client is closed, and the reports sent to Sentry.
pub record Running (W : Type 0) : Type 0 where
  pub service : Service
  pub world : W
  pub contexts : ℕ
  pub cancels : Option ℕ
  pub cancelled : List ℕ
  pub listeners : List ℕ
  pub closed : Bool
  pub reports : List Report

module _ (c : EthClient) where
  open c use {World, dial, chain_id}

  -- `sentryutil.CaptureError(err, {"location": location, "rpc": s.rpcURL})`
  capture : String → String → Running World → Running World
  unfolding capture_error
  capture e location p = record p {
    reports =
        p.reports
        ++ capture_error (some e) (("location", location) ∷ ("rpc", p.service.rpc_url) ∷ []);
  }

  -- The goroutine with the listener, under a context of its own.
  listen : Running World → Running World
  listen p = record p {
    service = record p.service { cancel = true };
    contexts = suc p.contexts;
    cancels = some p.contexts;
    listeners = p.contexts ∷ p.listeners;
  }

  with_chain_id : Result ℤ → Running World → Running World
  unfolding capture listen
  with_chain_id (err e) p = capture e "evm_chain_id" p
  with_chain_id (ok id) p = listen p

  with_dialed : Result (Unit {0}) → Running World → Running World
  unfolding with_chain_id
  with_dialed (err e) p = capture e "evm_connection" p
  with_dialed (ok _) p =
      let (id, w) = chain_id p.world in
      with_chain_id id
        (record p { service = record p.service { client = true }; world = w; closed = false })

  -- `Start`
  unfoldable pub start_service : Running World → Running World
  unfolding with_dialed
  start_service p =
      let (dialed, w) = dial p.service.rpc_url p.world in
      with_dialed dialed (record p { world = w })

  -- `if s.cancel != nil { s.cancel() }`
  unfoldable pub cancel_context : Running World → Running World
  cancel_context p = elim p.cancels [
    | none ↦ p
    | some context ↦ record p { cancelled = context ∷ p.cancelled }
  ]

  -- `if s.client != nil { s.client.Close() }`
  unfoldable pub close_client : Running World → Running World
  close_client p = record p { closed = if p.service.client then true else p.closed }

  -- `Shutdown`, and the error that it returns: it waits until no listener runs or the time is out.
  -- Meanwhile listeners whose context is cancelled may return; `left` are those that have not.
  pub data Shutdown (p : Running World) : Option String → Running World → Type 0 where
    waited :
        ((context : ℕ) → Memᴰ context p.listeners → Memᴰ context (cancel_context p).cancelled)
        → Shutdown p none (close_client (record (cancel_context p) { listeners = [] }))
    timed_out :
        (left : List ℕ)
        → ((context : ℕ) → Memᴰ context left → Memᴰ context p.listeners)
        → ((context : ℕ)
            → Memᴰ context p.listeners
            → Memᴰ context left ⊎ Memᴰ context (cancel_context p).cancelled)
        → Shutdown p none (close_client (record (cancel_context p) { listeners = left }))

  -- `GetChainID`; `ethereum.NotFound` reads "not found".
  unfoldable pub get_chain_id : Running World → Result ℤ × Running World
  get_chain_id p =
      if p.service.client
      then (let (id, w) = chain_id p.world in (id, record p { world = w }))
      else (err "not found", p)

  -- A service as `NewService` makes it and contracts are registered with it, before the first `Start`.
  pub record IsNew (p : Running World) : Type 0 where
    pub no_client : p.service.client ≡ false
    pub no_cancel : p.cancels ≡ none
    pub none_cancelled : p.cancelled ≡ []
    pub no_listener : p.listeners ≡ []
    pub no_report : p.reports ≡ []

  -- Calls of the service's methods and work of its listeners, with the number of calls of `Start`.
  pub data Steps (p : Running World) : ℕ → Running World → Type 0 where
    here : Steps p 0 p
    started : {n : ℕ} {q : Running World} → Steps p n q → Steps p (suc n) (start_service q)
    worked :
        {n : ℕ} {q : Running World} (s : Service) (w : World)
        → Steps p n q
        → s.client ≡ q.service.client
        → Steps p n (record q { service = s; world = w })
    stopped :
        {n : ℕ} {q t : Running World} (e : Option String)
        → Steps p n q
        → Shutdown q e t
        → Steps p n t
