-- ===== src/App/Services/Ends.antt =====
-- How `main` starts its services, and how the process ends.
use mathlib.Core.List.{Memᴰ, Perm}
use mathlib.Core.HLevel.{⊥_prop}
use mathlib.Core.Logic.{∥∥₁_elim}
use zkcertificates_queue_pro.Base.{
  ◌≡◌, refl, sym, ap, ◌⊎◌, inl, inr, String, true, false, Option, none, some, Option-cases, List,
  [], ◌∷◌, map,
}
use zkcertificates_queue_pro.Evm.Types.{EthClient}
use zkcertificates_queue_pro.Evm.Lifecycle as Evm
use zkcertificates_queue_pro.Evm.Lifecycle.{waited as evm_waited, timed_out as evm_timed_out}
use zkcertificates_queue_pro.Evm.Lifecycle.Runs.{Started, start_service-Started}
use zkcertificates_queue_pro.Processor.Lifecycle as Processor
use zkcertificates_queue_pro.Processor.Lifecycle.{not_running, waited, timed_out}
use zkcertificates_queue_pro.Processor.Lifecycle.Restart.{Steps-IsSound, start_service-runs}
use zkcertificates_queue_pro.Processor.Queue.Keys.{keys}
use zkcertificates_queue_pro.Manager.{Exit, wait_for_shutdown, start_all, register, new_manager}
use zkcertificates_queue_pro.Manager.Orders.{Exits, clean, failing, wait_for_shutdown-Exits}
use zkcertificates_queue_pro.App.Services.{evm_service, queue_processor, Process, start_services}

evm_error :
    (c : EthClient) {p t : Evm.Running c.World} (e : Option String)
    → Evm.Shutdown c p e t
    → e ≡ none
evm_error c e (evm_waited all) = refl
evm_error c e (evm_timed_out left among done) = refl

-- The processor's `Shutdown` fails, or leaves no loop.
ended :
    {p t : Processor.Running} (e : Option String)
    → p.service.is_running ≡ true
    → Processor.Shutdown p e t
    → e ≡ none
    → t.loops ≡ []
unfolding Processor.stop_service
ended e busy (not_running idle) same = cc
ended e busy (waited b) same = refl
ended e busy (timed_out m left b among) same = cc

none_in : (e : String) → ¬ Memᴰ (some e) (none ∷ none ∷ none ∷ [])
none_in e (Memᴰ.head same) = cc
none_in e (Memᴰ.tail (Memᴰ.head same)) = cc
none_in e (Memᴰ.tail (Memᴰ.tail (Memᴰ.head same))) = cc
none_in e (Memᴰ.tail (Memᴰ.tail (Memᴰ.tail m))) = elim m [ ]

-- An error that is returned ends the process with code 1.
fails :
    (e : String) (returns : List (Option String)) (x : Exit)
    → Memᴰ (some e) returns
    → Exits returns x
    → x.failed ≡ true
fails e returns x m (clean none_returned ended reports logged) = absurd (none_returned e ∣ m ∣₁)
fails e returns x m (failing e' m' failed error reports logged) = failed

passes : (x : Exit) → Exits (none ∷ none ∷ none ∷ []) x → x.failed ≡ false
passes x (clean none_returned ended reports logged) = ended
passes x (failing e m failed error reports logged) = absurd (∥∥₁_elim m ⊥_prop (none_in e))

-- After the signal, with the processor running: the process ends with code 0 only if the HTTP server's
-- `Shutdown` returned no error and no monitoring loop is left, and with code 1 only if the server's
-- returned an error or the processor's did, which means that it ran out of time. A listener of the EVM
-- service that is still running makes no difference.
pub main_ends :
    (c : EthClient) (p q : Process c) (server evm processor : Option String)
    (results : List (Option String))
    → p.processor.service.is_running ≡ true
    → (evm_service c).shutdown p evm q
    → (queue_processor c).shutdown p processor q
    → Perm results (server ∷ evm ∷ processor ∷ [])
    → (((wait_for_shutdown results).failed ≡ false) × (server ≡ none) × (q.processor.loops ≡ []))
      ⊎ (((wait_for_shutdown results).failed ≡ true)
          × ((e : String) × ((server ≡ some e) ⊎ (processor ≡ some e))))
main_ends c p q server evm processor results busy stop_evm stop_processor order =
    let exits = wait_for_shutdown-Exits (server ∷ evm ∷ processor ∷ []) results order in
    elim (Option-cases server) [
      | inr (m, e) ↦ inr (fails m _ _ (Memᴰ.head (sym e)) exits, (m, inl e))
      | inl good ↦ elim (Option-cases processor) [
        | inr (m, e) ↦
            inr (fails m _ _ (Memᴰ.tail (Memᴰ.tail (Memᴰ.head (sym e)))) exits, (m, inr e))
        | inl good' ↦ inl (
          passes _ (rw (good, evm_error c evm stop_evm, good') at exits),
          good,
          ended processor busy stop_processor good',
        )
      ]
    ]

-- `StartAll` starts the HTTP server, the EVM service and the processor. The processor, if it is new,
-- then runs with one monitoring loop for each registry and one subscription, whatever becomes of the
-- EVM service, which listens or reports why it does not.
pub services_start :
    (c : EthClient) (p : Process c)
    → Processor.IsNew p.processor
    → let q = start_services c p in
      (q.http_started ≡ true)
      × Started c p.evm q.evm
      × (q.processor.service.is_running ≡ true)
      × (map (λ (l : Processor.Loop). l.address) q.processor.loops
          ≡ keys p.processor.service.registries)
      × (q.processor.subscriptions ≡ 1)
unfolding start_services start_all register new_manager Processor.start_service
services_start c p fresh =
    let v = Steps-IsSound fresh (Processor.started Processor.here fresh.idle) in
    let runs = start_service-runs p.processor fresh.idle in
    (
      refl,
      start_service-Started c p.evm,
      ap (λ s. s.is_running) runs,
      rw runs at v.looping,
      v.subscribed,
    )
