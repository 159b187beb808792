-- ===== src/Processor/Queue/Monitor.antt =====
-- The monitoring loop of one registry: how it ends, and what it sends.
use zkcertificates_queue_pro.Base.{
  ℕ, zero, suc, ◌≡◌, refl, sym, ap, ◌∙◌, inl, inr, none, List, [], ◌++◌, append_assoc, append-nil,
  Bool-cases, arith, All, All-append, All-map,
}
use zkcertificates_queue_pro.Base.Int.{pos, leb_ℤ, ◌≤ℤ◌}
use zkcertificates_queue_pro.Evm.Types.{Address}
use zkcertificates_queue_pro.Processor.Types.{Registry, Service, Sent, Backend, State}
use zkcertificates_queue_pro.Processor.Nonce.{with_nonce}
use zkcertificates_queue_pro.Processor.Operations.{Ending, returned, panicked}
use zkcertificates_queue_pro.Processor.Queue.{
  check_and_process_registry_queue, monitor_ticks, monitor_registry_queue,
}
use zkcertificates_queue_pro.Processor.Queue.Checks.{check_and_process-Checks}
use zkcertificates_queue_pro.Processor.Queue.Provenance.{
  IsSentWith, Checked-IsSentWith, Checked-service,
}

module _ (b : Backend) (address : Address) (registry : Registry) where
  open b use {World}

  -- The loop has returned from each tick; what it sent was due, and of the service it changed the
  -- nonce alone.
  pub record Ticked (s : State World) (e : Ending × State World) : Type 0 where
    pub returns : e.0 ≡ returned
    pub service : with_nonce none e.1.service ≡ with_nonce none s.service
    pub more : List Sent
    pub sent : e.1.sent ≡ s.sent ++ more
    pub justified : All (IsSentWith b address registry s) more

  pub data Monitored (s : State World) (e : Ending × State World) : Type 0 where
    no_ticker : s.service.check_interval ≤ℤ pos 0 → e ≡ (panicked, s) → Monitored s e
    looping : pos 1 ≤ℤ s.service.check_interval → Ticked s e → Monitored s e

  monitor_ticks-Ticked :
      (ticks : ℕ) (s : State World) → Ticked s (monitor_ticks b address registry ticks s)
  unfolding monitor_ticks
  monitor_ticks-Ticked zero s = record {
    returns = refl;
    service = refl;
    more = [];
    sent = sym (append-nil s.sent);
    justified = tt;
  }
  monitor_ticks-Ticked (suc ticks) s =
      let (returns, checked) = check_and_process-Checks b address registry s in
      let s' = (check_and_process_registry_queue b address registry s).1 in
      let (first, sent, all) = Checked-IsSentWith b address registry s s' checked in
      let same = Checked-service b address registry s s' checked in
      let v = monitor_ticks-Ticked ticks s' in
      rw (returns, monitor_ticks)
        (record {
          returns = v.returns;
          service = v.service ∙ same;
          more = first ++ v.more;
          sent = v.sent ∙ ap (λ l. l ++ v.more) sent ∙ append_assoc s.sent first v.more;
          justified = All-append (IsSentWith b address registry s) first v.more all (
              All-map (IsSentWith b address registry s') (IsSentWith b address registry s) v.more
                (λ t (why, (key, keyed)).
                  (why, (key, sym (ap (λ (x : Service). x.private_key) same) ∙ keyed)))
                v.justified);
        })

  -- The loop of a registry panics at its start, before its first tick, exactly if the check interval is
  -- not positive, which `SetCheckInterval` does not rule out. Otherwise, whatever the contract, the node
  -- and the proof service answer, every number of its ticks returns; each transaction that they send is
  -- for an item that the contract said was due, with a proof that its state calls for and the key that
  -- was set; and of the service they change the nonce alone.
  pub monitor_registry_queue-Ends :
      (ticks : ℕ) (s : State World)
      → Monitored s (monitor_registry_queue b address registry ticks s)
  unfolding monitor_registry_queue
  monitor_registry_queue-Ends ticks s = elim (Bool-cases (leb_ℤ s.service.check_interval (pos 0))) [
    | inl none_left ↦ rw (none_left, monitor_registry_queue) (no_ticker (ground arith) refl)
    | inr some_left ↦
        rw (some_left, monitor_registry_queue)
          (looping (ground arith) (monitor_ticks-Ticked ticks s))
  ]
