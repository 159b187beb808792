-- ===== src/Processor/Queue/Due.antt =====
-- The ticks of a monitoring loop while the item at the queue's pointer is due.
use zkcertificates_queue_pro.Base.{
  ◌+◌, ◌%◌, ◌^◌, subst, Option, none, ℕ, zero, suc, ◌<◌, ◌≡◌, refl, ap, ◌∙◌, ◌⊎◌, inl, inr, true,
  some, List, [], ◌∷◌, ◌++◌, append_assoc, append-nil, length, ok, arith, lt→ltb,
}
use zkcertificates_queue_pro.Base.Int.{ℤ, int64}
use zkcertificates_queue_pro.Evm.Types.{Address, Hash}
use zkcertificates_queue_pro.Processor.Types.{
  Registry, CertificateData, Sent, Backend, State, certificate_state_issuance_queued,
  certificate_state_revocation_queued,
}
use zkcertificates_queue_pro.Processor.Nonce.Accepting.{IsKept, IsAccepting}
use zkcertificates_queue_pro.Processor.Operations.{Ending, returned}
use zkcertificates_queue_pro.Processor.Operations.Accepted.{
  Sends, Sends-world, process_issuance-Sends, process_revocation-Sends,
}
use zkcertificates_queue_pro.Processor.Queue.{
  process_by_state, if_in_turn, with_data, with_item, process_queue_items, with_length,
  with_pointer, check_and_process_registry_queue, monitor_ticks,
}
use zkcertificates_queue_pro.Processor.Queue.Checks.{preview_items_world}

-- Whenever it is asked, the contract answers that `hash` is the item at the pointer, queued for an
-- issuance or a revocation, and that it is its turn; and the proof service answers.
pub record IsDueAlways (b : Backend) (address : Address) (registry : Registry) (hash : Hash)
    : Type 0 where
  pub pointer : ℕ
  pub queue_length : ℕ
  pub cert : CertificateData
  pub before_end : pointer < queue_length
  pub pointer_is : (w : b.World) → (b.current_queue_pointer registry.address w).0 ≡ ok pointer
  pub length_is :
      (w : b.World) → (b.get_zk_certificate_queue_length registry.address w).0 ≡ ok queue_length
  pub item_is : (w : b.World) → (b.zk_certificate_queue registry.address pointer w).0 ≡ ok hash
  pub data_is :
      (w : b.World) → (b.zk_certificate_processing_data registry.address hash w).0 ≡ ok cert
  pub in_turn : (w : b.World) → (b.is_zk_certificate_in_turn registry.address hash w).0 ≡ ok true
  pub queued :
      (cert.state ≡ certificate_state_issuance_queued)
      ⊎ (cert.state ≡ certificate_state_revocation_queued)
  pub empty_leaf :
      (w : b.World)
      → (r : ℕ × List b.Element) × ((b.get_empty_leaf_proof (b.hex address) w).0 ≡ ok r)
  pub leaf :
      (w : b.World)
      → (r : ℕ × List b.Element) × ((b.get_proof (b.hex address) (b.big_int_string hash) w).0
          ≡ ok r)

-- The transactions are for the item, and the node takes each of them.
abbrev pub AreForItem : Address → Hash → List Sent → Type 0
AreForItem contract hash [] = Unit
AreForItem contract hash (t ∷ ts) =
    (t.contract ≡ contract)
    × (t.zk_certificate_hash ≡ hash)
    × ((tx : Hash) × (t.answer ≡ ok tx))
    × AreForItem contract hash ts

-- Their nonces follow each other, from `n` on.
abbrev pub HaveNoncesFrom : ℕ → List Sent → Type 0
HaveNoncesFrom n [] = Unit
HaveNoncesFrom n (t ∷ ts) = (t.opts.nonce ≡ int64 n) × HaveNoncesFrom ((n + 1) % 2 ^ 64) ts

some_nonce : (kept : Option ℕ) → (n : ℕ) × IsKept kept n
some_nonce none = (0, λ m h. cc)
some_nonce (some n) = (n, λ m h. cc)

module _ (b : Backend) (address : Address) (registry : Registry) (hash : Hash) (key : ℕ)
    (chain_id : ℤ) (accepting : IsAccepting b key chain_id)
    (due : IsDueAlways b address registry hash) where
  open b use {World}

  abbrev SendsHere : State World → Ending × State World → Type 0
  SendsHere s e = Sends registry.address hash s e

  process_by_state-Sends :
      (s : State World)
      → s.service.private_key ≡ some key
      → s.service.chain_id ≡ chain_id
      → SendsHere s (process_by_state b address registry hash due.cert s)
  unfolding process_by_state
  process_by_state-Sends s keyed chain = elim due.queued [
    | inl issuance ↦
        rw (issuance, process_by_state)
          (process_issuance-Sends b address registry hash due.cert.queue_index key chain_id
            accepting s due.empty_leaf keyed chain)
    | inr revocation ↦
        rw (revocation, process_by_state)
          (process_revocation-Sends b address registry hash due.cert.queue_index key chain_id
            accepting s due.leaf keyed chain)
  ]

  process_queue_items-Sends :
      (s : State World)
      → s.service.private_key ≡ some key
      → s.service.chain_id ≡ chain_id
      → SendsHere s (process_queue_items b address registry due.pointer due.queue_length s)
  unfolding process_queue_items
  process_queue_items-Sends s keyed chain =
      let w1 = (b.zk_certificate_queue registry.address due.pointer s.world).1 in
      let w2 = (b.zk_certificate_processing_data registry.address hash w1).1 in
      let w3 = (b.is_zk_certificate_in_turn registry.address hash w2).1 in
      let more = lt→ltb due.pointer due.queue_length due.before_end in
      rw
        (
          more,
          due.item_is s.world,
          with_item,
          due.data_is w1,
          with_data,
          due.in_turn w2,
          if_in_turn,
        )
        (Sends-world s w3 _ (process_by_state-Sends (record s { world = w3 }) keyed chain))

  check-Sends :
      (s : State World)
      → s.service.private_key ≡ some key
      → s.service.chain_id ≡ chain_id
      → SendsHere s (check_and_process_registry_queue b address registry s)
  unfolding check_and_process_registry_queue
  check-Sends s keyed chain =
      let w1 = (b.current_queue_pointer registry.address s.world).1 in
      let w2 = (b.get_zk_certificate_queue_length registry.address w1).1 in
      let s2 : State World = record s { world = w2 } in
      let (w, e) = preview_items_world b address registry 3 due.pointer due.queue_length s2 in
      rw (due.pointer_is s.world, with_pointer, due.length_is w1, with_length, e)
        (Sends-world s w _ (process_queue_items-Sends (record s { world = w }) keyed chain))

  -- Let the contract answer, whenever it is asked, that the item is due; let the proof service answer,
  -- the key be set and good for the chain, and the node take every transaction. Then each tick of the
  -- loop sends one transaction for the item, and their nonces follow each other, from the kept one on.
  -- The loop keeps no record of those that it sent before: as long as the contract's answers do not
  -- change, a later tick sends another one.
  pub each_tick_sends :
      (ticks : ℕ) (s : State World)
      → s.service.private_key ≡ some key
      → s.service.chain_id ≡ chain_id
      → let r = monitor_ticks b address registry ticks s in
        (ts : List Sent) × (n : ℕ) × (r.0 ≡ returned)
        × (r.1.sent ≡ s.sent ++ ts)
        × (length ts ≡ ticks)
        × AreForItem registry.address hash ts
        × IsKept s.service.current_nonce n
        × HaveNoncesFrom n ts
  unfolding monitor_ticks
  each_tick_sends zero s keyed chain =
      let (n, kept) = some_nonce s.service.current_nonce in
      ([], n, refl, rw append-nil refl, refl, tt, kept, tt)
  each_tick_sends (suc ticks) s keyed chain =
      let v = check-Sends s keyed chain in
      let s' = (check_and_process_registry_queue b address registry s).1 in
      let (ts, n, ended, sent, count, all, kept, nonces) =
        each_tick_sends ticks s' (v.same_key ∙ keyed) (v.same_chain ∙ chain) in
      let next : n ≡ (v.nonce + 1) % 2 ^ 64 = kept ((v.nonce + 1) % 2 ^ 64) v.next_kept in
      rw (v.returns, monitor_ticks)
        (
          v.transaction ∷ ts,
          v.nonce,
          ended,
          sent ∙ ap (λ l. l ++ ts) v.sent ∙ append_assoc s.sent (v.transaction ∷ []) ts,
          omega arith,
          (v.contract_is, v.hash_is, v.taken, all),
          v.was_kept,
          (v.nonce_is, subst (λ m. HaveNoncesFrom m ts) next nonces),
        )
