-- ===== src/Processor/Queue/Checks.antt =====
-- One check of a registry's queue, and the monitoring loop: what makes it act, and on what.
use zkcertificates_queue_pro.Base.{
  ℕ, zero, suc, ◌+◌, ◌<◌, ◌≡◌, refl, sym, ap, ◌∙◌, inl, inr, Bool, true, false, Result, ok, err,
  Bool-cases, ltb, ltb→lt, ◌==◌, ==_iff,
}
use zkcertificates_queue_pro.Evm.Types.{Address, Hash}
use zkcertificates_queue_pro.Processor.Types.{
  Registry, CertificateData, Backend, State, certificate_state_issuance_queued,
  certificate_state_revocation_queued,
}
use zkcertificates_queue_pro.Processor.Operations.{Ending, returned}
use zkcertificates_queue_pro.Processor.Operations.Completion.{
  Completed, Ends-world, process_issuance-Ends, process_revocation-Ends,
}
use zkcertificates_queue_pro.Processor.Queue.{
  process_by_state, if_in_turn, with_data, with_item, process_queue_items, preview_data,
  preview_items, with_length, with_pointer, check_and_process_registry_queue,
}

module _ (b : Backend) (address : Address) (registry : Registry) where
  open b use {World, hex, get_empty_leaf_proof, get_proof}

  -- What the contract answered: its pointer, and then the length of its queue, with the pointer before
  -- the end; that the item at the pointer is `hash`, with this data, and that it is its turn.
  pub record IsDue (hash : Hash) (cert : CertificateData) : Type 0 where
    pub pointer : ℕ
    pub queue_length : ℕ
    pub asked : World
    pub pointer_is : (b.current_queue_pointer registry.address asked).0 ≡ ok pointer
    pub length_is :
        (b.get_zk_certificate_queue_length registry.address
          (b.current_queue_pointer registry.address asked).1).0
        ≡ ok queue_length
    pub before_end : pointer < queue_length
    pub item_is : (w : World) × ((b.zk_certificate_queue registry.address pointer w).0 ≡ ok hash)
    pub data_is :
        (w : World) × ((b.zk_certificate_processing_data registry.address hash w).0 ≡ ok cert)
    pub in_turn : (w : World) × ((b.is_zk_certificate_in_turn registry.address hash w).0 ≡ ok true)

  -- The effect of a check: none but reads, or the one operation that the item's state calls for.
  pub data Checked (s s' : State World) : Type 0 where
    left_alone : s'.sent ≡ s.sent → s'.service ≡ s.service → s'.outputs ≡ s.outputs → Checked s s'
    issued :
        (hash : Hash) (cert : CertificateData)
        → IsDue hash cert
        → cert.state ≡ certificate_state_issuance_queued
        → (w : World)
        → Completed b registry.address hash (get_empty_leaf_proof (hex address) w).0 s s'
        → Checked s s'
    revoked :
        (hash : Hash) (cert : CertificateData)
        → IsDue hash cert
        → cert.state ≡ certificate_state_revocation_queued
        → (w : World)
        → Completed b registry.address hash
            (get_proof (hex address) (b.big_int_string hash) w).0
            s
            s'
        → Checked s s'

  abbrev pub Checks : State World → Ending × State World → Type 0
  Checks s e = (e.0 ≡ returned) × Checked s e.1

  nothing : (s : State World) → Checks s (returned, s)
  nothing s = (refl, left_alone refl refl refl)

  process_by_state-Checks :
      (hash : Hash) (cert : CertificateData) (s : State World)
      → IsDue hash cert
      → Checks s (process_by_state b address registry hash cert s)
  unfolding process_by_state
  process_by_state-Checks hash cert s due = elim (Bool-cases (cert.state == 1)) [
    | inl yes1 ↦
        let (w, e) = process_issuance-Ends b address registry hash cert.queue_index s in
        rw (yes1, process_by_state) (e.0, issued hash cert due ((==_iff cert.state 1).0 yes1) w e.1)
    | inr no1 ↦ elim (Bool-cases (cert.state == 3)) [
      | inl yes3 ↦
          let (w, e) = process_revocation-Ends b address registry hash cert.queue_index s in
          rw (no1, yes3, process_by_state)
            (e.0, revoked hash cert due ((==_iff cert.state 3).0 yes3) w e.1)
      | inr no3 ↦ rw (no1, no3, process_by_state) (nothing s)
    ]
  ]

  Checked-world :
      (s s' : State World) (w : World) → Checked (record s { world = w }) s' → Checked s s'
  Checked-world s s' w (left_alone sent service outputs) = left_alone sent service outputs
  Checked-world s s' w (issued hash cert due state w' e) =
      issued hash cert due state w'
        (Ends-world b registry.address hash _ s w (returned, s') (refl, e)).1
  Checked-world s s' w (revoked hash cert due state w' e) =
      revoked hash cert due state w'
        (Ends-world b registry.address hash _ s w (returned, s') (refl, e)).1

  Checks-world :
      (s : State World) (w : World) (e : Ending × State World)
      → Checks (record s { world = w }) e
      → Checks s e
  Checks-world s w e h = (h.0, Checked-world s e.1 w h.1)

  if_in_turn-Checks :
      (hash : Hash) (cert : CertificateData) (r : Result Bool) (s : State World)
      → (r ≡ ok true → IsDue hash cert)
      → Checks s (if_in_turn b address registry hash cert r s)
  unfolding if_in_turn
  if_in_turn-Checks hash cert (err e) s due = nothing s
  if_in_turn-Checks hash cert (ok false) s due = nothing s
  if_in_turn-Checks hash cert (ok true) s due = process_by_state-Checks hash cert s (due refl)

  with_data-Checks :
      (hash : Hash) (r : Result CertificateData) (s : State World)
      → ((cert : CertificateData)
          → r ≡ ok cert
          → ((w : World) × ((b.is_zk_certificate_in_turn registry.address hash w).0 ≡ ok true))
          → IsDue hash cert)
      → Checks s (with_data b address registry hash r s)
  unfolding with_data
  with_data-Checks hash (err e) s due = nothing s
  with_data-Checks hash (ok cert) s due =
      let (turn, w) = b.is_zk_certificate_in_turn registry.address hash s.world in
      Checks-world s w _ (
        if_in_turn-Checks hash cert turn (record s { world = w }) (λ e. due cert refl (s.world, e)))

  -- The contract has answered the pointer, and then the length.
  abbrev Answered : ℕ → ℕ → Type 0
  Answered pointer queue_length =
      (asked : World) × ((b.current_queue_pointer registry.address asked).0 ≡ ok pointer)
      × ((b.get_zk_certificate_queue_length registry.address
            (b.current_queue_pointer registry.address asked).1).0
          ≡ ok queue_length)

  with_item-Checks :
      (pointer queue_length : ℕ) (r : Result Hash) (s : State World)
      → Answered pointer queue_length
      → pointer < queue_length
      → ((hash : Hash)
          → r ≡ ok hash
          → (w : World) × ((b.zk_certificate_queue registry.address pointer w).0 ≡ ok hash))
      → Checks s (with_item b address registry r s)
  unfolding with_item
  with_item-Checks pointer queue_length (err e) s told lt item = nothing s
  with_item-Checks pointer queue_length (ok hash) s told lt item =
      let (data', w) = b.zk_certificate_processing_data registry.address hash s.world in
      Checks-world s w _ (
        with_data-Checks hash data' (record s { world = w })
          (λ cert e turn. record {
            pointer = pointer;
            queue_length = queue_length;
            asked = told.0;
            pointer_is = told.1;
            length_is = told.2;
            before_end = lt;
            item_is = item hash refl;
            data_is = (s.world, e);
            in_turn = turn;
          }))

  -- `processQueueItems` returns, and either leaves all alone or runs the one operation that is due,
  -- on the item at the pointer.
  process_queue_items-Checks :
      (pointer queue_length : ℕ) (s : State World)
      → Answered pointer queue_length
      → Checks s (process_queue_items b address registry pointer queue_length s)
  unfolding process_queue_items
  process_queue_items-Checks pointer queue_length s told =
      elim (Bool-cases (ltb pointer queue_length)) [
        | inr none_left ↦ rw (none_left, process_queue_items) (nothing s)
        | inl some_left ↦
            let (item, w) = b.zk_certificate_queue registry.address pointer s.world in
            rw (some_left, process_queue_items)
              (Checks-world s w _ (
                with_item-Checks pointer queue_length item (record s { world = w }) told
                  (ltb→lt pointer queue_length some_left) (λ hash e. (s.world, e))))
      ]

  preview_data_world :
      (r : Result Hash) (s : State World)
      → (w : World) × ((preview_data b address registry r s).1 ≡ record s { world = w })
  unfolding preview_data
  preview_data_world (err e) s = (s.world, refl)
  preview_data_world (ok hash) s = (_, refl)

  -- The preview reads only.
  pub preview_items_world :
      (left index queue_length : ℕ) (s : State World)
      → (w : World) × ((preview_items b address registry left index queue_length s).1
          ≡ record s { world = w })
  unfolding preview_items
  preview_items_world zero index queue_length s = (s.world, refl)
  preview_items_world (suc left) index queue_length s =
      let (item, w0) = b.zk_certificate_queue registry.address index s.world in
      let s0 : State World = record s { world = w0 } in
      let (w1, e1) = preview_data_world item s0 in
      let s1 = (preview_data b address registry item s0).1 in
      let (w2, e2) = preview_items_world left (index + 1) queue_length s1 in
      elim (Bool-cases (ltb index queue_length)) [
        | inl more ↦ (
          w2,
          rw (more, preview_items) (e2 ∙ ap (λ (t : State World). record t { world = w2 }) e1),
        )
        | inr done ↦ (s.world, rw (done, preview_items))
      ]

  with_length-Checks :
      (pointer : ℕ) (r : Result ℕ) (s : State World)
      → ((queue_length : ℕ) → r ≡ ok queue_length → Answered pointer queue_length)
      → Checks s (with_length b address registry pointer r s)
  unfolding with_length
  with_length-Checks pointer (err e) s told = nothing s
  with_length-Checks pointer (ok queue_length) s told =
      let (w, e) = preview_items_world 3 pointer queue_length s in
      rw e (
        Checks-world s w _ (
          process_queue_items-Checks pointer queue_length (record s { world = w })
            (told queue_length refl)))

  with_pointer-Checks :
      (r : Result ℕ) (asked : World) (s : State World)
      → r ≡ (b.current_queue_pointer registry.address asked).0
      → s.world ≡ (b.current_queue_pointer registry.address asked).1
      → Checks s (with_pointer b address registry r s)
  unfolding with_pointer
  with_pointer-Checks (err e) asked s answer after = nothing s
  with_pointer-Checks (ok pointer) asked s answer after =
      let (l, w) = b.get_zk_certificate_queue_length registry.address s.world in
      Checks-world s w _ (
        with_length-Checks pointer l (record s { world = w })
          (λ queue_length e. (asked, sym answer, rw (← after) e)))

  pub check_and_process-Checks :
      (s : State World) → Checks s (check_and_process_registry_queue b address registry s)
  unfolding check_and_process_registry_queue
  check_and_process-Checks s =
      let (p, w) = b.current_queue_pointer registry.address s.world in
      Checks-world s w _ (with_pointer-Checks p s.world (record s { world = w }) refl refl)
