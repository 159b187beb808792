-- ===== src/Processor/Nonce/Interleaved.antt =====
-- The calls of `submitWithRetry` are runs of the steps that interleave.
use zkcertificates_queue_pro.Base.{
  ℕ, zero, suc, ◌+◌, ◌%◌, ◌^◌, ◌<◌, ◌≡◌, refl, sym, ap, subst, ◌∙◌, List, [], ◌∷◌, ◌++◌,
  append_assoc, append-nil, inl, inr, String, Option, none, some, Result, ok, err, Result-cases,
  arith,
}
use zkcertificates_queue_pro.Base.Int.{int64}
use zkcertificates_queue_pro.Processor.Operations.{submit_operation}
use zkcertificates_queue_pro.Evm.Types.{Address, Hash}
use zkcertificates_queue_pro.Processor.Types.{TransactOpts, Sent, Backend, State, Act}
use zkcertificates_queue_pro.Processor.Nonce.{
  Attempt, accepted as attempt_accepted, next_nonce, take_nonce, with_transactor,
  prepare_transactor, submit_prepared, submitted_with, before_attempt, attempt_once, attempts_from,
  submit_with_retry,
}
use zkcertificates_queue_pro.Processor.Nonce.Cases.{
  unprepared_case, refused_case, accepted_case, Attempt-cases,
}
use zkcertificates_queue_pro.Processor.Interleave.{
  Pc, idle, resetting, preparing, submitting, giving_up, System, after_failure, forget, take, told,
  Steps, max_retries,
}
use zkcertificates_queue_pro.Processor.Nonce.LoopRuns.{
  LoopRun, unmoved, was_reset, took_kept, took_told, not_prepared, was_accepted, was_refused,
  has_given_up, LoopRun-Steps, Leads, Leads-trans, move-Leads,
}

module _ (b : Backend) (key : ℕ) (contract : Address) (leaf : ℕ) (hash : Hash)
    (proof : List Hash) where
  open b use {World}

  abbrev submit : TransactOpts → Act World (Result Hash)
  submit = submit_operation b contract leaf hash proof

  -- A submission sends one transaction, with the options given and the node's answer.
  submit_sends :
      (auth : TransactOpts) (s : State World)
      → ((submit auth s).1.service.current_nonce ≡ s.service.current_nonce)
        × ((t : Sent) × ((submit auth s).1.sent ≡ s.sent ++ t ∷ [])
            × (t.opts ≡ auth)
            × (t.answer ≡ (submit auth s).0))
  unfolding submit_operation
  submit_sends auth s = (refl, (_, refl, refl, refl))

  -- What `prepareTransactor` does to the shared nonce, as one step.
  abbrev Prepared : ℕ → ℕ → System → State World → Result (TransactOpts × ℕ) × State World → Type 0
  Prepared i k x s (err e, s') =
      Leads b key i x (after_failure k) s'.service.current_nonce [] × (s'.sent ≡ s.sent)
  Prepared i k x s (ok (auth, n), s') =
      (e : ℕ) × (q : ℕ) × Leads b key i x (submitting n k e q) s'.service.current_nonce []
      × (s'.sent ≡ s.sent)
      × (auth.nonce ≡ int64 n)

  took-Leads :
      (i n k : ℕ) (x y : System)
      → LoopRun b key i x [] (take i n k y)
      → y.pc ≡ x.pc
      → Leads b key i x (submitting n k y.resets y.taken) (some ((n + 1) % 2 ^ 64)) []
  took-Leads i n k x y run same = record {
    end = take i n k y;
    run = run;
    place = ground arith;
    nonce = refl;
    others = λ j o. rw same (ground arith);
  }

  -- The nonce is the one kept, or the node tells it.
  taken-Prepared :
      (i k : ℕ) (x : System) (from : Address) (kept : Option ℕ) (s : State World)
      → x.pc i ≡ preparing k
      → x.current_nonce ≡ kept
      → s.service.current_nonce ≡ kept
      → let r = next_nonce b key kept s in Prepared i k x s (take_nonce b from r.0 r.1)
  unfolding next_nonce take_nonce
  taken-Prepared i k x from (some n) s at same same' =
      (x.resets, x.taken, took-Leads i n k x x (took_kept k n unmoved at same) refl, refl, refl)
  taken-Prepared i k x from none s at same same' =
      elim (Result-cases (b.pending_nonce_at (b.key_address key) s.world).0) [
        | inl (n, answer) ↦
            rw (answer, take_nonce)
              (
                x.resets,
                x.taken,
                took-Leads i n k x (told n x) (took_told k n s.world unmoved at same answer) refl,
                refl,
                refl,
              )
        | inr (e, failed) ↦
            rw (failed, take_nonce, same')
              (
                subst (λ kept. Leads b key i x (after_failure k) kept []) same
                    (move-Leads b key i (after_failure k) x x [] (not_prepared k unmoved at) refl),
                refl,
              )
      ]

  prepare_transactor-Prepared :
      (i k : ℕ) (x : System) (s : State World)
      → x.pc i ≡ preparing k
      → x.current_nonce ≡ s.service.current_nonce
      → Prepared i k x s (prepare_transactor b key s)
  unfolding prepare_transactor
  prepare_transactor-Prepared i k x s at same =
      elim (Result-cases (b.new_keyed_transactor key s.service.chain_id)) [
        | inl (from, good) ↦
            rw (good, with_transactor)
              (taken-Prepared i k x from s.service.current_nonce s at same refl)
        | inr (e, failed) ↦
            rw (failed, with_transactor, ← same)
              (move-Leads b key i (after_failure k) x x [] (not_prepared k unmoved at) refl, refl)
      ]

  -- Where an attempt starts, and where it leads to.
  abbrev start_of : ℕ → Pc
  start_of zero = preparing 0
  start_of (suc k) = resetting (suc k)

  abbrev end_of : ℕ → Attempt → Pc
  end_of k (attempt_accepted n tx) = idle
  end_of k _ = after_failure k

  -- From `x` the loop runs to the place, with what is sent meanwhile and the nonce that is kept then.
  abbrev pub Does : ℕ → System → State World → Pc → State World → Type 0
  Does i x s p s' =
      (ts : List Sent) × (s'.sent ≡ s.sent ++ ts) × Leads b key i x p s'.service.current_nonce ts

  then-Does :
      {i : ℕ} {x : System} {p q : Pc} (s s' s'' : State World) (v : Does i x s p s')
      → Does i v.2.end s' q s''
      → Does i x s q s''
  then-Does s s' s'' (ts, sent, v) (us, sent', v') =
      (ts ++ us, sent' ∙ ap (λ l. l ++ us) sent ∙ append_assoc s.sent ts us, Leads-trans b key v v')

  submit_prepared-Leads :
      (i k : ℕ) (x : System) (r : Result (TransactOpts × ℕ)) (s0 s : State World)
      → Prepared i k x s0 (r, s)
      → let a = submit_prepared b key submit r s in Does i x s0 (end_of k a.0) a.1
  unfolding submit_prepared
  submit_prepared-Leads i k x (err e) s0 s (v, sent) = ([], sent ∙ sym (append-nil s0.sent), v)
  submit_prepared-Leads i k x (ok (auth, n)) s0 s (e, q, v, sent, nonce) =
      let (kept, (t, grown, opts, answer)) = submit_sends auth s in
      let nonce' : t.opts.nonce ≡ int64 n = ap (λ (o : TransactOpts). o.nonce) opts ∙ nonce in
      let kept' = v.nonce ∙ sym kept in
      let grown' = grown ∙ ap (λ l. l ++ t ∷ []) sent in
      elim (Result-cases (submit auth s).0) [
        | inl (tx, good) ↦
            rw (good, submitted_with)
              (
                t ∷ [],
                grown',
                subst (λ m. Leads b key i x idle m (t ∷ [])) kept'
                    (Leads-trans b key v (
                      move-Leads b key i idle v.end v.end (t ∷ [])
                        (was_accepted n k e q t tx unmoved v.place nonce' (answer ∙ good)) refl)),
              )
        | inr (message, failed) ↦
            rw (failed, submitted_with)
              (
                t ∷ [],
                grown',
                subst (λ m. Leads b key i x (after_failure k) m (t ∷ [])) kept'
                    (Leads-trans b key v (
                      move-Leads b key i (after_failure k) v.end v.end (t ∷ [])
                        (was_refused n k e q t message unmoved v.place nonce' (answer ∙ failed))
                        refl)),
              )
      ]

  attempt_once-Leads :
      (i k : ℕ) (x : System) (s : State World)
      → x.pc i ≡ start_of k
      → x.current_nonce ≡ s.service.current_nonce
      → let a = attempt_once b key submit k s in Does i x s (end_of k a.0) a.1
  unfolding attempt_once before_attempt
  attempt_once-Leads i zero x s at same =
      submit_prepared-Leads i 0 x _ s _ (prepare_transactor-Prepared i 0 x s at same)
  attempt_once-Leads i (suc k) x s at same =
      let waited =
        move-Leads b key i (preparing (suc k)) x (forget x) [] (was_reset (suc k) unmoved at)
          refl in
      let s0 = (before_attempt b key submit (suc k) s).1 in
      let (ts, sent, v) =
        submit_prepared-Leads i (suc k) waited.end _ s0 _
          (prepare_transactor-Prepared i (suc k) waited.end s0 waited.place waited.nonce) in
      (ts, sent, Leads-trans b key waited v)

  -- Where a loop stands that has `left` attempts left and has made `k`.
  abbrev ready_for : ℕ → ℕ → Pc
  ready_for zero k = giving_up
  ready_for (suc left) k = start_of k

  ready_for-after_failure :
      (left k : ℕ) → suc k + left ≡ max_retries → after_failure k ≡ ready_for left (suc k)
  ready_for-after_failure zero k h = ground arith
  ready_for-after_failure (suc left) k h = ground arith

  attempts_from-Leads :
      (left k last_nonce : ℕ) (last_err : Option String) (i : ℕ) (x : System) (s : State World)
      → k + left ≡ max_retries
      → x.pc i ≡ ready_for left k
      → x.current_nonce ≡ s.service.current_nonce
      → let r = attempts_from b key submit left k last_nonce last_err s in Does i x s idle r.1
  unfolding attempts_from
  attempts_from-Leads zero k m e i x s total at same = (
    [],
    sym (append-nil s.sent),
    move-Leads b key i idle x (forget x) [] (has_given_up unmoved at) refl,
  )
  attempts_from-Leads (suc left) k m e i x s total at same =
      let tried = attempt_once-Leads i k x s at same in
      let s' = (attempt_once b key submit k s).1 in
      let again = ready_for-after_failure left k (omega arith) in
      elim (Attempt-cases (attempt_once b key submit k s).0) [
        | unprepared_case message p ↦
            rw (p, attempts_from)
              (then-Does s s' (attempts_from b key submit left (suc k) m (some message) s').1 tried
                (attempts_from-Leads left (suc k) m (some message) i tried.2.end s' (omega arith)
                  (tried.2.place ∙ rw p again) tried.2.nonce))
        | refused_case n message p ↦
            rw (p, attempts_from)
              (then-Does s s' (attempts_from b key submit left (suc k) n (some message) s').1 tried
                (attempts_from-Leads left (suc k) n (some message) i tried.2.end s' (omega arith)
                  (tried.2.place ∙ rw p again) tried.2.nonce))
        | accepted_case n tx p ↦ rw (p, attempts_from) (rw p at tried)
      ]

  -- Let the node tell nonces of 64 bits. A call of `submitWithRetry` for an operation is a run of the
  -- steps that interleave: from any state of the loops with the same nonce in which loop `i` is about to
  -- make its first attempt, steps of that loop alone lead to one where it is done, with the nonce that
  -- the call leaves. In this run the loop submits with exactly the nonces of the transactions that the
  -- call sends, in their order and with their answers, and whenever it does not take the nonce that is
  -- kept, the node told the one it takes.
  pub submit_with_retry-Leads :
      (i : ℕ) (x : System) (s : State World)
      → ((a : Address) (w : World) (n : ℕ) → (b.pending_nonce_at a w).0 ≡ ok n → n < 2 ^ 64)
      → x.pc i ≡ preparing 0
      → x.current_nonce ≡ s.service.current_nonce
      → let s' = (submit_with_retry b key submit max_retries s).1 in
        (ts : List Sent) × (s'.sent ≡ s.sent ++ ts)
        × (v : Leads b key i x idle s'.service.current_nonce ts) × Steps x v.end
  unfolding submit_with_retry
  submit_with_retry-Leads i x s small at same =
      let (ts, sent, v) = attempts_from-Leads max_retries 0 0 none i x s (omega arith) at same in
      (ts, sent, v, LoopRun-Steps b key small v.run)
