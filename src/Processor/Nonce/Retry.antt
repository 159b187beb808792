-- ===== src/Processor/Nonce/Retry.antt =====
-- What `submitWithRetry` asks the node for, when it is given the closure of `processIssuance` or
-- `processRevocation`.
use zkcertificates_queue_pro.Base.{
  ℕ, zero, suc, ◌+◌, ◌%◌, ◌^◌, ◌≤◌, ◌<◌, ◌≡◌, refl, ◌∙◌, inl, inr, String, Option, none, some, List,
  [], ◌∷◌, ◌++◌, append_assoc, append-nil, length, length-append, Result, ok, err, Result-cases,
  arith,
}
use zkcertificates_queue_pro.Base.Int.{int64}
use zkcertificates_queue_pro.Evm.Types.{Address, Hash}
use zkcertificates_queue_pro.Processor.Types.{TransactOpts, Sent, Backend, State, Act}
use zkcertificates_queue_pro.Processor.Nonce.{
  Submission, submitted, gave_up, Attempt, unprepared, refused, accepted, next_nonce, take_nonce,
  with_transactor, prepare_transactor, submit_prepared, submitted_with, before_attempt,
  attempt_once, attempts_from, submit_with_retry,
}
use zkcertificates_queue_pro.Processor.Nonce.Cases.{
  unprepared_case, refused_case, accepted_case, Attempt-cases,
}
use zkcertificates_queue_pro.Processor.Operations.{submit_operation}

module _ (b : Backend) (key : ℕ) (contract : Address) (leaf : ℕ) (hash : Hash)
    (proof : List Hash) where
  open b use {World}

  -- The transaction is the one that was to be sent, with its nonce and the gas limit.
  pub record IsFor (nonce : ℕ) (t : Sent) : Type 0 where
    pub contract_is : t.contract ≡ contract
    pub leaf_is : t.leaf_index ≡ int64 leaf
    pub hash_is : t.zk_certificate_hash ≡ hash
    pub proof_is : t.merkle_proof ≡ proof
    pub nonce_is : t.opts.nonce ≡ int64 nonce
    pub gas_is : t.opts.gas_limit ≡ 10_000_000

  -- What one attempt sends, by how it ends.
  abbrev pub AttemptOf : State World → Attempt → State World → Type 0
  AttemptOf s (unprepared e) s' = s'.sent ≡ s.sent
  AttemptOf s (refused n e) s' =
      (t : Sent) × (s'.sent ≡ s.sent ++ t ∷ []) × IsFor n t × (t.answer ≡ err e)
  AttemptOf s (accepted n tx) s' =
      (t : Sent) × (s'.sent ≡ s.sent ++ t ∷ [])
      × IsFor n t
      × (t.answer ≡ ok tx)
      × (s'.service.current_nonce ≡ some ((n + 1) % 2 ^ 64))

  -- The transactor has the nonce that is handed out, and the next one is kept.
  abbrev PreparedOf : State World → Result (TransactOpts × ℕ) × State World → Type 0
  PreparedOf s (err e, s') = s'.sent ≡ s.sent
  PreparedOf s (ok (auth, n), s') =
      (s'.sent ≡ s.sent)
      × (auth.nonce ≡ int64 n)
      × (auth.gas_limit ≡ 10_000_000)
      × (s'.service.current_nonce ≡ some ((n + 1) % 2 ^ 64))

  take_nonce-PreparedOf :
      (from : Address) (r : Result ℕ) (s s' : State World)
      → s'.sent ≡ s.sent
      → PreparedOf s (take_nonce b from r s')
  unfolding take_nonce
  take_nonce-PreparedOf from (err e) s s' h = h
  take_nonce-PreparedOf from (ok n) s s' h = (h, refl, refl, refl)

  next_nonce_sent : (kept : Option ℕ) (s : State World) → (next_nonce b key kept s).1.sent ≡ s.sent
  unfolding next_nonce
  next_nonce_sent none s = refl
  next_nonce_sent (some n) s = refl

  with_transactor-PreparedOf :
      (r : Result Address) (s : State World) → PreparedOf s (with_transactor b key r s)
  unfolding with_transactor
  with_transactor-PreparedOf (err e) s = refl
  with_transactor-PreparedOf (ok from) s =
      let (n, s') = next_nonce b key s.service.current_nonce s in
      take_nonce-PreparedOf from n s s' (next_nonce_sent s.service.current_nonce s)

  prepare_transactor-PreparedOf : (s : State World) → PreparedOf s (prepare_transactor b key s)
  unfolding prepare_transactor
  prepare_transactor-PreparedOf s = with_transactor-PreparedOf _ s

  abbrev submit : TransactOpts → Act World (Result Hash)
  submit = submit_operation b contract leaf hash proof

  -- The transaction that an attempt sends.
  abbrev attempted : TransactOpts → Result Hash → Sent
  attempted auth answer = record {
    contract = contract;
    opts = auth;
    leaf_index = int64 leaf;
    zk_certificate_hash = hash;
    merkle_proof = proof;
    answer = answer;
  }

  attempted-IsFor :
      (n : ℕ) (auth : TransactOpts) (answer : Result Hash)
      → auth.nonce ≡ int64 n
      → auth.gas_limit ≡ 10_000_000
      → IsFor n (attempted auth answer)
  attempted-IsFor n auth answer nonce gas = record {
    contract_is = refl;
    leaf_is = refl;
    hash_is = refl;
    proof_is = refl;
    nonce_is = nonce;
    gas_is = gas;
  }

  submitted_with-AttemptOf :
      (n : ℕ) (auth : TransactOpts) (s s' : State World)
      → PreparedOf s (ok (auth, n), s')
      → AttemptOf s
          (submit_prepared b key submit (ok (auth, n)) s').0
          (submit_prepared b key submit (ok (auth, n)) s').1
  unfolding submit_prepared submit_operation
  submitted_with-AttemptOf n auth s s' (sent, nonce, gas, kept) =
      elim (Result-cases
        (b.process_next_operation contract auth (int64 leaf) hash proof s'.world).0) [
          | inl (tx, e) ↦
              rw (e, submitted_with)
                (
                  attempted auth (ok tx),
                  rw sent,
                  attempted-IsFor n auth (ok tx) nonce gas,
                  refl,
                  kept,
                )
          | inr (x, e) ↦
              rw (e, submitted_with)
                (attempted auth (err x), rw sent, attempted-IsFor n auth (err x) nonce gas, refl)
        ]

  submit_prepared-AttemptOf :
      (r : Result (TransactOpts × ℕ)) (s s' : State World)
      → PreparedOf s (r, s')
      → AttemptOf s (submit_prepared b key submit r s').0 (submit_prepared b key submit r s').1
  unfolding submit_prepared
  submit_prepared-AttemptOf (err e) s s' p = p
  submit_prepared-AttemptOf (ok (auth, n)) s s' p = submitted_with-AttemptOf n auth s s' p

  abbrev once : ℕ → State World → Attempt × State World
  once = attempt_once b key submit

  attempt_once-AttemptOf : (k : ℕ) (s : State World) → AttemptOf s (once k s).0 (once k s).1
  unfolding attempt_once before_attempt
  attempt_once-AttemptOf zero s =
      let (r, s') = prepare_transactor b key s in
      submit_prepared-AttemptOf r s s' (prepare_transactor-PreparedOf s)
  attempt_once-AttemptOf (suc k) s =
      let s0 = (before_attempt b key submit (suc k) s).1 in
      let (r, s') = prepare_transactor b key s0 in
      submit_prepared-AttemptOf r s0 s' (prepare_transactor-PreparedOf s0)

  -- Transactions of the operation that the node refused.
  abbrev pub AreRefused : List Sent → Type 0
  AreRefused [] = Unit
  AreRefused (t ∷ ts) = ((n : ℕ) × IsFor n t × ((e : String) × (t.answer ≡ err e))) × AreRefused ts

  AreRefused-append :
      (ts : List Sent) (n : ℕ) (t : Sent) (e : String)
      → AreRefused ts
      → IsFor n t
      → t.answer ≡ err e
      → AreRefused (ts ++ t ∷ [])
  AreRefused-append [] n t e h for a = ((n, for, (e, a)), tt)
  AreRefused-append (x ∷ ts) n t e h for a = (h.0, AreRefused-append ts n t e h.1 for a)

  -- What a call with `max` attempts sends and leaves, by what it returns.
  abbrev pub SubmissionOf : ℕ → State World → Submission → State World → Type 0
  SubmissionOf max s (gave_up e n attempts) s' =
      (ts : List Sent) × (s'.sent ≡ s.sent ++ ts)
      × AreRefused ts
      × (length ts ≤ max)
      × (attempts ≡ max)
      × (s'.service.current_nonce ≡ none)
      × (0 < max → (x : String) × (e ≡ some x))
  SubmissionOf max s (submitted tx n attempts) s' =
      (ts : List Sent) × (last : Sent) × (s'.sent ≡ s.sent ++ (ts ++ last ∷ []))
      × AreRefused ts
      × IsFor n last
      × (last.answer ≡ ok tx)
      × (length ts < attempts)
      × (attempts ≤ max)
      × (s'.service.current_nonce ≡ some ((n + 1) % 2 ^ 64))

  attempts_from-SubmissionOf :
      (left k max n : ℕ) (e : Option String) (s0 s : State World) (ts : List Sent)
      → k + left ≡ max
      → s.sent ≡ s0.sent ++ ts
      → AreRefused ts
      → length ts ≤ k
      → (0 < k → (x : String) × (e ≡ some x))
      → let r = attempts_from b key submit left k n e s in SubmissionOf max s0 r.0 r.1
  unfolding attempts_from
  attempts_from-SubmissionOf zero k max n e s0 s ts total sent refusals len last =
      (ts, sent, refusals, omega arith, omega arith, refl, λ some_made. last (omega arith))
  attempts_from-SubmissionOf (suc left) k max n e s0 s ts total sent refusals len last =
      let s' = (once k s).1 in
      elim (Attempt-cases (once k s).0) [
        | unprepared_case x p ↦
            let same : s'.sent ≡ s.sent = rw p at (attempt_once-AttemptOf k s) in
            rw (p, attempts_from)
              (attempts_from-SubmissionOf left (suc k) max n (some x) s0 s' ts (omega arith)
                (same ∙ sent) refusals (omega arith) (λ _. (x, refl)))
        | refused_case m x p ↦
            let (t, grown, for, answer) = refused_of p in
            rw (p, attempts_from)
              (attempts_from-SubmissionOf left (suc k) max m (some x) s0 s' (ts ++ t ∷ [])
                (omega arith) (grown ∙ extend t) (AreRefused-append ts m t x refusals for answer)
                (omega (arith, length-append ts (t ∷ []))) (λ _. (x, refl)))
        | accepted_case m tx p ↦
            let (t, grown, for, answer, kept) = accepted_of p in
            rw (p, attempts_from)
              (ts, t, grown ∙ extend t, refusals, for, answer, omega arith, omega arith, kept)
      ]
    where
      extend : (t : Sent) → s.sent ++ t ∷ [] ≡ s0.sent ++ (ts ++ t ∷ [])
      extend t = rw (sent, append_assoc)

      refused_of :
          {m : ℕ} {x : String} → (once k s).0 ≡ refused m x → AttemptOf s (refused m x) (once k s).1
      refused_of p = rw p at (attempt_once-AttemptOf k s)

      accepted_of :
          {m tx : ℕ} → (once k s).0 ≡ accepted m tx → AttemptOf s (accepted m tx) (once k s).1
      accepted_of p = rw p at (attempt_once-AttemptOf k s)

  -- A call with `max` attempts sends at most that many transactions, all for the operation it was
  -- given, and stops at the first that the node takes: those before it were refused. If one was
  -- taken, its hash and its nonce are returned, and the nonce kept is the next one; otherwise all
  -- attempts were made, every transaction was refused, no nonce is kept, and (with at least one
  -- attempt to be made) an error is returned.
  pub submit_with_retry-SubmissionOf :
      (max : ℕ) (s : State World)
      → let r = submit_with_retry b key submit max s in SubmissionOf max s r.0 r.1
  unfolding submit_with_retry
  submit_with_retry-SubmissionOf max s =
      attempts_from-SubmissionOf max 0 max 0 none s s [] (omega arith) (rw append-nil) tt
        (omega arith) (λ none_made. absurd (omega arith))
