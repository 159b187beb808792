-- ===== src/Processor/Nonce/LoopRuns.antt =====
-- The runs of one loop through a call of `submitWithRetry`, with the transactions that it sends.
use zkcertificates_queue_pro.Base.{
  ℕ, ◌^◌, ◌<◌, ◌≡◌, ◌≢◌, refl, sym, subst, ◌∙◌, List, [], ◌∷◌, ◌++◌, append_assoc, append-nil,
  String, Option, none, some, ok, err, arith,
}
use zkcertificates_queue_pro.Base.Int.{int64}
use zkcertificates_queue_pro.Evm.Types.{Address, Hash}
use zkcertificates_queue_pro.Processor.Types.{Sent, Backend}
use zkcertificates_queue_pro.Processor.Interleave.{
  Pc, idle, resetting, preparing, submitting, giving_up, System, move, after_failure, forget, take,
  told, reset, take_kept, take_told, unprepared, accepted, refused, give_up, Steps, here, next,
}

module _ (b : Backend) (key : ℕ) where
  open b use {World}

  -- Loop `i` steps on from `x` while no other loop does, and sends these transactions: the nonce that
  -- the node tells is an answer of its, and each submission is a transaction with its nonce, which the
  -- node takes or refuses.
  pub data LoopRun (i : ℕ) (x : System) : List Sent → System → Type 0 where
    unmoved : LoopRun i x [] x
    was_reset :
        {ts : List Sent} {t : System} (k : ℕ)
        → LoopRun i x ts t
        → t.pc i ≡ resetting k
        → LoopRun i x ts (move i (preparing k) (forget t))
    took_kept :
        {ts : List Sent} {t : System} (k n : ℕ)
        → LoopRun i x ts t
        → t.pc i ≡ preparing k
        → t.current_nonce ≡ some n
        → LoopRun i x ts (take i n k t)
    took_told :
        {ts : List Sent} {t : System} (k n : ℕ) (w : World)
        → LoopRun i x ts t
        → t.pc i ≡ preparing k
        → t.current_nonce ≡ none
        → (b.pending_nonce_at (b.key_address key) w).0 ≡ ok n
        → LoopRun i x ts (take i n k (told n t))
    not_prepared :
        {ts : List Sent} {t : System} (k : ℕ)
        → LoopRun i x ts t
        → t.pc i ≡ preparing k
        → LoopRun i x ts (move i (after_failure k) t)
    was_accepted :
        {ts : List Sent} {t : System} (n k e q : ℕ) (last : Sent) (tx : Hash)
        → LoopRun i x ts t
        → t.pc i ≡ submitting n k e q
        → last.opts.nonce ≡ int64 n
        → last.answer ≡ ok tx
        → LoopRun i x (ts ++ last ∷ []) (move i idle t)
    was_refused :
        {ts : List Sent} {t : System} (n k e q : ℕ) (last : Sent) (message : String)
        → LoopRun i x ts t
        → t.pc i ≡ submitting n k e q
        → last.opts.nonce ≡ int64 n
        → last.answer ≡ err message
        → LoopRun i x (ts ++ last ∷ []) (move i (after_failure k) t)
    has_given_up :
        {ts : List Sent} {t : System}
        → LoopRun i x ts t
        → t.pc i ≡ giving_up
        → LoopRun i x ts (move i idle (forget t))

  pub LoopRun-trans :
      {i : ℕ} {x y z : System} {ts us : List Sent}
      → LoopRun i x ts y
      → LoopRun i y us z
      → LoopRun i x (ts ++ us) z
  LoopRun-trans {i} {x} {y} {ts = ts} run unmoved =
      subst (λ l. LoopRun i x l y) (sym (append-nil ts)) run
  LoopRun-trans run (was_reset k more at) = was_reset k (LoopRun-trans run more) at
  LoopRun-trans run (took_kept k n more at same) = took_kept k n (LoopRun-trans run more) at same
  LoopRun-trans run (took_told k n w more at same e) =
      took_told k n w (LoopRun-trans run more) at same e
  LoopRun-trans run (not_prepared k more at) = not_prepared k (LoopRun-trans run more) at
  LoopRun-trans {i} {x} {ts = ts} run
        (was_accepted {ts = us} {t = t} n k e q last tx more at nonce answer) =
      subst (λ l. LoopRun i x l (move i idle t)) (append_assoc ts us (last ∷ []))
        (was_accepted n k e q last tx (LoopRun-trans run more) at nonce answer)
  LoopRun-trans {i} {x} {ts = ts} run
        (was_refused {ts = us} {t = t} n k e q last m more at nonce answer) =
      subst (λ l. LoopRun i x l (move i (after_failure k) t)) (append_assoc ts us (last ∷ []))
        (was_refused n k e q last m (LoopRun-trans run more) at nonce answer)
  LoopRun-trans run (has_given_up more at) = has_given_up (LoopRun-trans run more) at

  -- Such a run is one of the steps that interleave.
  pub LoopRun-Steps :
      {i : ℕ} {x y : System} {ts : List Sent}
      → ((a : Address) (w : World) (n : ℕ) → (b.pending_nonce_at a w).0 ≡ ok n → n < 2 ^ 64)
      → LoopRun i x ts y
      → Steps x y
  LoopRun-Steps small unmoved = here
  LoopRun-Steps small (was_reset k run at) = next (LoopRun-Steps small run) (reset _ k at)
  LoopRun-Steps small (took_kept k n run at same) =
      next (LoopRun-Steps small run) (take_kept _ k n at same)
  LoopRun-Steps small (took_told k n w run at same e) =
      next (LoopRun-Steps small run) (take_told _ k n at same (small _ w n e))
  LoopRun-Steps small (not_prepared k run at) = next (LoopRun-Steps small run) (unprepared _ k at)
  LoopRun-Steps small (was_accepted n k e q last tx run at nonce answer) =
      next (LoopRun-Steps small run) (accepted _ n k e q at)
  LoopRun-Steps small (was_refused n k e q last m run at nonce answer) =
      next (LoopRun-Steps small run) (refused _ n k e q at)
  LoopRun-Steps small (has_given_up run at) = next (LoopRun-Steps small run) (give_up _ at)

  -- Loop `i` runs from `x` to the place `p` with the nonce `kept`, and sends these transactions; the
  -- other loops stay where they are.
  pub record Leads (i : ℕ) (x : System) (p : Pc) (kept : Option ℕ) (ts : List Sent) : Type 0 where
    pub end : System
    pub run : LoopRun i x ts end
    pub place : end.pc i ≡ p
    pub nonce : end.current_nonce ≡ kept
    pub others : (j : ℕ) → i ≢ j → end.pc j ≡ x.pc j

  pub Leads-trans :
      {i : ℕ} {x : System} {p q : Pc} {n m : Option ℕ} {ts us : List Sent} (v : Leads i x p n ts)
      → Leads i v.end q m us
      → Leads i x q m (ts ++ us)
  Leads-trans v v' = record {
    end = v'.end;
    run = LoopRun-trans v.run v'.run;
    place = v'.place;
    nonce = v'.nonce;
    others = λ j o. v'.others j o ∙ v.others j o;
  }

  -- One step that moves the loop, and maybe the nonce.
  pub move-Leads :
      (i : ℕ) (p : Pc) (x y : System) (ts : List Sent)
      → LoopRun i x ts (move i p y)
      → y.pc ≡ x.pc
      → Leads i x p y.current_nonce ts
  move-Leads i p x y ts run same = record {
    end = move i p y;
    run = run;
    place = ground arith;
    nonce = refl;
    others = λ j o. rw same (ground arith);
  }
