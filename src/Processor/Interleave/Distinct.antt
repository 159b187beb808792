-- ===== src/Processor/Interleave/Distinct.antt =====
-- Nonces of one epoch are all different.
use zkcertificates_queue_pro.Base.{
  ℕ, suc, ◌+◌, ◌%◌, ◌^◌, ◌≤◌, ◌<◌, ◌≡◌, ◌≢◌, ◌⊎◌, inl, inr, Bool-cases, ==_iff, refl, none, some,
  arith, ◌==◌,
}
use zkcertificates_queue_pro.Processor.Interleave.{
  Pc, idle, preparing, submitting, update, System, move, after_failure, forget, take, told, Step,
  begin, reset, take_kept, take_told, unprepared, accepted, refused, give_up, Steps, here, next,
  initial,
}

-- The nonce kept is the one behind those taken; those that are submitted with were taken at
-- different positions, and are told by their positions.
pub record IsOrderly (s : System) : Type 0 where
  pub kept : (m : ℕ) → s.current_nonce ≡ some m → m ≡ (s.first s.resets + s.taken) % 2 ^ 64
  pub empty : s.current_nonce ≡ none → s.taken ≡ 0
  pub bounded : s.taken ≤ s.total
  pub past : (i n k e p : ℕ) → s.pc i ≡ submitting n k e p → e ≤ s.resets
  pub early : (i n k p : ℕ) → s.pc i ≡ submitting n k s.resets p → p < s.taken
  pub counted : (i n k e p : ℕ) → s.pc i ≡ submitting n k e p → p < s.total
  pub spaced : (i n k e p : ℕ) → s.pc i ≡ submitting n k e p → n ≡ (s.first e + p) % 2 ^ 64
  pub apart :
      (i j n m k l e p : ℕ) → s.pc i ≡ submitting n k e p → s.pc j ≡ submitting m l e p → i ≡ j

initial-IsOrderly : IsOrderly initial
initial-IsOrderly = record {
  kept = λ m h. cc;
  empty = λ h. refl;
  bounded = omega arith;
  past = λ i n k e p h. cc;
  early = λ i n k p h. cc;
  counted = λ i n k e p h. cc;
  spaced = λ i n k e p h. cc;
  apart = λ i j n m k l e p h h'. cc;
}

-- The place that a step leads to, when it is not a submission.
abbrev IsQuiet : Pc → Type 0
IsQuiet p = (n k e q : ℕ) → p ≢ submitting n k e q

-- A loop that submits after another one's quiet move was submitting before.
unmoved :
    (s : System) (i j n k e q : ℕ) (p : Pc)
    → IsQuiet p
    → update s.pc i p j ≡ submitting n k e q
    → s.pc j ≡ submitting n k e q
unmoved s i j n k e q p quiet h = ground (arith, quiet n k e q)

move-IsOrderly : (i : ℕ) (p : Pc) (s : System) → IsQuiet p → IsOrderly s → IsOrderly (move i p s)
move-IsOrderly i p s quiet v = record {
  kept = v.kept;
  empty = v.empty;
  bounded = v.bounded;
  past = λ j n k e q h. v.past j n k e q (unmoved s i j n k e q p quiet h);
  early = λ j n k q h. v.early j n k q (unmoved s i j n k s.resets q p quiet h);
  counted = λ j n k e q h. v.counted j n k e q (unmoved s i j n k e q p quiet h);
  spaced = λ j n k e q h. v.spaced j n k e q (unmoved s i j n k e q p quiet h);
  apart = λ j j' n m k l e q h h'.
      v.apart j j' n m k l e q (unmoved s i j n k e q p quiet h)
        (unmoved s i j' m l e q p quiet h');
}

forget-IsOrderly : (s : System) → IsOrderly s → IsOrderly (forget s)
forget-IsOrderly s v = record {
  kept = λ m h. cc;
  empty = λ h. refl;
  bounded = omega arith;
  past = λ j n k e q h. omega (arith, v.past j n k e q h);
  early = λ j n k q h. absurd (omega (arith, v.past j n k (suc s.resets) q h));
  counted = v.counted;
  spaced = v.spaced;
  apart = v.apart;
}

-- Before a nonce is taken in an epoch, its first one can be set.
told-IsOrderly : (n : ℕ) (s : System) → s.current_nonce ≡ none → IsOrderly s → IsOrderly (told n s)
told-IsOrderly n s none_kept v = record {
  kept = λ m h. cc;
  empty = v.empty;
  bounded = v.bounded;
  past = v.past;
  early = v.early;
  counted = v.counted;
  spaced = λ i m k e p h. elim (Bool-cases (s.resets == e)) [
    | inr other ↦ rw other (v.spaced i m k e p h)
    | inl same ↦
        let now : s.resets ≡ e = (==_iff s.resets e).0 same in
        absurd (omega (arith, v.early i m k p (rw (← now) at h), v.empty none_kept))
  ];
  apart = v.apart;
}

-- Who submits after a nonce was taken: the loop that took it, or another as before.
taker :
    (s : System) (i j n k m l e p : ℕ)
    → (take i n k s).pc j ≡ submitting m l e p
    → ((i ≡ j) × (m ≡ n) × (e ≡ s.resets) × (p ≡ s.taken)) ⊎ (s.pc j ≡ submitting m l e p)
taker s i j n k m l e p h = ground (arith, ==_iff i j)

take-IsOrderly :
    (i n k : ℕ) (s : System)
    → n ≡ (s.first s.resets + s.taken) % 2 ^ 64
    → IsOrderly s
    → IsOrderly (take i n k s)
take-IsOrderly i n k s value v = record {
  kept = λ m h. let e : (n + 1) % 2 ^ 64 ≡ m = cc in omega arith;
  empty = λ h. cc;
  bounded = omega (arith, v.bounded);
  past = λ j m l e p h. elim (taker s i j n k m l e p h) [
    | inl (_, _, now, _) ↦ omega arith
    | inr old ↦ v.past j m l e p old
  ];
  early = λ j m l p h. elim (taker s i j n k m l s.resets p h) [
    | inl (_, _, _, at) ↦ omega arith
    | inr old ↦ omega (arith, v.early j m l p old)
  ];
  counted = λ j m l e p h. elim (taker s i j n k m l e p h) [
    | inl (_, _, _, at) ↦ omega (arith, v.bounded)
    | inr old ↦ omega (arith, v.counted j m l e p old)
  ];
  spaced = λ j m l e p h. elim (taker s i j n k m l e p h) [
    | inl (_, nonce, now, at) ↦ rw (nonce, now, at) value
    | inr old ↦ v.spaced j m l e p old
  ];
  apart = λ j j' m m' l l' e p h h'. elim (taker s i j n k m l e p h) [
    | inl (first, _, now, at) ↦ elim (taker s i j' n k m' l' e p h') [
      | inl (second, _, _, _) ↦ cc
      | inr old ↦ absurd (omega (arith, v.early j' m' l' p (rw now at old)))
    ]
    | inr old ↦ elim (taker s i j' n k m' l' e p h') [
      | inl (_, _, now, at) ↦ absurd (omega (arith, v.early j m l p (rw now at old)))
      | inr old' ↦ v.apart j j' m m' l l' e p old old'
    ]
  ];
}

after_failure-IsQuiet : (k : ℕ) → IsQuiet (after_failure k)
after_failure-IsQuiet k n l e q h = ground arith

pub Step-IsOrderly : {s t : System} → Step s t → IsOrderly s → IsOrderly t
Step-IsOrderly {s} (begin i h) v = move-IsOrderly i (preparing 0) s (λ n k e q. cc) v
Step-IsOrderly {s} (reset i k h) v =
    move-IsOrderly i (preparing k) (forget s) (λ n l e q. cc) (forget-IsOrderly s v)
Step-IsOrderly {s} (take_kept i k n h kept) v = take-IsOrderly i n k s (v.kept n kept) v
Step-IsOrderly {s} (take_told i k n h none_kept small) v =
    take-IsOrderly i n k (told n s) (let zero = v.empty none_kept in ground arith)
      (told-IsOrderly n s none_kept v)
Step-IsOrderly {s} (unprepared i k h) v =
    move-IsOrderly i (after_failure k) s (after_failure-IsQuiet k) v
Step-IsOrderly {s} (accepted i n k e p h) v = move-IsOrderly i idle s (λ m l e' q. cc) v
Step-IsOrderly {s} (refused i n k e p h) v =
    move-IsOrderly i (after_failure k) s (after_failure-IsQuiet k) v
Step-IsOrderly {s} (give_up i h) v =
    move-IsOrderly i idle (forget s) (λ m l e' q. cc) (forget-IsOrderly s v)

pub Steps-IsOrderly : {s t : System} → IsOrderly s → Steps s t → IsOrderly t
Steps-IsOrderly v here = v
Steps-IsOrderly v (next run step) = Step-IsOrderly step (Steps-IsOrderly v run)

-- In every reachable state, as long as fewer than 2^64 nonces were taken, two loops never submit with
-- the same nonce if they took it since the same reset.
pub same_epoch_apart :
    {s : System} (i j n m k l e p q : ℕ)
    → Steps initial s
    → s.total < 2 ^ 64
    → i ≢ j
    → s.pc i ≡ submitting n k e p
    → s.pc j ≡ submitting m l e q
    → n ≢ m
same_epoch_apart {s} i j n m k l e p q run few other h h' same =
    let v = Steps-IsOrderly initial-IsOrderly run in
    let at = v.spaced i n k e p h in
    let at' = v.spaced j m l e q h' in
    let low = v.counted i n k e p h in
    let low' = v.counted j m l e q h' in
    let together : p ≡ q = omega arith in other (v.apart i j n m k l e p h (rw (← together) at h'))

-- In every reachable state, as long as the nonce was never reset and fewer than 2^64 nonces were
-- taken, no two loops submit with the same nonce.
pub no_reset_apart :
    {s : System} (i j n m k l e e' p q : ℕ)
    → Steps initial s
    → s.resets ≡ 0
    → s.total < 2 ^ 64
    → i ≢ j
    → s.pc i ≡ submitting n k e p
    → s.pc j ≡ submitting m l e' q
    → n ≢ m
no_reset_apart {s} i j n m k l e e' p q run none_made few other h h' =
    let v = Steps-IsOrderly initial-IsOrderly run in
    let zero_e : e ≡ 0 = omega (arith, v.past i n k e p h) in
    let zero_e' : e' ≡ 0 = omega (arith, v.past j m l e' q h') in
    same_epoch_apart i j n m k l 0 p q run few other (rw zero_e at h) (rw zero_e' at h')
