-- ===== src/Processor/Interleave.antt =====
-- queueprocessor/processor.go: the loops of all registries share the nonce. Each takes the lock for
-- the nonce alone, so their calls of `submitWithRetry` interleave between `prepareTransactor`, the
-- submission and the reset.
pub mod Distinct
pub mod Race
use zkcertificates_queue_pro.Base.{
  ℕ, suc, ◌+◌, ◌%◌, ◌^◌, ◌<◌, ◌≡◌, Option, none, some, ltb, ◌==◌, if◌then◌else◌,
}

-- The third argument of both calls of `submitWithRetry`.
abbrev pub max_retries : ℕ
max_retries = 3

-- Where a loop stands. The nonce that it submits with was taken as the `position`-th since the
-- `epoch`-th reset; the source does not keep these two.
pub data Pc : Type 0 where
  idle : Pc
  resetting : (attempt : ℕ) → Pc
  preparing : (attempt : ℕ) → Pc
  submitting : (nonce attempt epoch position : ℕ) → Pc
  giving_up : Pc

abbrev pub update : (ℕ → Pc) → ℕ → Pc → ℕ → Pc
update pc i p j = if i == j then p else pc j

-- The shared nonce and the loops. Not kept by the source: the number of resets, the nonce that the
-- node told after each, how many nonces were taken since the last, and how many in all.
pub record System : Type 0 where
  pub current_nonce : Option ℕ
  pub pc : ℕ → Pc
  pub resets : ℕ
  pub first : ℕ → ℕ
  pub taken : ℕ
  pub total : ℕ

abbrev pub move : ℕ → Pc → System → System
move i p s = record s { pc = update s.pc i p }

-- After a failed attempt: the next one, or the end.
abbrev pub after_failure : ℕ → Pc
after_failure attempt = if ltb (suc attempt) max_retries then resetting (suc attempt) else giving_up

abbrev pub forget : System → System
forget s = record s { current_nonce = none; resets = suc s.resets; taken = 0 }

-- `thisNonce := *s.currentNonce; *s.currentNonce++`
abbrev pub take : ℕ → ℕ → ℕ → System → System
take i n attempt s = record s {
  current_nonce = some ((n + 1) % 2 ^ 64);
  pc = update s.pc i (submitting n attempt s.resets s.taken);
  taken = suc s.taken;
  total = suc s.total;
}

abbrev pub told : ℕ → System → System
told n s = record s { first = λ e. if s.resets == e then n else s.first e }

-- One step of loop `i`: what it does while it holds the lock, or the end of a submission.
pub data Step (s : System) : System → Type 0 where
  begin : (i : ℕ) → s.pc i ≡ idle → Step s (move i (preparing 0) s)
  reset : (i k : ℕ) → s.pc i ≡ resetting k → Step s (move i (preparing k) (forget s))
  take_kept : (i k n : ℕ) → s.pc i ≡ preparing k → s.current_nonce ≡ some n → Step s (take i n k s)
  take_told :
      (i k n : ℕ)
      → s.pc i ≡ preparing k
      → s.current_nonce ≡ none
      → n < 2 ^ 64
      → Step s (take i n k (told n s))
  unprepared : (i k : ℕ) → s.pc i ≡ preparing k → Step s (move i (after_failure k) s)
  accepted : (i n k e p : ℕ) → s.pc i ≡ submitting n k e p → Step s (move i idle s)
  refused : (i n k e p : ℕ) → s.pc i ≡ submitting n k e p → Step s (move i (after_failure k) s)
  give_up : (i : ℕ) → s.pc i ≡ giving_up → Step s (move i idle (forget s))

pub data Steps (s : System) : System → Type 0 where
  here : Steps s s
  next : {t u : System} → Steps s t → Step t u → Steps s u

-- When the processor starts, it keeps no nonce, and no loop submits.
abbrev pub initial : System
initial = record {
  current_nonce = none;
  pc = λ i. idle;
  resets = 0;
  first = λ e. 0;
  taken = 0;
  total = 0;
}
