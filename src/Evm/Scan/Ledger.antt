-- ===== src/Evm/Scan/Ledger.antt =====
-- What the scan of evm/evm.go should deliver: the logs that the chain holds, block by block.
use native.Mathlib.Nat.{zero-add, suc-add}
use zkcertificates_queue_pro.Base.{
  ℕ, zero, suc, ◌+◌, ◌≡◌, refl, Bool, List, [], ◌∷◌, ◌++◌, append_assoc, not, ◌&&◌, ok, arith, ◌==◌,
  keep_if,
}
use zkcertificates_queue_pro.Base.Int.{ℤ, pos, ◌+ℤ◌, ◌≤ℤ◌, gap, int_laws}
use zkcertificates_queue_pro.Evm.Types.{Address, Hash, Log, ContractEvent, EthClient}
use zkcertificates_queue_pro.Evm.Scan.{filtered_out, unconfirmed}

-- The logs of each block, in their order.
abbrev pub Ledger : Type 0
Ledger = ℤ → List Log

-- The logs of an address in `n` blocks, the first being `from`.
unfoldable pub logs_range : Ledger → Address → ℤ → ℕ → List Log
logs_range ledger a from zero = []
logs_range ledger a from (suc n) =
    keep_if (λ l. l.address == a) (ledger from) ++ logs_range ledger a (from +ℤ pos 1) n

-- Two ranges that meet make one.
pub logs_range-add :
    (ledger : Ledger) (a : Address) (from : ℤ) (n m : ℕ)
    → logs_range ledger a from (n + m)
      ≡ logs_range ledger a from n ++ logs_range ledger a (from +ℤ pos n) m
unfolding logs_range
logs_range-add ledger a from zero m =
    let start : from +ℤ pos 0 ≡ from = omega int_laws in rw (zero-add, start)
logs_range-add ledger a from (suc n) m =
    let shift : from +ℤ pos 1 +ℤ pos n ≡ from +ℤ pos (suc n) = omega int_laws in
    rw (suc-add, logs_range-add ledger a (from +ℤ pos 1) n m, shift, append_assoc)

-- The blocks behind `a` up to `d`, seen as those up to `b` and those behind it.
pub logs_range_split :
    (ledger : Ledger) (address : Address) (a b d : ℤ)
    → a ≤ℤ b
    → b ≤ℤ d
    → logs_range ledger address (a +ℤ pos 1) (gap a d)
      ≡ logs_range ledger address (a +ℤ pos 1) (gap a b)
        ++ logs_range ledger address (b +ℤ pos 1) (gap b d)
logs_range_split ledger address a b d h k =
    let split : gap a d ≡ gap a b + gap b d = omega arith in
    let next : a +ℤ pos 1 +ℤ pos (gap a b) ≡ b +ℤ pos 1 = omega int_laws in
    rw (split, logs_range-add, next)

-- What the service relies on: a query that is answered returns the logs of the ledger, which the
-- chain does not rewrite.
pub record IsFaithful (c : EthClient) (ledger : Ledger) : Type 0 where
  pub filter_ok :
      (a : Address) (from to : ℤ) (w : c.World) (logs : List Log)
      → (c.filter_logs a from to w).0 ≡ ok logs
      → logs ≡ logs_range ledger a from (gap from (to +ℤ pos 1))

-- The logs that a scan up to block `header` lets through.
abbrev pub accepts : List (Hash × Bool) → ℕ → ℤ → Log → Bool
accepts filters confirmations header l =
    not (filtered_out filters l) && not (unconfirmed confirmations header l)

abbrev pub to_event : Log → ContractEvent
to_event l = record { contract = l.address; event = l }

-- With no confirmations asked for, the filters alone decide.
abbrev pub passes : List (Hash × Bool) → Log → Bool
passes filters l = not (filtered_out filters l)

pub accepts-passes :
    (filters : List (Hash × Bool)) (header : ℤ) (ls : List Log)
    → keep_if (accepts filters 0 header) ls ≡ keep_if (passes filters) ls
unfolding unconfirmed
accepts-passes filters header [] = refl
accepts-passes filters header (l ∷ ls) = ground (arith, accepts-passes filters header ls)
