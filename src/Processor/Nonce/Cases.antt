-- ===== src/Processor/Nonce/Cases.antt =====
-- A case split on how an attempt of `submitWithRetry` ended.
use zkcertificates_queue_pro.Base.{ℕ, ◌≡◌, refl, String}
use zkcertificates_queue_pro.Evm.Types.{Hash}
use zkcertificates_queue_pro.Processor.Nonce.{Attempt, unprepared, refused, accepted}

-- How an attempt ended, with the equation.
pub data AttemptCase (a : Attempt) : Type 0 where
  unprepared_case : (e : String) → a ≡ unprepared e → AttemptCase a
  refused_case : (n : ℕ) (e : String) → a ≡ refused n e → AttemptCase a
  accepted_case : (n : ℕ) (tx : Hash) → a ≡ accepted n tx → AttemptCase a

pub Attempt-cases : (a : Attempt) → AttemptCase a
Attempt-cases (unprepared e) = unprepared_case e refl
Attempt-cases (refused n e) = refused_case n e refl
Attempt-cases (accepted n tx) = accepted_case n tx refl
