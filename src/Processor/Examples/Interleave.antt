-- ===== src/Processor/Examples/Interleave.antt =====
-- The theorems about the loops that share the nonce, at two loops and a node that is told nonces from 9.
use zkcertificates_queue_pro.Base.{◌≡◌, ◌≢◌, refl, arith}
use zkcertificates_queue_pro.Processor.Interleave.{
  System, Steps, here, next, begin, take_kept, take_told, submitting, idle, preparing, move, take,
  told, after_failure, initial,
}
use zkcertificates_queue_pro.Processor.Interleave.Distinct.{same_epoch_apart}
use zkcertificates_queue_pro.Processor.Interleave.Race.{nonce_shared}
use zkcertificates_queue_pro.Processor.Nonce.{submit_with_retry}
use zkcertificates_queue_pro.Processor.Nonce.LoopRuns.{Leads}
use zkcertificates_queue_pro.Processor.Nonce.Interleaved.{submit_with_retry-Leads}
use zkcertificates_queue_pro.Processor.Types.{Sent, State}
use zkcertificates_queue_pro.Processor.Operations.{submit_operation}
use zkcertificates_queue_pro.Processor.Examples.{small, start}
use zkcertificates_queue_pro.Base.{ℕ, List, [], ◌∷◌, ◌++◌}

abbrev nine : ℕ
nine = 9

abbrev ten : ℕ
ten = 10

-- Both loops prepare, and the first takes the nonce that the node tells.
abbrev first_took : System
first_took = take 0 9 0 (told 9 (move 1 (preparing 0) (move 0 (preparing 0) initial)))

abbrev both_took : System
both_took = take 1 10 0 first_took

both_took_reached : Steps initial both_took
both_took_reached =
    next
      (next (next (next here (begin 0 refl)) (begin 1 refl))
        (take_told 0 0 9 refl refl (omega arith)))
      (take_kept 1 0 10 refl refl)

same_epoch_apart_example : nine ≢ ten
same_epoch_apart_example =
    same_epoch_apart 0 1 9 10 0 0 0 0 1 both_took_reached (omega arith) (omega arith) refl refl

-- The node refuses the transaction of the second loop.
abbrev second_refused : System
second_refused = move 1 (after_failure 0) both_took

nonce_shared_example :
    (t : System) × Steps second_refused t
    × (t.pc 0 ≡ submitting 9 0 0 0)
    × (t.pc 1 ≡ submitting 9 1 t.resets 0)
nonce_shared_example = nonce_shared 0 1 9 0 0 0 1 (omega arith) (omega arith) refl refl

abbrev about_to_submit : System
about_to_submit = move 0 (preparing 0) initial

-- The node refuses the first transaction and takes the second.
abbrev after_call : State ℕ
after_call = (submit_with_retry small 42 (submit_operation small 7 6 1004 (11 ∷ 12 ∷ [])) 3 start).1

submit_with_retry-Leads_example :
    (ts : List Sent) × (after_call.sent ≡ [] ++ ts)
    × (v : Leads small 42 0 about_to_submit idle after_call.service.current_nonce ts) × Steps
        about_to_submit v.end
submit_with_retry-Leads_example =
    submit_with_retry-Leads small 42 7 6 1004 (11 ∷ 12 ∷ []) 0 about_to_submit start
      (λ a w n h. let e : nine ≡ n = cc in omega arith) refl refl
