-- ===== src/Processor/Examples/Due.antt =====
-- The theorem about items that are due, at a node that takes every transaction.
use zkcertificates_queue_pro.Base.{ℕ, ◌≡◌, refl, inl, List, [], ◌∷◌, ◌++◌, length, ok, arith}
use zkcertificates_queue_pro.Base.Int.{pos}
use zkcertificates_queue_pro.Processor.Types.{Backend, Sent}
use zkcertificates_queue_pro.Processor.Nonce.Accepting.{IsAccepting, IsKept}
use zkcertificates_queue_pro.Processor.Operations.{returned}
use zkcertificates_queue_pro.Processor.Queue.{monitor_ticks}
use zkcertificates_queue_pro.Processor.Queue.Due.{
  IsDueAlways, AreForItem, HaveNoncesFrom, each_tick_sends,
}
use zkcertificates_queue_pro.Processor.Examples.{small, kyc, start}

abbrev taking : Backend
taking = record small {
  process_next_operation = λ a opts leaf h proof w. (ok 77, w);
  get_proof = λ a leaf w. (ok (6, 11 ∷ []), w);
}

taking-IsAccepting : IsAccepting taking 42 (pos 843_843)
taking-IsAccepting = record {
  transactor = (500, refl);
  pending = λ a w. (9, refl);
  accepts = λ contract auth leaf hash proof w. (77, refl);
}

kyc-IsDueAlways : IsDueAlways taking 7 kyc 1004
kyc-IsDueAlways = record {
  pointer = 4;
  queue_length = 5;
  cert = record { guardian = 3; queue_index = 4; state = 1 };
  before_end = omega arith;
  pointer_is = λ w. refl;
  length_is = λ w. refl;
  item_is = λ w. refl;
  data_is = λ w. refl;
  in_turn = λ w. refl;
  queued = inl refl;
  empty_leaf = λ w. ((6, 11 ∷ 12 ∷ []), refl);
  leaf = λ w. ((6, 11 ∷ []), refl);
}

-- Two ticks, two transactions for the same item.
each_tick_sends_example :
    let r = monitor_ticks taking 7 kyc 2 start in
    (ts : List Sent) × (n : ℕ) × (r.0 ≡ returned)
    × (r.1.sent ≡ start.sent ++ ts)
    × (length ts ≡ 2)
    × AreForItem 7 1004 ts
    × IsKept start.service.current_nonce n
    × HaveNoncesFrom n ts
each_tick_sends_example =
    each_tick_sends taking 7 kyc 1004 42 (pos 843_843) taking-IsAccepting kyc-IsDueAlways 2 start
      refl refl
