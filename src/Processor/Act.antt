-- ===== src/Processor/Act.antt =====
-- Actions on the state of the queue processor.
use zkcertificates_queue_pro.Base.{List, [], ◌∷◌, ◌++◌}
use zkcertificates_queue_pro.Logging.Builder.{Output}
use zkcertificates_queue_pro.Processor.Types.{Service, Sent, Act}

module _ {W A B : Type 0} where
  infixl 5 ◌>>=◌
  abbrev pub ◌>>=◌ : Act W A → (A → Act W B) → Act W B
  ◌>>=◌ m f s = f (m s).0 (m s).1

module _ {W A : Type 0} where
  abbrev pub pure : A → Act W A
  pure a s = (a, s)

  -- A call of the outside world.
  abbrev pub call : (W → A × W) → Act W A
  call f s = ((f s.world).0, record s { world = (f s.world).1 })

  abbrev pub gets : (Service → A) → Act W A
  gets f s = (f s.service, s)

module _ {W : Type 0} where
  infixl 5 ◌>>◌
  abbrev pub ◌>>◌ : {B : Type 0} → Act W (Unit {0}) → Act W B → Act W B
  m >> n = m >>= λ _. n

  abbrev pub run : (W → W) → Act W (Unit {0})
  run f s = (tt, record s { world = f s.world })

  abbrev pub modify : (Service → Service) → Act W (Unit {0})
  modify f s = (tt, record s { service = f s.service })

  abbrev pub put_sent : Sent → Act W (Unit {0})
  put_sent t s = (tt, record s { sent = s.sent ++ t ∷ [] })

  abbrev pub emits : List Output → Act W (Unit {0})
  emits o s = (tt, record s { outputs = s.outputs ++ o })
