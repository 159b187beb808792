-- ===== src/Manager/Examples.antt =====
-- The theorem about service/ at three services, of which the second fails to shut down and finishes
-- first.
use mathlib.Core.List.Perm
use zkcertificates_queue_pro.Base.{String, Option, none, some, List, [], ◌∷◌}
use zkcertificates_queue_pro.Manager.{wait_for_shutdown}
use zkcertificates_queue_pro.Manager.Orders.{Exits, wait_for_shutdown-Exits}

abbrev returns : List (Option String)
returns = none ∷ some "context deadline exceeded" ∷ none ∷ []

abbrev results : List (Option String)
results = some "context deadline exceeded" ∷ none ∷ none ∷ []

wait_for_shutdown-Exits_example : Exits returns (wait_for_shutdown results)
wait_for_shutdown-Exits_example =
    wait_for_shutdown-Exits returns results
      (Perm.swap none (some "context deadline exceeded") (none ∷ []))
