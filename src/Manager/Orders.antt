-- ===== src/Manager/Orders.antt =====
-- Whatever the order in which the services finish to shut down.
use mathlib.Core.Logic.{∥∥₁_map}
use mathlib.Core.List.{Mem, Memᴰ, Perm, not-mem-nil}
use mathlib.Core.List.Perm
use zkcertificates_queue_pro.Base.{
  ◌≡◌, refl, ◌↔◌, String, true, false, Option, none, some, List, [], ◌∷◌,
}
use zkcertificates_queue_pro.Sentry.{capture_error}
use zkcertificates_queue_pro.Manager.{
  collected, first_of, shutdown_all, Exit, exit_with, wait_for_shutdown,
}

collected-Mem :
    (e : String) (results : List (Option String))
    → Memᴰ (some e) results
    → Memᴰ e (collected results)
unfolding collected
collected-Mem e [] m = elim m [ ]
collected-Mem e (none ∷ results) (Memᴰ.head same) = cc
collected-Mem e (none ∷ results) (Memᴰ.tail m) = collected-Mem e results m
collected-Mem e (some x ∷ results) (Memᴰ.head same) = Memᴰ.head cc
collected-Mem e (some x ∷ results) (Memᴰ.tail m) = Memᴰ.tail (collected-Mem e results m)

Mem-collected :
    (e : String) (results : List (Option String))
    → Memᴰ e (collected results)
    → Memᴰ (some e) results
unfolding collected
Mem-collected e [] m = elim m [ ]
Mem-collected e (none ∷ results) m = Memᴰ.tail (Mem-collected e results m)
Mem-collected e (some x ∷ results) (Memᴰ.head same) = Memᴰ.head (rw same refl)
Mem-collected e (some x ∷ results) (Memᴰ.tail m) = Memᴰ.tail (Mem-collected e results m)

first_of_kept : (e : String) (errors : List String) → first_of (some e) errors ≡ some e
unfolding first_of
first_of_kept e [] = refl
first_of_kept e (x ∷ errors) = first_of_kept e errors

-- How the process ends, given what each service's `Shutdown` returns.
pub data Exits (returns : List (Option String)) (x : Exit) : Type 0 where
  clean :
      ((e : String) → ¬ Mem (some e) returns)
      → x.failed ≡ false
      → x.reports ≡ []
      → x.logged ≡ []
      → Exits returns x
  failing :
      (e : String)
      → Mem (some e) returns
      → x.failed ≡ true
      → x.error ≡ some e
      → x.reports ≡ capture_error (some e) (("location", "shutdown") ∷ [])
      → ((e' : String) → Mem (some e') returns ↔ Mem e' x.logged)
      → Exits returns x

exit_with-Exits :
    (returns : List (Option String)) (errors : List String)
    → ((e : String) → Mem (some e) returns ↔ Mem e errors)
    → Exits returns (exit_with (first_of none errors, errors))
unfolding exit_with first_of
exit_with-Exits returns [] same = clean (λ e m. not-mem-nil ((same e).0 m)) refl refl refl
exit_with-Exits returns (e ∷ errors) same =
    rw (first_of_kept e errors, exit_with, first_of)
      (failing e ((same e).1 ∣ Memᴰ.head refl ∣₁) refl refl refl same)

-- The services shut down at the same time, and their calls return in any order. The process ends with
-- code 0 exactly when no call returns an error, and then logs and reports none; else with code 1, with
-- one of the errors reported to Sentry, and exactly the errors returned are logged.
pub wait_for_shutdown-Exits :
    (returns results : List (Option String))
    → Perm results returns
    → Exits returns (wait_for_shutdown results)
unfolding wait_for_shutdown shutdown_all
wait_for_shutdown-Exits returns results order = exit_with-Exits returns (collected results) (λ e. (
  λ m. ∥∥₁_map ((Perm.mem_iff order).1 m) (collected-Mem e results),
  λ m. (Perm.mem_iff order).0 (∥∥₁_map m (Mem-collected e results)),
))
