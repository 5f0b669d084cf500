-- ===== src/Main/Statuses.antt =====
-- cmd/start/main.go: the exit status of the program after any interleaving of its goroutines.
use mariadb_ctrl.Prelude.{◌<◌, ◌≡◌, refl, sym, subst, ◌↔◌, none, some, arith}
use mariadb_ctrl.Go.Error.{
  exited, signaled, Error, exit_error, no_rows, message, wrapped, Result, ok, err,
}
use mariadb_ctrl.StartManager.Concurrent.{
  ended, Doing, returned_exit, refused, returned_late, System, Reachable, result_of,
}
use mariadb_ctrl.StartManager.Concurrent.Invariant.{Reachable-IsSound, received}
use mariadb_ctrl.StartManager.Concurrent.Replayed.{Accounted, accounted}
use mariadb_ctrl.Main.{exit_status}

-- `cmd.Wait` makes an `*exec.ExitError` only of a status other than 0 or of a signal.
abbrev pub IsFailure : Error → Type 0
IsFailure (exit_error (exited n)) = 0 < n
IsFailure (exit_error (signaled n)) = 0 < n
IsFailure _ = Unit

failure_status : (e : Error) → IsFailure e → exit_status (err e) ≡ 0 → ⊥
unfolding exit_status
failure_status (exit_error (exited n)) h z = omega arith
failure_status (exit_error (signaled n)) h z = omega arith
failure_status no_rows h z = omega arith
failure_status (message s) h z = omega arith
failure_status (wrapped s args e) h z = omega arith

ok_status : (r : Result (Unit {0})) → some (ok tt) ≡ some r → exit_status r ≡ 0
unfolding exit_status
ok_status (ok _) p = refl
ok_status (err e) p = cc

err_status :
    (e : Error) (r : Result (Unit {0}))
    → some (err e) ≡ some r
    → IsFailure e
    → exit_status r ≡ 0
    → ⊥
err_status e r p h z =
    let q : err e ≡ r = cc in failure_status e h (subst (λ x. exit_status x ≡ 0) (sym q) z)

-- `Execute` returns, and mysqld fails only with failures.
status_of :
    (s : System) (d : Doing) (r : Result (Unit {0}))
    → Accounted s d
    → result_of d ≡ some r
    → ((e : Error) → s.child ≡ ended (some e) → IsFailure e)
    → (exit_status r ≡ 0) ↔ ((s.child ≡ ended none) × (received d ≡ some none))
unfolding exit_status
status_of s (returned_exit none) r a p fails = (λ z. (a, refl), λ h. ok_status r p)
status_of s (returned_exit (some e)) r a p fails =
    (λ z. absurd (err_status e r p (fails e a) z), λ h. cc h.1)
status_of s (refused x) r a p fails = (λ z. absurd (err_status _ r p tt z), λ h. cc h.1)
status_of s (returned_late none) r a p fails = (λ z. (a.0, refl), λ h. ok_status r p)
status_of s (returned_late (some e)) r a p fails =
    (λ z. absurd (err_status e r p (fails e a.0) z), λ h. cc h.1)
status_of s d r a p fails = cc p

-- After every interleaving of the goroutines in which `Execute` returns, the program exits with the
-- status 0 exactly when mysqld has ended without an error and `Execute` has received that from the
-- exit channel, if the errors of the exit of mysqld carry a status or a signal other than 0.
pub exit_status-zero_iff :
    (s : System) (r : Result (Unit {0}))
    → Reachable s
    → result_of s.doing ≡ some r
    → ((e : Error) → s.child ≡ ended (some e) → IsFailure e)
    → (exit_status r ≡ 0) ↔ ((s.child ≡ ended none) × (received s.doing ≡ some none))
exit_status-zero_iff s r reach p fails =
    status_of s s.doing r (accounted s s.doing (Reachable-IsSound reach) refl) p fails
