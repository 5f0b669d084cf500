-- ===== src/StartManager/Concurrent/Settling.antt =====
-- The goroutines do not wait for one another for ever.
use mariadb_ctrl.Prelude.{
  ℕ, zero, suc, ◌+◌, ◌<◌, ◌≡◌, refl, ◌∙◌, ◌⊎◌, inl, inr, Bool, true, false, [], Option, none, some,
  arith,
}
use mariadb_ctrl.Go.Error.{Error, no_rows, wrapped, Result, err}
use mariadb_ctrl.StartManager.Concurrent.{
  ended, Waiter, waiting, reaped, sent, Doing, selecting, shutting_down, terminating, returned_exit,
  refused, returned_late, died, IsActive, exit_result, result_of, System, Own, of_waiter,
  of_handler, of_execute, of_server, reaps, sends, cancels, takes_exit, takes_done, delivers,
  refuses, receives, serving_fails, own, Reachable,
}
use mariadb_ctrl.StartManager.Concurrent.Invariant.{
  Flows, received, IsSound, Step-IsSound, Reachable-IsSound,
}

-- A step of `Execute`, of the goroutine of `WaitForCommand` or of the handler, and not of the server.
abbrev pub IsRegular : {s s' : System} → Own s s' → Type 0
IsRegular (of_waiter o) = Unit
IsRegular (of_handler o) = Unit
IsRegular (of_execute o) = Unit
IsRegular (of_server o) = ⊥

-- Whatever the scheduler chooses among the program's own steps, a state with `G` is reached, or the
-- server fails, which ends the process; and until then there is a step to choose that is no failure of
-- the server.
pub data Settles (G : System → Type 0) : System → Type 0 where
  over : {s : System} → G s → Settles G s
  server_failed : {s : System} → s.doing ≡ died → Settles G s
  moves :
      {s : System} (s' : System) (o : Own s s')
      → IsRegular o
      → ((s'' : System) → Own s s'' → Settles G s'')
      → Settles G s

-- `Execute` has returned.
abbrev pub HasReturned : System → Type 0
HasReturned s = (r : Result (Unit {0})) × (result_of s.doing ≡ some r)

-- SIGTERM was delivered to mysqld, or `Execute` has returned.
abbrev pub IsTerminating : System → Type 0
IsTerminating s = (s.doing ≡ terminating) ⊎ HasReturned s

abbrev waiter_rank : Waiter → ℕ
waiter_rank waiting = 2
waiter_rank (reaped e) = 1
waiter_rank sent = 0

abbrev doing_rank : Doing → ℕ
doing_rank selecting = 3
doing_rank shutting_down = 2
doing_rank terminating = 1
doing_rank _ = 0

abbrev pending_rank : Bool → ℕ
pending_rank true = 1
pending_rank false = 0

abbrev rank : System → ℕ
rank s = waiter_rank s.waiter + doing_rank s.doing + pending_rank s.pending

active-rank : (d : Doing) → IsActive d → 0 < doing_rank d
active-rank selecting h = omega arith
active-rank shutting_down h = omega arith
active-rank terminating h = omega arith
active-rank _ h = absurd h

Own-rank : {s s' : System} → Own s s' → rank s' < rank s
Own-rank (of_waiter (reaps e p q)) = rw q (omega arith)
Own-rank (of_waiter (sends e p q)) = rw p (omega arith)
Own-rank (of_handler (cancels p)) = rw p (omega arith)
Own-rank (of_execute (takes_exit e p q)) = rw p (omega arith)
Own-rank (of_execute (takes_done p q)) = rw p (omega arith)
Own-rank (of_execute (delivers p q)) = rw p (omega arith)
Own-rank (of_execute (refuses x p)) = rw p (omega arith)
Own-rank (of_execute (receives e p q)) = rw p (omega arith)
Own-rank {s} (of_server (serving_fails h)) = omega (arith, active-rank s.doing h)

abbrev Move : System → Type 0
Move s = (s' : System) × (o : Own s s') × IsRegular o

-- A property that the program's steps keep and under which there is a step until `G` holds.
module _ (G Q : System → Type 0) (kept : (s s' : System) → Own s s' → Q s → Q s')
    (can_move : (s : System) → Q s → (G s ⊎ (s.doing ≡ died)) ⊎ Move s) where
  settle : (n : ℕ) (s : System) → rank s < n → Q s → Settles G s
  settle zero s h q = absurd (omega arith)
  settle (suc n) s h q = elim (can_move s q) [
    | inl (inl done) ↦ over done
    | inl (inr failed) ↦ server_failed failed
    | inr (s', o, regular) ↦
        moves s' o regular λ s'' o'. settle n s'' (omega (arith, Own-rank o')) (kept s s'' o' q)
  ]

Own-child : {s s' : System} → Own s s' → s'.child ≡ s.child
Own-child (of_waiter (reaps e p q)) = refl
Own-child (of_waiter (sends e p q)) = refl
Own-child (of_handler (cancels p)) = refl
Own-child (of_execute (takes_exit e p q)) = refl
Own-child (of_execute (takes_done p q)) = refl
Own-child (of_execute (delivers p q)) = refl
Own-child (of_execute (refuses x p)) = refl
Own-child (of_execute (receives e p q)) = refl
Own-child (of_server (serving_fails h)) = refl

module _ (s : System) where
  -- With the exit in the buffer or received, `Execute` goes on, has returned, or has died.
  Move-doing :
      (d : Doing) (e : Option Error)
      → s.doing ≡ d
      → ((s.buffer ≡ some e) × (received d ≡ none)) ⊎ ((s.buffer ≡ none) × (received d ≡ some e))
      → (HasReturned s ⊎ (s.doing ≡ died)) ⊎ Move s
  Move-doing selecting e p (inl (b, g)) = inr (_, of_execute (takes_exit e p b), tt)
  Move-doing shutting_down e p (inl (b, g)) = inr (_, of_execute (refuses no_rows p), tt)
  Move-doing terminating e p (inl (b, g)) = inr (_, of_execute (receives e p b), tt)
  Move-doing selecting e p (inr (b, g)) = cc
  Move-doing shutting_down e p (inr (b, g)) = cc
  Move-doing terminating e p (inr (b, g)) = cc
  Move-doing (returned_exit x) e p h = inl (inl (exit_result x, rw p refl))
  Move-doing (refused x) e p h = inl (inl (err (wrapped "unable-to-kill-process" [] x), rw p refl))
  Move-doing (returned_late x) e p h = inl (inl (exit_result x, rw p refl))
  Move-doing died e p h = inl (inr p)

  Move-waiter :
      (w : Waiter) (e : Option Error)
      → s.child ≡ ended e
      → s.waiter ≡ w
      → Flows s.child w s.buffer (received s.doing)
      → (HasReturned s ⊎ (s.doing ≡ died)) ⊎ Move s
  Move-waiter waiting e p q h = inr (_, of_waiter (reaps e p q), tt)
  Move-waiter (reaped x) e p q h = inr (_, of_waiter (sends x q h.1), tt)
  Move-waiter sent e p q (x, r, h) = Move-doing s.doing x refl h

  -- With the context cancelled, or about to be, `Execute` goes on to the signal, which a process that
  -- has not been waited for gets.
  Move-signal :
      (d : Doing) (w : Waiter)
      → s.doing ≡ d
      → s.waiter ≡ w
      → (s.pending ≡ true) ⊎ (s.cancelled ≡ true)
      → (IsTerminating s ⊎ (s.doing ≡ died)) ⊎ Move s
  Move-signal selecting w p q (inl pends) = inr (_, of_handler (cancels pends), tt)
  Move-signal selecting w p q (inr is_cancelled) =
      inr (_, of_execute (takes_done p is_cancelled), tt)
  Move-signal shutting_down waiting p q h = inr (_, of_execute (delivers p q), tt)
  Move-signal shutting_down w p q h = inr (_, of_execute (refuses no_rows p), tt)
  Move-signal terminating w p q h = inl (inl (inl p))
  Move-signal (returned_exit x) w p q h = inl (inl (inr (exit_result x, rw p refl)))
  Move-signal (refused x) w p q h =
      inl (inl (inr (err (wrapped "unable-to-kill-process" [] x), rw p refl)))
  Move-signal (returned_late x) w p q h = inl (inl (inr (exit_result x, rw p refl)))
  Move-signal died w p q h = inl (inr p)

abbrev Exited : System → Type 0
Exited s = IsSound s × (e : Option Error) × (s.child ≡ ended e)

-- A SIGTERM has been received.
abbrev pub Asked : System → Type 0
Asked s = (s.pending ≡ true) ⊎ (s.cancelled ≡ true)

Exited-Own : (s s' : System) → Own s s' → Exited s → Exited s'
Exited-Own s s' o (v, e, p) = (Step-IsSound (own o) v, e, Own-child o ∙ p)

Asked-Own : (s s' : System) → Own s s' → Asked s → Asked s'
Asked-Own s s' (of_waiter (reaps e p q)) h = h
Asked-Own s s' (of_waiter (sends e p q)) h = h
Asked-Own s s' (of_handler (cancels p)) h = inr refl
Asked-Own s s' (of_execute (takes_exit e p q)) h = h
Asked-Own s s' (of_execute (takes_done p q)) h = h
Asked-Own s s' (of_execute (delivers p q)) h = h
Asked-Own s s' (of_execute (refuses x p)) h = h
Asked-Own s s' (of_execute (receives e p q)) h = h
Asked-Own s s' (of_server (serving_fails h)) k = k

-- From every state that can be reached, whatever the scheduler chooses among the steps of the
-- program's goroutines: once mysqld has ended, `Execute` returns; and once a SIGTERM has been received,
-- also with a mysqld that runs on, SIGTERM is delivered to mysqld or `Execute` returns; each unless the
-- status server fails before, which ends the process. Until then there is always a step to choose of
-- `Execute`, of the goroutine of `WaitForCommand` or of the handler.
pub Reachable-Settles :
    {s : System}
    → Reachable s
    → ((e : Option Error) → s.child ≡ ended e → Settles HasReturned s)
      × (Asked s → Settles IsTerminating s)
Reachable-Settles {s} r = (
  λ e p.
      settle HasReturned Exited Exited-Own (λ u (v, x, q). Move-waiter u u.waiter x q refl v.flows)
        (suc (rank s)) s (omega arith) (Reachable-IsSound r, e, p),
  λ h.
      settle IsTerminating Asked Asked-Own (λ u. Move-signal u u.doing u.waiter refl refl)
        (suc (rank s)) s (omega arith) h,
)
