-- ===== src/StartManager/Concurrent/Invariant.antt =====
-- What holds in every state that the goroutines can reach: the one value of the exit channel is the
-- exit of mysqld, and it is received once at most.
use mariadb_ctrl.Prelude.{
  ◌≡◌, refl, sym, subst, ◌∙◌, ap, ◌⊎◌, inl, inr, Bool, true, Option, none, some,
}
use mariadb_ctrl.Go.Error.{Error}
use mariadb_ctrl.StartManager.Concurrent.{
  Child, running, ended, Waiter, waiting, reaped, sent, Doing, selecting, shutting_down,
  terminating, returned_exit, returned_late, died, IsActive, System, Own, of_waiter, of_handler,
  of_execute, of_server, reaps, sends, cancels, takes_exit, takes_done, delivers, refuses, receives,
  serving_fails, Step, own, exits, sigterm_arrives, Reachable, start, next,
}

-- `Execute` has received the exit.
abbrev pub received : Doing → Option (Option Error)
received (returned_exit e) = some e
received (returned_late e) = some e
received _ = none

-- Where the exit of mysqld is.
abbrev pub Flows : Child → Waiter → Option (Option Error) → Option (Option Error) → Type 0
Flows c waiting buffer got = (buffer ≡ none) × (got ≡ none)
Flows c (reaped e) buffer got = (c ≡ ended e) × (buffer ≡ none) × (got ≡ none)
Flows c sent buffer got =
    (e : Option Error) × (c ≡ ended e)
    × (((buffer ≡ some e) × (got ≡ none)) ⊎ ((buffer ≡ none) × (got ≡ some e)))

-- `Execute` shuts down only after the context is cancelled.
abbrev pub Follows : Doing → Bool → Type 0
Follows selecting cancelled = Unit
Follows (returned_exit e) cancelled = Unit
Follows died cancelled = Unit
Follows _ cancelled = cancelled ≡ true

pub record IsSound (s : System) : Type 0 where
  pub flows : Flows s.child s.waiter s.buffer (received s.doing)
  pub follows : Follows s.doing s.cancelled

Follows-cancelled : (d : Doing) → Follows d true
Follows-cancelled selecting = tt
Follows-cancelled (returned_exit e) = tt
Follows-cancelled died = tt
Follows-cancelled _ = refl

received-active : (d : Doing) → IsActive d → received d ≡ none
received-active selecting h = refl
received-active shutting_down h = refl
received-active terminating h = refl
received-active _ h = absurd h

-- A value in the buffer was sent, and is the exit.
buffered :
    (c : Child) (w : Waiter) (b got : Option (Option Error)) (e : Option Error)
    → Flows c w b got
    → b ≡ some e
    → (c ≡ ended e) × (w ≡ sent)
buffered c waiting b got e h p = cc h.0
buffered c (reaped x) b got e h p = cc h.1
buffered c sent b got e (x, q, inl (p', r)) p = (q ∙ ap ended (cc), refl)
buffered c sent b got e (x, q, inr (p', r)) p = cc

module _ {s : System} (v : IsSound s) where
  on_doing :
      (d : Doing) → received d ≡ received s.doing → Flows s.child s.waiter s.buffer (received d)
  on_doing d p = subst (Flows s.child s.waiter s.buffer) (sym p) v.flows

  on_waiter : (w : Waiter) → s.waiter ≡ w → Flows s.child w s.buffer (received s.doing)
  on_waiter w p = subst (λ x. Flows s.child x s.buffer (received s.doing)) p v.flows

  taken : (e : Option Error) → s.buffer ≡ some e → Flows s.child s.waiter none (some e)
  taken e p =
      let (ends, is_sent) = buffered s.child s.waiter s.buffer _ e v.flows p in
      subst (λ x. Flows s.child x none (some e)) (sym is_sent) (e, ends, inr (refl, refl))

Own-IsSound : {s s' : System} → Own s s' → IsSound s → IsSound s'
Own-IsSound (of_waiter (reaps e p q)) v =
    let (empty, unread) = on_waiter v waiting q in
    record { flows = (p, empty, unread); follows = v.follows }
Own-IsSound (of_waiter (sends e p q)) v =
    let (ends, _, unread) = on_waiter v (reaped e) p in
    record { flows = (e, ends, inl (refl, unread)); follows = v.follows }
Own-IsSound {s} (of_handler (cancels p)) v = record {
  flows = v.flows;
  follows = Follows-cancelled s.doing;
}
Own-IsSound (of_execute (takes_exit e p q)) v = record { flows = taken v e q; follows = tt }
Own-IsSound (of_execute (takes_done p q)) v = record {
  flows = on_doing v shutting_down (ap received (sym p));
  follows = q;
}
Own-IsSound {s} (of_execute (delivers p q)) v = record {
  flows = on_doing v terminating (ap received (sym p));
  follows = subst (λ d. Follows d s.cancelled) p v.follows;
}
Own-IsSound {s} (of_execute (refuses x p)) v = record {
  flows = on_doing v shutting_down (ap received (sym p));
  follows = subst (λ d. Follows d s.cancelled) p v.follows;
}
Own-IsSound {s} (of_execute (receives e p q)) v = record {
  flows = taken v e q;
  follows = subst (λ d. Follows d s.cancelled) p v.follows;
}
Own-IsSound {s} (of_server (serving_fails h)) v = record {
  flows = on_doing v died (sym (received-active s.doing h));
  follows = tt;
}

running-unsent :
    (w : Waiter) (b got : Option (Option Error)) (e : Option Error)
    → Flows running w b got
    → Flows (ended e) w b got
running-unsent waiting b got e h = h
running-unsent (reaped x) b got e h = cc h.0
running-unsent sent b got e h = cc h.1

pub Step-IsSound : {s s' : System} → Step s s' → IsSound s → IsSound s'
Step-IsSound (own o) v = Own-IsSound o v
Step-IsSound {s} (exits e p) v = record {
  flows =
      running-unsent s.waiter s.buffer (received s.doing) e
        (subst (λ c. Flows c s.waiter s.buffer (received s.doing)) p v.flows);
  follows = v.follows;
}
Step-IsSound sigterm_arrives v = record { flows = v.flows; follows = v.follows }

-- In every state that can be reached, the exit channel has been sent at most one value, which is the
-- exit of mysqld: until it is sent the buffer is empty and nothing has been received; after that it is
-- either in the buffer or has been received by `Execute`, once. `Execute` shuts down, or has returned
-- from shutting down, only after the context was cancelled.
pub Reachable-IsSound : {s : System} → Reachable s → IsSound s
Reachable-IsSound start = record { flows = (refl, refl); follows = tt }
Reachable-IsSound (next r o) = Step-IsSound o (Reachable-IsSound r)
