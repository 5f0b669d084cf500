-- ===== src/Go/Relations.antt =====
-- The relations between worlds that the proofs use: what an action adds to the trace, and what it
-- leaves alone.
use mathlib.Core.Path.{◌∙◌}
use mariadb_ctrl.Prelude.{◌≡◌, refl, sym, ap, List, [], ◌++◌, append_assoc, All, All-append}
use mariadb_ctrl.Go.World.{World, Event}
use mariadb_ctrl.Go.Rules.{IsPreorder}

-- The trace is extended by events that all have `P`, and nothing else changes.
pub record Adds (P : Event → Type 0) (w v : World) : Type 0 where
  pub added : List Event
  pub grown : v ≡ record w { trace = added ++ w.trace }
  pub all : All P added

-- The trace is extended by events that all have `P`; the rest may change.
pub record Extends (P : Event → Type 0) (w v : World) : Type 0 where
  pub added : List Event
  pub grown : v.trace ≡ added ++ w.trace
  pub all : All P added

-- The starter's command, the channels and what was received stay as they are.
pub record Frame (w v : World) : Type 0 where
  pub same_cmd : v.mysql_cmd ≡ w.mysql_cmd
  pub same_next : v.next_chan ≡ w.next_chan
  pub same_drained : v.drained ≡ w.drained

module _ (P : Event → Type 0) where
  pub Adds-IsPreorder : IsPreorder (Adds P)
  Adds-IsPreorder = record {
    reflexive = λ w. record { added = []; grown = refl; all = tt };
    transitive = λ u v w h k. record {
      added = k.added ++ h.added;
      grown =
          k.grown
          ∙ ap (λ (x : World). record x { trace = k.added ++ x.trace }) h.grown
          ∙ ap (λ t. record u { trace = t }) (sym (append_assoc k.added h.added u.trace));
      all = All-append P k.added h.added k.all h.all;
    };
  }

  pub Extends-IsPreorder : IsPreorder (Extends P)
  Extends-IsPreorder = record {
    reflexive = λ w. record { added = []; grown = refl; all = tt };
    transitive = λ u v w h k. record {
      added = k.added ++ h.added;
      grown = k.grown ∙ ap (λ t. k.added ++ t) h.grown ∙ sym (append_assoc k.added h.added u.trace);
      all = All-append P k.added h.added k.all h.all;
    };
  }

pub Frame-IsPreorder : IsPreorder Frame
Frame-IsPreorder = record {
  reflexive = λ w. record { same_cmd = refl; same_next = refl; same_drained = refl };
  transitive = λ u v w h k. record {
    same_cmd = k.same_cmd ∙ h.same_cmd;
    same_next = k.same_next ∙ h.same_next;
    same_drained = k.same_drained ∙ h.same_drained;
  };
}

pub Extends-of_Adds : {P : Event → Type 0} {w v : World} → Adds P w v → Extends P w v
Extends-of_Adds h = record {
  added = h.added;
  grown = ap (λ (x : World). x.trace) h.grown;
  all = h.all;
}

pub Frame-of_Adds : {P : Event → Type 0} {w v : World} → Adds P w v → Frame w v
Frame-of_Adds h = record {
  same_cmd = ap (λ (x : World). x.mysql_cmd) h.grown;
  same_next = ap (λ (x : World). x.next_chan) h.grown;
  same_drained = ap (λ (x : World). x.drained) h.grown;
}
