-- ===== src/Fakes/Refined.antt =====
-- Every method of a fake does what its history says.
use mariadb_ctrl.Prelude.{
  ℕ, String, ◌≡◌, refl, sym, subst, ◌∙◌, ap, List, [], ◌∷◌, ◌++◌, Option, none, some, length,
  nat_eq, if◌then◌else◌, arith,
}
use mariadb_ctrl.Fakes.Table.{at, assign}
use mariadb_ctrl.Fakes.Method.{
  Value, Method, Procedure, Slot, new_method, new_procedure, answered, entered, double, run_stub,
  procedure_entered, dummy, procedure_args_for_call, args_for_call, get_elem?,
}
use mariadb_ctrl.Fakes.History.{
  Op, called, stubbed, returning, returning_on_call, elsewhere, stub_of, arguments, default_of,
  chosen, ProcedureOp, ran, stubbed_by, beside, last_stub, ran_with, effect, run_plain,
  BehavesPlainly, specific_of, run, Behaves, IsLawful,
}

pub at-assign :
    {R : Type 0} (m : List (ℕ × R)) (i n : ℕ) (r : R)
    → at nat_eq (assign nat_eq i r m) n ≡ (if nat_eq i n then some r else at nat_eq m n)
unfolding at assign
at-assign [] i n r = refl
at-assign ((j, q) ∷ m) i n r = ground (arith, at-assign m i n r)

-- The code answers as the history says, when its fields hold what the history says.
answered-chosen :
    {S A R : Type 0} {f g : Option (A → S → R × S)} {p q : Option R} {r t : R} (a : A) (s : S)
    → f ≡ g
    → p ≡ q
    → r ≡ t
    → answered f p r a s ≡ chosen g q t a s
unfolding answered
answered-chosen {g = some stub} {q = q} a s e x y = rw e refl
answered-chosen {g = none} {q = some specific} a s e x y = rw (e, x) refl
answered-chosen {g = none} {q = none} a s e x y = rw (e, x, y) refl

module _ {F S A R : Type 0} {slot : Slot F (Method S A R)} where
  -- The fields of the method hold what the history says.
  record Agrees (z : R) (h : List (Op slot)) (m : Method S A R) : Type 0 where
    stub : m.stub ≡ stub_of h
    args : m.args ≡ arguments h
    returned : m.returned ≡ default_of z h
    on_call : (n : ℕ) → at nat_eq m.on_call n ≡ specific_of h n

  module _ (key : String) (values : A → List Value) (note : String → List Value → F → F)
      (lawful : IsLawful slot note) where
    entered_get :
        (a : A) (f : F)
        → slot.get (entered slot key values note a f)
          ≡ record (slot.get f) { args = (slot.get f).args ++ a ∷ [] }
    unfolding entered
    entered_get a f = lawful.get-note key (values a) _ ∙ lawful.get-put _ f

    run-Agrees :
        (z : R) (f : F) (s : S)
        → slot.get f ≡ new_method z
        → (h : List (Op slot))
        → Agrees z h (slot.get (run (double slot key values note) h (f, s)).0)
    unfolding double new_method
    run-Agrees z f s fresh [] =
        subst (Agrees z []) (sym fresh)
          (record { stub = refl; args = refl; returned = refl; on_call = λ n. refl })
    run-Agrees z f s fresh (called a ∷ h) =
        let ih = run-Agrees z f s fresh h in
        subst (Agrees z (called a ∷ h)) (sym (entered_get a _)) (record {
          stub = ih.stub;
          args = ap (λ xs. xs ++ a ∷ []) ih.args;
          returned = ih.returned;
          on_call = ih.on_call;
        })
    run-Agrees z f s fresh (stubbed stub ∷ h) =
        let ih = run-Agrees z f s fresh h in
        subst (Agrees z (stubbed stub ∷ h)) (sym (lawful.get-put _ _))
          (record { stub = refl; args = ih.args; returned = ih.returned; on_call = ih.on_call })
    run-Agrees z f s fresh (returning r ∷ h) =
        let ih = run-Agrees z f s fresh h in
        subst (Agrees z (returning r ∷ h)) (sym (lawful.get-put _ _))
          (record { stub = refl; args = ih.args; returned = refl; on_call = ih.on_call })
    run-Agrees z f s fresh (returning_on_call i r ∷ h) =
        let ih = run-Agrees z f s fresh h in
        subst (Agrees z (returning_on_call i r ∷ h)) (sym (lawful.get-put _ _)) (record {
          stub = refl;
          args = ih.args;
          returned = ih.returned;
          on_call =
              λ n. at-assign _ i n r ∙ ap (λ o. if nat_eq i n then some r else o) (ih.on_call n);
        })
    run-Agrees z f s fresh (elsewhere g keeps ∷ h) =
        let state = run (double slot key values note) h (f, s) in
        let ih = run-Agrees z f s fresh h in
        subst (Agrees z (elsewhere g keeps ∷ h)) (sym (keeps state.0 state.1))
          (record { stub = ih.stub; args = ih.args; returned = ih.returned; on_call = ih.on_call })

    answering-Behaves :
        (z : R) (f : F) (s : S)
        → slot.get f ≡ new_method z
        → (h : List (Op slot))
        → let d = double slot key values note in Behaves d z h (run d h (f, s))
    unfolding double args_for_call
    answering-Behaves z f s fresh h =
        let state = run (double slot key values note) h (f, s) in
        let now = run-Agrees z f s fresh h in
        record {
          answers = λ a.
              let called_once = run-Agrees z f s fresh (called a ∷ h) in
              answered-chosen a state.1 called_once.stub
                (ap (λ xs. at nat_eq (slot.get state.0).on_call (length xs)) now.args
                  ∙ now.on_call (length (arguments h)))
                called_once.returned;
          counts = ap length now.args;
          keeps = λ i. ap (λ xs. get_elem? xs i) now.args;
        }

module _ {F S A : Type 0} {slot : Slot F (Procedure S A)} where
  -- The fields of the method without results hold what the history says.
  record Holds (h : List (ProcedureOp slot)) (m : Procedure S A) : Type 0 where
    stub : m.stub ≡ last_stub h
    args : m.args ≡ ran_with h

  module _ (key : String) (values : A → List Value) (note : String → List Value → F → F)
      (lawful : IsLawful slot note) where
    procedure_entered_get :
        (a : A) (f : F)
        → slot.get (procedure_entered slot key values note a f)
          ≡ record (slot.get f) { args = (slot.get f).args ++ a ∷ [] }
    unfolding procedure_entered
    procedure_entered_get a f = lawful.get-note key (values a) _ ∙ lawful.get-put _ f

    run_plain-Holds :
        (f : F) (s : S)
        → slot.get f ≡ new_procedure
        → (h : List (ProcedureOp slot))
        → Holds h (slot.get (run_plain (dummy slot key values note) h (f, s)).0)
    unfolding dummy new_procedure
    run_plain-Holds f s fresh [] =
        subst (Holds []) (sym fresh) (record { stub = refl; args = refl })
    run_plain-Holds f s fresh (ran a ∷ h) =
        let ih = run_plain-Holds f s fresh h in
        subst (Holds (ran a ∷ h)) (sym (procedure_entered_get a _))
          (record { stub = ih.stub; args = ap (λ xs. xs ++ a ∷ []) ih.args })
    run_plain-Holds f s fresh (stubbed_by stub ∷ h) =
        let ih = run_plain-Holds f s fresh h in
        subst (Holds (stubbed_by stub ∷ h)) (sym (lawful.get-put _ _))
          (record { stub = refl; args = ih.args })
    run_plain-Holds f s fresh (beside g keeps ∷ h) =
        let state = run_plain (dummy slot key values note) h (f, s) in
        let ih = run_plain-Holds f s fresh h in
        subst (Holds (beside g keeps ∷ h)) (sym (keeps state.0 state.1))
          (record { stub = ih.stub; args = ih.args })

    run_stub-effect :
        (f g : Option (A → S → S)) (a : A) (s : S) → f ≡ g → run_stub f a s ≡ effect g a s
    unfolding run_stub
    run_stub-effect f none a s e = rw e refl
    run_stub-effect f (some stub) a s e = rw e refl

    acting-Behaves :
        (f : F) (s : S)
        → slot.get f ≡ new_procedure
        → (h : List (ProcedureOp slot))
        → let d = dummy slot key values note in BehavesPlainly d h (run_plain d h (f, s))
    unfolding dummy procedure_args_for_call
    acting-Behaves f s fresh h =
        let state = run_plain (dummy slot key values note) h (f, s) in
        let now = run_plain-Holds f s fresh h in
        record {
          acts = λ a. run_stub-effect _ _ a state.1 (run_plain-Holds f s fresh (ran a ∷ h)).stub;
          counts = ap length now.args;
          keeps = λ i. ap (λ xs. get_elem? xs i) now.args;
        }

module _ {F S A B R : Type 0} {slot : Slot F (Method S A R)} {plain : Slot F (Procedure S B)}
    (note : String → List Value → F → F) (lawful : IsLawful slot note)
    (plain_lawful : IsLawful plain note) where
  -- Two methods of a new fake, one with results and one without, whatever is done to the fake and in
  -- whatever order, with anything between that leaves the fields of the method alone. The one with
  -- results answers the next call with the stub that was set last, unless results were set after it, else
  -- with the results set last for the call of this number, else with those set last for all calls, else
  -- with zero values. The one without results runs the stub that was set last, or does nothing to the
  -- state of the test when there is none. The call count of each is the number of its calls, and the
  -- arguments of each call are given back by the call's number and by no other.
  pub double-Behaves :
      (key plain_key : String) (values : A → List Value) (plain_values : B → List Value) (z : R)
      (f : F) (s : S)
      → slot.get f ≡ new_method z
      → plain.get f ≡ new_procedure
      → (h : List (Op slot)) (k : List (ProcedureOp plain))
      → let d = double slot key values note in
        let e = dummy plain plain_key plain_values note in
        Behaves d z h (run d h (f, s)) × BehavesPlainly e k (run_plain e k (f, s))
  double-Behaves key plain_key values plain_values z f s fresh plain_fresh h k = (
    answering-Behaves key values note lawful z f s fresh h,
    acting-Behaves plain_key plain_values note plain_lawful f s plain_fresh k,
  )
