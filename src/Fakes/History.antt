-- ===== src/Fakes/History.antt =====
-- What a method of a fake promises: its answers as a function of the history of the fake alone,
-- newest first, with whatever happens to other methods in between.
use mariadb_ctrl.Prelude.{
  ℕ, String, ◌≡◌, List, [], ◌∷◌, ◌++◌, Option, none, some, length, nat_eq, if◌then◌else◌,
}
use mariadb_ctrl.Fakes.Method.{
  Value, Method, Procedure, Slot, Double, Dummy, get_elem?, args_for_call, procedure_args_for_call,
}

-- The stub answers if one is in force, and only it touches the state of the test; else the results
-- for the call of this number answer, if there are some, and else those for all calls.
abbrev pub chosen : {S A R : Type 0} → Option (A → S → R × S) → Option R → R → A → S → R × S
chosen (some stub) specific r a s = stub a s
chosen none (some specific) r a s = (specific, s)
chosen none none r a s = (r, s)

-- The stub that was set last does its work on the state of the test; without one nothing happens.
abbrev pub effect : {S A : Type 0} → Option (A → S → S) → A → S → S
effect (some stub) a s = stub a s
effect none a s = s

module _ {F S A R : Type 0} where
  -- `elsewhere` is anything that leaves the fields of the method alone.
  pub data Op (slot : Slot F (Method S A R)) : Type 0 where
    called : A → Op slot
    stubbed : Option (A → S → R × S) → Op slot
    returning : R → Op slot
    returning_on_call : ℕ → R → Op slot
    elsewhere : (g : F → S → F × S) → ((f : F) (s : S) → slot.get (g f s).0 ≡ slot.get f) → Op slot

  module _ {slot : Slot F (Method S A R)} where
    -- The stub that is in force: that of the last `Calls`, if neither `Returns` nor `ReturnsOnCall`
    -- came later.
    abbrev pub stub_of : List (Op slot) → Option (A → S → R × S)
    stub_of [] = none
    stub_of (called a ∷ h) = stub_of h
    stub_of (stubbed f ∷ h) = f
    stub_of (returning r ∷ h) = none
    stub_of (returning_on_call i r ∷ h) = none
    stub_of (elsewhere g keeps ∷ h) = stub_of h

    abbrev pub arguments : List (Op slot) → List A
    arguments [] = []
    arguments (called a ∷ h) = arguments h ++ a ∷ []
    arguments (stubbed f ∷ h) = arguments h
    arguments (returning r ∷ h) = arguments h
    arguments (returning_on_call i r ∷ h) = arguments h
    arguments (elsewhere g keeps ∷ h) = arguments h

    -- The results that were set for all calls.
    abbrev pub default_of : R → List (Op slot) → R
    default_of z [] = z
    default_of z (called a ∷ h) = default_of z h
    default_of z (stubbed f ∷ h) = default_of z h
    default_of z (returning r ∷ h) = r
    default_of z (returning_on_call i r ∷ h) = default_of z h
    default_of z (elsewhere g keeps ∷ h) = default_of z h

    -- The results that were set for the call with this number.
    abbrev pub specific_of : List (Op slot) → ℕ → Option R
    specific_of [] n = none
    specific_of (called a ∷ h) n = specific_of h n
    specific_of (stubbed f ∷ h) n = specific_of h n
    specific_of (returning r ∷ h) n = specific_of h n
    specific_of (returning_on_call i r ∷ h) n = if nat_eq i n then some r else specific_of h n
    specific_of (elsewhere g keeps ∷ h) n = specific_of h n

    abbrev pub answer_of : R → List (Op slot) → A → S → R × S
    answer_of z h = chosen (stub_of h) (specific_of h (length (arguments h))) (default_of z h)

    module _ (d : Double F S A R) where
      abbrev pub perform : Op slot → F × S → F × S
      perform (called a) (f, s) = ((d.call a f s).1, (d.call a f s).2)
      perform (stubbed stub) (f, s) = (d.calls stub f, s)
      perform (returning r) (f, s) = (d.returns r f, s)
      perform (returning_on_call i r) (f, s) = (d.returns_on_call i r f, s)
      perform (elsewhere g keeps) (f, s) = g f s

      abbrev pub run : List (Op slot) → F × S → F × S
      run [] state = state
      run (o ∷ h) state = perform o (run h state)

      -- In the state after the history `h`, the fake answers a call as the history says, counts
      -- the calls and gives back the arguments of each.
      pub record Behaves (z : R) (h : List (Op slot)) (state : F × S) : Type 0 where
        pub answers :
            (a : A)
            → ((d.call a state.0 state.1).0, (d.call a state.0 state.1).2) ≡ answer_of z h a state.1
        pub counts : d.call_count state.0 ≡ length (arguments h)
        pub keeps : (i : ℕ) → args_for_call slot i state.0 ≡ get_elem? (arguments h) i

-- The same of a method without results.
module _ {F S A : Type 0} where
  pub data ProcedureOp (slot : Slot F (Procedure S A)) : Type 0 where
    ran : A → ProcedureOp slot
    stubbed_by : Option (A → S → S) → ProcedureOp slot
    beside :
        (g : F → S → F × S) → ((f : F) (s : S) → slot.get (g f s).0 ≡ slot.get f) → ProcedureOp slot

  module _ {slot : Slot F (Procedure S A)} where
    abbrev pub last_stub : List (ProcedureOp slot) → Option (A → S → S)
    last_stub [] = none
    last_stub (ran a ∷ h) = last_stub h
    last_stub (stubbed_by stub ∷ h) = stub
    last_stub (beside g keeps ∷ h) = last_stub h

    abbrev pub ran_with : List (ProcedureOp slot) → List A
    ran_with [] = []
    ran_with (ran a ∷ h) = ran_with h ++ a ∷ []
    ran_with (stubbed_by stub ∷ h) = ran_with h
    ran_with (beside g keeps ∷ h) = ran_with h

    module _ (d : Dummy F S A) where
      abbrev pub perform_plain : ProcedureOp slot → F × S → F × S
      perform_plain (ran a) (f, s) = d.call a f s
      perform_plain (stubbed_by stub) (f, s) = (d.calls stub f, s)
      perform_plain (beside g keeps) (f, s) = g f s

      abbrev pub run_plain : List (ProcedureOp slot) → F × S → F × S
      run_plain [] state = state
      run_plain (o ∷ h) state = perform_plain o (run_plain h state)

      pub record BehavesPlainly (h : List (ProcedureOp slot)) (state : F × S) : Type 0 where
        pub acts : (a : A) → (d.call a state.0 state.1).1 ≡ effect (last_stub h) a state.1
        pub counts : d.call_count state.0 ≡ length (ran_with h)
        pub keeps : (i : ℕ) → procedure_args_for_call slot i state.0 ≡ get_elem? (ran_with h) i

-- The fields of the method are fields, and recording an invocation leaves them alone.
pub record IsLawful {F M : Type 0} (slot : Slot F M) (note : String → List Value → F → F)
    : Type 0 where
  pub get-put : (m : M) (f : F) → slot.get (slot.put m f) ≡ m
  pub get-note : (k : String) (args : List Value) (f : F) → slot.get (note k args f) ≡ slot.get f
