-- ===== src/Fakes/Method.antt =====
-- One method of a fake, as counterfeiter generates it for every method of every interface: the
-- fields of the struct that belong to the method and the functions over them. `S` is the state that
-- the closures of a test share. A fake's locks make each function one step, except for the call of
-- a stub, which happens after the lock is given up.
use mariadb_ctrl.Prelude.{
  ℕ, zero, suc, String, ◌==◌, List, [], ◌∷◌, ◌++◌, Option, none, some, length, nat_eq,
}
use mariadb_ctrl.Go.World.{Cmd}
use mariadb_ctrl.Fakes.Table.{at, assign, copy_into}

-- `interface{}`, of the types that the methods take. A duration and a signal are numbers, and so is
-- the identity of a context.
pub data Value : Type 0 where
  text : String → Value
  texts : List String → Value
  command : Option Cmd → Value
  signal : ℕ → Value
  duration : ℕ → Value
  context : ℕ → Value

-- `map[string][][]interface{}`
abbrev pub Invocations : Type 0
Invocations = List (String × List (List Value))

abbrev pub or_empty : Option (List (List Value)) → List (List Value)
or_empty none = []
or_empty (some calls) = calls

-- `recordInvocation`, over the map
unfoldable pub recorded : String → List Value → Invocations → Invocations
unfolding at assign
recorded key args m = assign ◌==◌ key (or_empty (at ◌==◌ m key) ++ args ∷ []) m

-- `Invocations`, over the map
unfoldable pub copied : Invocations → Invocations
unfolding copy_into
copied m = copy_into ◌==◌ [] m

-- The fields `XStub`, `xArgsForCall`, `xReturns` and `xReturnsOnCall` of the method `X`, with the
-- arguments of a call as one value of `A` and its results as one value of `R`.
pub record Method (S A R : Type 0) : Type 0 where
  pub stub : Option (A → S → R × S)
  pub args : List A
  pub returned : R
  pub on_call : List (ℕ × R)

-- The same of a method without results.
pub record Procedure (S A : Type 0) : Type 0 where
  pub stub : Option (A → S → S)
  pub args : List A

-- The fields of a struct that belong to a method.
pub record Slot (F M : Type 0) : Type 0 where
  pub get : F → M
  pub put : M → F → F

-- The functions `X`, `XCallCount`, `XCalls`, `XReturns` and `XReturnsOnCall` of a fake `F`.
pub record Double (F S A R : Type 0) : Type 0 where
  pub call : A → F → S → R × F × S
  pub call_count : F → ℕ
  pub calls : Option (A → S → R × S) → F → F
  pub returns : R → F → F
  pub returns_on_call : ℕ → R → F → F

-- The functions `X`, `XCallCount` and `XCalls` of a method without results.
pub record Dummy (F S A : Type 0) : Type 0 where
  pub call : A → F → S → F × S
  pub call_count : F → ℕ
  pub calls : Option (A → S → S) → F → F

-- `new(FakeX)`: every field has its zero value; `zero` is that of the results.
unfoldable pub new_method : {S A R : Type 0} → R → Method S A R
new_method r = record { stub = none; args = []; returned = r; on_call = [] }

unfoldable pub new_procedure : {S A : Type 0} → Procedure S A
new_procedure = record { stub = none; args = [] }

-- `xs[i]`; `none` is the panic of an index out of range
unfoldable pub get_elem? : {A : Type 0} → List A → ℕ → Option A
get_elem? [] i = none
get_elem? (x ∷ xs) zero = some x
get_elem? (x ∷ xs) (suc i) = get_elem? xs i

-- The stub before the result for this call before the result for all.
unfoldable pub answered : {S A R : Type 0} → Option (A → S → R × S) → Option R → R → A → S → R × S
answered (some f) specific r a s = f a s
answered none (some q) r a s = (q, s)
answered none none r a s = (r, s)

module _ {F S A R : Type 0} (slot : Slot F (Method S A R)) where
  -- `XArgsForCall`
  unfoldable pub args_for_call : ℕ → F → Option A
  unfolding get_elem?
  args_for_call i f = get_elem? (slot.get f).args i

  module _ (key : String) (values : A → List Value) (note : String → List Value → F → F) where
    -- What `X` does with its lock held: the arguments are kept, and the invocation is recorded.
    unfoldable pub entered : A → F → F
    entered a f =
        let m = slot.get f in
        note key (values a) (slot.put (record m { args = m.args ++ a ∷ [] }) f)

    -- The functions of the method `key`; `note` is `recordInvocation` of the fake.
    unfoldable pub double : Double F S A R
    unfolding at assign entered answered
    double = record {
      call = λ a f s.
          let specific = at nat_eq (slot.get f).on_call (length (slot.get f).args) in
          let m = slot.get (entered a f) in
          let r = answered m.stub specific m.returned a s in (r.0, entered a f, r.1);
      call_count = λ f. length (slot.get f).args;
      calls = λ stub f. slot.put (record (slot.get f) { stub = stub }) f;
      returns = λ r f. slot.put (record (slot.get f) { stub = none; returned = r }) f;
      returns_on_call = λ i r f.
          let m = slot.get f in
          slot.put (record m { stub = none; on_call = assign nat_eq i r m.on_call }) f;
    }

unfoldable pub run_stub : {S A : Type 0} → Option (A → S → S) → A → S → S
run_stub none a s = s
run_stub (some f) a s = f a s

module _ {F S A : Type 0} (slot : Slot F (Procedure S A)) where
  -- `XArgsForCall` of a method without results
  unfoldable pub procedure_args_for_call : ℕ → F → Option A
  unfolding get_elem?
  procedure_args_for_call i f = get_elem? (slot.get f).args i

  module _ (key : String) (values : A → List Value) (note : String → List Value → F → F) where
    unfoldable pub procedure_entered : A → F → F
    procedure_entered a f =
        let m = slot.get f in
        note key (values a) (slot.put (record m { args = m.args ++ a ∷ [] }) f)

    unfoldable pub dummy : Dummy F S A
    unfolding procedure_entered run_stub
    dummy = record {
      call = λ a f s. let f' = procedure_entered a f in (f', run_stub (slot.get f').stub a s);
      call_count = λ f. length (slot.get f).args;
      calls = λ stub f. slot.put (record (slot.get f) { stub = stub }) f;
    }
