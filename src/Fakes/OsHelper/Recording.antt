-- ===== src/Fakes/OsHelper/Recording.antt =====
-- `Invocations` of `FakeOsHelper`.
use mariadb_ctrl.Prelude.{
  ℕ, String, ◌==◌, ◌≡◌, refl, sym, subst, ◌∙◌, ap, Bool, List, arith, [], ◌∷◌, Option,
}
use mathlib.Core.List.{map, map-append}
use mariadb_ctrl.Go.Error.{Error}
use mariadb_ctrl.Go.World.{Cmd, Chan}
use mariadb_ctrl.Fakes.Table.{at}
use mariadb_ctrl.Fakes.Method.{
  Value, text, texts, command, signal, duration, Invocations, Method, Slot, or_empty, recorded,
  entered, double, procedure_entered,
}
use mariadb_ctrl.Fakes.Uses.{Use, DummyUse, perform, perform_dummy}
use mariadb_ctrl.Fakes.Copies.{IsUnique, Alike, assign-IsUnique, recorded-Alike, at-copied}
use mariadb_ctrl.Fakes.OsHelper.{
  FakeOsHelper, new_fake_os_helper, invocations, file_exists, kill_command, read_file, run_command,
  sleep, start_command, wait_for_command, write_string_to_file, record_invocation, file_exists_slot,
  kill_command_slot, read_file_slot, run_command_slot, start_command_slot, wait_for_command_slot,
  write_string_to_file_slot,
}

-- A use of the fake: of which method, and how.
pub data Op (S : Type 0) : Type 0 where
  on_file_exists : Use S String Bool → Op S
  on_kill_command : Use S (Option Cmd × ℕ) (Option Error) → Op S
  on_read_file : Use S String (String × Option Error) → Op S
  on_run_command : Use S (String × List String) (String × Option Error) → Op S
  on_sleep : DummyUse S ℕ → Op S
  on_start_command : Use S (String × String × List String) (Option Cmd × Option Error) → Op S
  on_wait_for_command : Use S (Option Cmd) (Option Chan) → Op S
  on_write_string_to_file : Use S (String × String) (Option Error) → Op S

module _ {S : Type 0} where
  abbrev step : Op S → FakeOsHelper S × S → FakeOsHelper S × S
  step (on_file_exists u) = perform file_exists u
  step (on_kill_command u) = perform kill_command u
  step (on_read_file u) = perform read_file u
  step (on_run_command u) = perform run_command u
  step (on_sleep u) = perform_dummy sleep u
  step (on_start_command u) = perform start_command u
  step (on_wait_for_command u) = perform wait_for_command u
  step (on_write_string_to_file u) = perform write_string_to_file u

  -- The newest use is the first.
  abbrev pub run : List (Op S) → FakeOsHelper S × S → FakeOsHelper S × S
  run [] state = state
  run (o ∷ h) state = step o (run h state)

  -- The arguments that the fields of the methods keep, under the names of the methods.
  abbrev pub kept_arguments : FakeOsHelper S → Invocations
  kept_arguments f =
      ("FileExists", map (λ a. text a ∷ []) f.file_exists.args)
      ∷ ("KillCommand", map (λ a. command a.0 ∷ signal a.1 ∷ []) f.kill_command.args)
      ∷ ("ReadFile", map (λ a. text a ∷ []) f.read_file.args)
      ∷ ("RunCommand", map (λ a. text a.0 ∷ texts a.1 ∷ []) f.run_command.args)
      ∷ ("Sleep", map (λ a. duration a ∷ []) f.sleep.args)
      ∷ ("StartCommand", map (λ a. text a.0 ∷ text a.1 ∷ texts a.2 ∷ []) f.start_command.args)
      ∷ ("WaitForCommand", map (λ a. command a ∷ []) f.wait_for_command.args)
      ∷ ("WriteStringToFile", map (λ a. text a.0 ∷ text a.1 ∷ []) f.write_string_to_file.args)
      ∷ []

  record IsRecorded (f : FakeOsHelper S) : Type 0 where
    unique : IsUnique f.invocations
    alike : Alike f.invocations (kept_arguments f)

  keep :
      {f g : FakeOsHelper S}
      → g.invocations ≡ f.invocations
      → kept_arguments g ≡ kept_arguments f
      → IsRecorded f
      → IsRecorded g
  keep {f} {g} same_invocations same_arguments c = record {
    unique = subst IsUnique (sym same_invocations) c.unique;
    alike = rw (same_invocations, same_arguments) c.alike;
  }

  enter :
      (key : String) (args : List Value) {f g : FakeOsHelper S}
      → g.invocations ≡ recorded key args f.invocations
      → kept_arguments g ≡ recorded key args (kept_arguments f)
      → IsRecorded f
      → IsRecorded g
  unfolding recorded
  enter key args {f} {g} more_invocations more_arguments c = record {
    unique = rw more_invocations (assign-IsUnique f.invocations key _ c.unique);
    alike =
        subst (λ m. Alike m (kept_arguments g)) (sym more_invocations)
          (subst (λ t. Alike (recorded key args f.invocations) t) (sym more_arguments)
            (recorded-Alike f.invocations (kept_arguments f) key args c.alike));
  }

  method-IsRecorded :
      {A R : Type 0} (slot : Slot (FakeOsHelper S) (Method S A R)) (key : String)
      (values : A → List Value)
      → ((m : Method S A R) (f : FakeOsHelper S)
          → m.args ≡ (slot.get f).args
          → IsRecorded f
          → IsRecorded (slot.put m f))
      → ((a : A) (f : FakeOsHelper S)
          → IsRecorded f
          → IsRecorded (entered slot key values record_invocation a f))
      → (u : Use S A R) (f : FakeOsHelper S) (s : S) → IsRecorded f
      → IsRecorded (perform (double slot key values record_invocation) u (f, s)).0
  unfolding double
  method-IsRecorded slot key values quiet enters (Use.called a) f s c = enters a f c
  method-IsRecorded slot key values quiet enters (Use.stubbed stub) f s c = quiet _ f refl c
  method-IsRecorded slot key values quiet enters (Use.returning r) f s c = quiet _ f refl c
  method-IsRecorded slot key values quiet enters (Use.returning_on_call i r) f s c =
      quiet _ f refl c

  step-IsRecorded :
      (o : Op S) (f : FakeOsHelper S) (s : S) → IsRecorded f → IsRecorded (step o (f, s)).0
  unfolding file_exists kill_command read_file run_command sleep start_command wait_for_command
      write_string_to_file entered procedure_entered record_invocation recorded at
  step-IsRecorded (on_file_exists u) f s c =
      method-IsRecorded file_exists_slot "FileExists" (λ a. text a ∷ []) (λ m f e. keep refl (rw e))
        (λ a f. enter "FileExists" (text a ∷ []) refl (simp map-append)) u f s c
  step-IsRecorded (on_kill_command u) f s c =
      method-IsRecorded kill_command_slot "KillCommand" (λ a. command a.0 ∷ signal a.1 ∷ [])
        (λ m f e. keep refl (rw e))
        (λ a f. enter "KillCommand" (command a.0 ∷ signal a.1 ∷ []) refl (simp map-append)) u f s c
  step-IsRecorded (on_read_file u) f s c =
      method-IsRecorded read_file_slot "ReadFile" (λ a. text a ∷ []) (λ m f e. keep refl (rw e))
        (λ a f. enter "ReadFile" (text a ∷ []) refl (simp map-append)) u f s c
  step-IsRecorded (on_run_command u) f s c =
      method-IsRecorded run_command_slot "RunCommand" (λ a. text a.0 ∷ texts a.1 ∷ [])
        (λ m f e. keep refl (rw e))
        (λ a f. enter "RunCommand" (text a.0 ∷ texts a.1 ∷ []) refl (simp map-append)) u f s c
  step-IsRecorded (on_start_command u) f s c =
      method-IsRecorded start_command_slot "StartCommand"
        (λ a. text a.0 ∷ text a.1 ∷ texts a.2 ∷ []) (λ m f e. keep refl (rw e))
        (λ a f. enter "StartCommand" (text a.0 ∷ text a.1 ∷ texts a.2 ∷ []) refl (simp map-append))
        u f s c
  step-IsRecorded (on_wait_for_command u) f s c =
      method-IsRecorded wait_for_command_slot "WaitForCommand" (λ a. command a ∷ [])
        (λ m f e. keep refl (rw e))
        (λ a f. enter "WaitForCommand" (command a ∷ []) refl (simp map-append)) u f s c
  step-IsRecorded (on_write_string_to_file u) f s c =
      method-IsRecorded write_string_to_file_slot "WriteStringToFile"
        (λ a. text a.0 ∷ text a.1 ∷ []) (λ m f e. keep refl (rw e))
        (λ a f. enter "WriteStringToFile" (text a.0 ∷ text a.1 ∷ []) refl (simp map-append)) u f s c
  step-IsRecorded (on_sleep (DummyUse.called a)) f s c =
      enter "Sleep" (duration a ∷ []) refl (simp map-append) c
  step-IsRecorded (on_sleep (DummyUse.stubbed stub)) f s c = keep refl refl c

  run-IsRecorded : (s : S) (h : List (Op S)) → IsRecorded (run h (new_fake_os_helper, s)).0
  unfolding new_fake_os_helper at
  run-IsRecorded s [] = record { unique = tt; alike = λ n. ground arith }
  run-IsRecorded s (o ∷ h) =
      let state = run h (new_fake_os_helper, s) in
      step-IsRecorded o state.0 state.1 (run-IsRecorded s h)

  -- Whatever a test does with a new fake of the OS helper, and in whatever order: `Invocations` holds
  -- under the name of each method the arguments of the calls of that method, in their order, and
  -- nothing under any other name.
  pub invocations-kept_arguments :
      (s : S) (h : List (Op S)) (name : String)
      → let f = (run h (new_fake_os_helper, s)).0 in
        or_empty (at ◌==◌ (invocations f) name) ≡ or_empty (at ◌==◌ (kept_arguments f) name)
  unfolding invocations
  invocations-kept_arguments s h name =
      let c = run-IsRecorded s h in ap or_empty (at-copied _ name c.unique) ∙ c.alike name
