-- ===== src/Tests/Doubles.antt =====
-- The theorems on fakes at concrete inputs.
use mariadb_ctrl.Prelude.{ℕ, ◌+◌, ◌==◌, ◌≡◌, refl, List, [], ◌∷◌, none, some}
use mariadb_ctrl.Go.Error.{no_rows}
use mariadb_ctrl.Fakes.Table.{at}
use mariadb_ctrl.Fakes.Method.{text, duration, or_empty, double, dummy, new_method, new_procedure}
use mariadb_ctrl.Fakes.Uses.{Use, DummyUse}
use mariadb_ctrl.Fakes.History.{
  Op, called, returning, returning_on_call, elsewhere, run, Behaves, ProcedureOp, ran, stubbed_by,
  run_plain, BehavesPlainly,
}
use mariadb_ctrl.Fakes.Lawful.{fake_os_helper-IsLawful}
use mariadb_ctrl.Fakes.Refined.{double-Behaves}
use mariadb_ctrl.Fakes.OsHelper.{
  FakeOsHelper, new_fake_os_helper, invocations, record_invocation, read_file_slot, sleep_slot,
  sleep,
}
use mariadb_ctrl.Fakes.OsHelper.Recording as Recording
use mariadb_ctrl.Fakes.OsHelper.Recording.{
  kept_arguments, on_read_file, on_sleep, invocations-kept_arguments,
}

-- A test that counts in `ℕ`.
abbrev new_fake : FakeOsHelper ℕ
new_fake = new_fake_os_helper

sleep-elsewhere : (f : FakeOsHelper ℕ) (s : ℕ) → (sleep.call 5 f s).0.read_file ≡ f.read_file
unfolding sleep record_invocation
sleep-elsewhere f s = refl

-- the newest first: an answer for all, one for the second call, a call, and a sleep
abbrev history : List (Op (read_file_slot {S = ℕ}))
history =
    elsewhere (sleep.call 5) sleep-elsewhere
    ∷ called "state"
    ∷ returning_on_call 1 ("", some no_rows)
    ∷ returning ("CLUSTERED", none)
    ∷ []

new-fresh : new_fake.read_file ≡ new_method ("", none)
unfolding new_fake_os_helper
new-fresh = refl

-- the newest first: a call, and a stub that adds the duration
abbrev sleeps : List (ProcedureOp (sleep_slot {S = ℕ}))
sleeps = ran 3 ∷ stubbed_by (some (λ d n. d + n)) ∷ []

new-still : new_fake.sleep ≡ new_procedure
unfolding new_fake_os_helper
new-still = refl

double-Behaves_example :
    let d = double (read_file_slot {S = ℕ}) "ReadFile" (λ a. text a ∷ []) record_invocation in
    let e = dummy (sleep_slot {S = ℕ}) "Sleep" (λ a. duration a ∷ []) record_invocation in
    Behaves d ("", none) history (run d history (new_fake, 0))
    × BehavesPlainly e sleeps (run_plain e sleeps (new_fake, 0))
double-Behaves_example =
    double-Behaves record_invocation (fake_os_helper-IsLawful {S = ℕ}).2
      (fake_os_helper-IsLawful {S = ℕ}).4 "ReadFile" "Sleep" (λ a. text a ∷ [])
      (λ a. duration a ∷ []) ("", none) new_fake 0 new-fresh new-still history sleeps

abbrev uses : List (Recording.Op ℕ)
uses = on_sleep (DummyUse.called 5) ∷ on_read_file (Use.called "state") ∷ []

invocations-kept_arguments_example :
    let f = (Recording.run uses (new_fake, 0)).0 in
    or_empty (at ◌==◌ (invocations f) "ReadFile") ≡ or_empty (at ◌==◌ (kept_arguments f) "ReadFile")
invocations-kept_arguments_example = invocations-kept_arguments 0 uses "ReadFile"
