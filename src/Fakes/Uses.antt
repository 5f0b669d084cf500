-- ===== src/Fakes/Uses.antt =====
-- The ways to use one method of a fake.
use mariadb_ctrl.Prelude.{ℕ, Option}
use mariadb_ctrl.Fakes.Method.{Double, Dummy}

pub data Use (S A R : Type 0) : Type 0 where
  called : A → Use S A R
  stubbed : Option (A → S → R × S) → Use S A R
  returning : R → Use S A R
  returning_on_call : ℕ → R → Use S A R

pub data DummyUse (S A : Type 0) : Type 0 where
  called : A → DummyUse S A
  stubbed : Option (A → S → S) → DummyUse S A

module _ {F S A : Type 0} where
  abbrev pub perform : {R : Type 0} → Double F S A R → Use S A R → F × S → F × S
  perform d (Use.called a) (f, s) = ((d.call a f s).1, (d.call a f s).2)
  perform d (Use.stubbed stub) (f, s) = (d.calls stub f, s)
  perform d (Use.returning r) (f, s) = (d.returns r f, s)
  perform d (Use.returning_on_call i r) (f, s) = (d.returns_on_call i r f, s)

  abbrev pub perform_dummy : Dummy F S A → DummyUse S A → F × S → F × S
  perform_dummy d (DummyUse.called a) (f, s) = d.call a f s
  perform_dummy d (DummyUse.stubbed stub) (f, s) = (d.calls stub f, s)
