-- ===== src/DbHelper/Connections.antt =====
-- db_helper/db_helper.go: `OpenDBConnection` and `CloseDBConnection`, counted in the trace.
use mariadb_ctrl.Prelude.{ℕ, ◌+◌, String, ◌≡◌, List, [], ◌∷◌, Option, none, some, arith}
use mariadb_ctrl.Go.Error.{Error, Result}
use mariadb_ctrl.Go.World.{World, Event, Trace, started, opened_db, closed_db}
use mariadb_ctrl.Go.Action.{
  Outcome, returned, failed, panicked, blocked, Go, final, logged, check, deferring, finished,
  ◌>>=◌, continue,
}
use mariadb_ctrl.Go.Rules.{
  IsPreorder, Moves, Moves-pure, Moves-fail, Moves-panic, Moves-bind, Moves-attempt, Moves-call,
}
use mariadb_ctrl.Go.Logic.{Logic, Has}
use mariadb_ctrl.Go.Ends.{IsEnd, Ends, Ends-Logic}
use mariadb_ctrl.Env.{Env}
use mariadb_ctrl.Config.{DbHelperConfig}
use mariadb_ctrl.DbHelper.Sql.{with_connection, format_dsn}
use mariadb_ctrl.DbHelper.Calls.{StartsWith, IsInnerCall}
use mariadb_ctrl.DbHelper.Operations.{Every, new_db_helper-Every}
use mariadb_ctrl.DbHelper.Confined.{connection-Ends}
use mariadb_ctrl.DbHelper.Galera.{new_db_helper}

abbrev pub opening : Event → ℕ
opening (opened_db dsn none) = 1
opening _ = 0

abbrev pub closing : Event → ℕ
closing closed_db = 1
closing _ = 0

-- how many connections were opened, and how many closed
abbrev pub opens : Trace → ℕ
opens [] = 0
opens (e ∷ t) = opening e + opens t

abbrev pub closes : Trace → ℕ
closes [] = 0
closes (e ∷ t) = closing e + closes t

-- As many connections were opened as closed on the way from one world to the other.
abbrev pub Balanced : World → World → Type 0
Balanced w v = opens v.trace + closes w.trace ≡ opens w.trace + closes v.trace

Balanced-IsPreorder : IsPreorder Balanced
Balanced-IsPreorder = record { reflexive = λ w. omega arith; transitive = λ u v w h k. omega arith }

-- The action ends, and has closed what it opened.
pub record Closes (A : Type 0) (m : Go A) : Type 0 where
  pub ends : Ends A m
  pub balanced : Moves Balanced m

inner_call_is_neutral : (e : Event) → IsInnerCall e → (w : World) → Balanced w (logged e w)
inner_call_is_neutral (opened_db dsn x) h w = absurd h
inner_call_is_neutral closed_db h w = absurd h
inner_call_is_neutral _ h w = omega arith

start_is_neutral :
    (exe : String) (args : List String) (r : Result ℕ) (w : World)
    → Balanced w (logged (started exe args r) w)
start_is_neutral exe args r w = omega arith

Closes-Logic : Logic Closes IsInnerCall
Closes-Logic = record {
  on_pure =
      λ A a. record { ends = Ends-Logic.on_pure A a; balanced = Moves-pure Balanced-IsPreorder a };
  on_fail =
      λ A e. record { ends = Ends-Logic.on_fail A e; balanced = Moves-fail Balanced-IsPreorder e };
  on_panic = λ A e. record {
    ends = Ends-Logic.on_panic A e;
    balanced = Moves-panic Balanced-IsPreorder e;
  };
  on_bind = λ A B m f p q. record {
    ends = Ends-Logic.on_bind A B m f p.ends (λ a. (q a).ends);
    balanced = Moves-bind Balanced-IsPreorder m f p.balanced (λ a. (q a).balanced);
  };
  on_attempt = λ A m p. record {
    ends = Ends-Logic.on_attempt A m p.ends;
    balanced = Moves-attempt m p.balanced;
  };
  on_call = λ A answer event p. record {
    ends = λ w. Ends-Logic.on_call A answer event (λ a. tt) w;
    balanced = Moves-call answer event (λ w a. inner_call_is_neutral (event a) (p a) w);
  };
}

module _ {A : Type 0} (dsn : String) where
  -- the body has run between the opening and the closing
  around :
      (w : World) (r : Outcome A)
      → IsEnd r
      → Balanced (logged (opened_db dsn none) w) (final r)
      → Balanced w (final (finished closed_db r))
  around w (returned a v) e h = omega arith
  around w (failed x v) e h = omega arith
  around w (panicked x v) e h = omega arith
  around w (blocked v) e h = absurd e

  -- the opening, with its answer, and the rest
  opened_then :
      (m : Go A)
      → Closes A m
      → (x : Option Error) (w : World)
      → Balanced w
          (final (continue (check x (logged (opened_db dsn x) w)) (λ _. deferring closed_db m)))
  unfolding ◌>>=◌ check deferring
  opened_then m p none w = around w (m (logged (opened_db dsn none) w)) (p.ends _) (p.balanced.at _)
  opened_then m p (some x) w = omega arith

module _ (env : Env) where
  connection_is_closed :
      (A : Type 0) (config : DbHelperConfig) (m : Go A)
      → Has Closes m
      → Has Closes (with_connection env config m)
  unfolding with_connection ◌>>=◌
  connection_is_closed A config m p = record {
    holds = record {
      ends = (connection-Ends env A config m (record { holds = p.holds.ends })).holds;
      balanced = record {
        at = λ w.
            let dsn = format_dsn env config in
            opened_then dsn m p.holds (env.sql_open w.trace dsn) w;
      };
    };
  }

  -- However an operation of `GaleraDBHelper` ends, and it does end, it has closed as many handles
  -- of the database as it has opened.
  pub new_db_helper-Closes :
      (config : DbHelperConfig) (log : String) → Every Closes (new_db_helper env config log)
  new_db_helper-Closes =
      new_db_helper-Every Closes-Logic env connection_is_closed (starts _) (starts _) (starts _)
    where
      starts : (args : List String) → StartsWith Closes env "mysqld" args
      starts args = record {
        holds = record {
          ends = Ends-Logic.on_call _ _ _ (λ a. tt);
          balanced = Moves-call _ _ (λ w r. start_is_neutral "mysqld" args r w);
        };
      }
