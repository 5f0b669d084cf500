-- ===== src/Main/Signalling/Waiting.antt =====
-- start_manager/node_starter/starter.go: while the database is waited for and seeded, mysqld is alive, and
-- nothing that belongs to the supervision is done.
use mariadb_ctrl.Prelude.{
  ℕ, zero, suc, String, ◌≡◌, refl, if◌then◌else◌, Bool, true, false, Option, none, some,
}
use mariadb_ctrl.Go.Error.{Error}
use mariadb_ctrl.Go.World.{
  World, Event, Chan, started, received, slept, polled, served, cancelled, signalled,
}
use mariadb_ctrl.Go.Action.{Go, pure, fail, ◌>>=◌, ◌>>◌}
use mariadb_ctrl.Go.Channel.{poll, is_drained}
use mariadb_ctrl.Go.Logic.{Has}
use mariadb_ctrl.Go.Relations.{Extends}
use mariadb_ctrl.Go.Safe.{ExtendsOnly, Extends-logged, Safe, Safe-bind}
use mariadb_ctrl.Go.Quiet.{sleep-Quiet}
use mariadb_ctrl.Env.{Env}
use mariadb_ctrl.Config.{Config}
use mariadb_ctrl.OsHelper.{sleep}
use mariadb_ctrl.DbHelper.Confined.{IsQuiet, new_db_helper-IsQuiet}
use mariadb_ctrl.DbHelper.Operations.{Passive}
use mariadb_ctrl.Starter.{mysqld_exited, require_chan, wait_for_database, start_node_from_state}
use mariadb_ctrl.Main.Extending.{IsQuietCall, new_db_helper-Passive-Extends}
use mariadb_ctrl.Main.Preparing.{db, checker}
use mariadb_ctrl.Main.Signalling.{IsEarly, IsStill, Live, Extends-Live, Live-Extends, live_then}
use mariadb_ctrl.Main.Signalling.Starting.{IsLaunchedAs, launch_Safe, Early-step}

IsStill-quiet : (e : Event) → IsQuietCall e → IsStill e
IsStill-quiet (started exe args r) h = h
IsStill-quiet (received ref x) h = h
IsStill-quiet served h = h
IsStill-quiet cancelled h = h
IsStill-quiet (signalled pid s x) h = h
IsStill-quiet _ h = tt

sleep-Still : (d : ℕ) → Has (ExtendsOnly IsStill) (sleep d)
unfolding sleep
sleep-Still d = record { holds = record { at = λ u. Extends-logged (slept d) tt u } }

module _ (env : Env) (cfg : Config) (fuel : ℕ) (w : World) where
  abbrev I : World → Type 0
  I v = Extends IsEarly w v

  passive : Passive (ExtendsOnly IsStill) (db env cfg fuel)
  passive = new_db_helper-Passive-Extends IsStill-quiet env cfg.db cfg.log_file_location

  quiet : IsQuiet (db env cfg fuel)
  quiet = new_db_helper-IsQuiet env cfg.db cfg.log_file_location

  -- what `select { case <-mysqldChan: ...; default: }` says
  abbrev IsGoing : Chan → Bool → World → Type 0
  IsGoing ch exited v = elim exited [ true ↦ I v | false ↦ Live w ch v ]

  poll_cases :
      (ch : Chan) (u : World) (d : Bool) (r : Option (Option Error))
      → is_drained ch u ≡ d
      → env.poll_exit u.trace ch.cmd ≡ r
      → Live w ch u
      → Safe I (IsGoing ch) (poll env ch u)
  unfolding poll
  poll_cases ch u true r p q h =
      rw p (Live-Extends w ch u _ (Extends-logged (polled ch.ref) tt u) refl h)
  poll_cases ch u false none p q h =
      rw (p, q) (Live-Extends w ch u _ (Extends-logged (polled ch.ref) tt u) refl h)
  poll_cases ch u false (some e) p q h =
      rw (p, q) (Early-step w u _ (received ch.ref e) tt refl (Extends-Live w ch u h))

  abbrev waiting : ℕ → Chan → Go Unit
  waiting = wait_for_database env cfg.manager (db env cfg fuel) (checker env cfg fuel)

  abbrev StillLive : {A : Type 0} → Chan → A → World → Type 0
  StillLive ch a v = Live w ch v

  -- one more round, or the end of the rounds
  reached_Safe :
      (ch : Chan) (again : Go Unit) (reachable : Bool) (u : World)
      → Live w ch u
      → ((v : World) → Live w ch v → Safe I (StillLive ch) (again v))
      → Safe I (StillLive ch) ((if reachable then pure tt else again) u)
  unfolding pure
  reached_Safe ch again true u h rest = h
  reached_Safe ch again false u h rest = rest u h

  polled_Safe :
      (ch : Chan) (more : Go Unit) (exited : Bool) (u : World)
      → IsGoing ch exited u
      → ((v : World) → Live w ch v → Safe I (StillLive ch) (more v))
      → Safe I (StillLive ch) ((if exited then fail mysqld_exited else more) u)
  unfolding fail
  polled_Safe ch more true u h rest = h
  polled_Safe ch more false u h rest = rest u h

  -- While the database is waited for, mysqld stays alive.
  wait_Safe : (n : ℕ) (ch : Chan) (u : World) → Live w ch u → Safe I (StillLive ch) (waiting n ch u)
  unfolding wait_for_database
  wait_Safe zero ch u h = Extends-Live w ch u h
  wait_Safe (suc n) ch u h =
      Safe-bind I (IsGoing ch) (StillLive ch) _ _ u (poll_cases ch u _ _ refl refl h)
        λ exited u1 h1. polled_Safe ch _ exited u1 h1 λ u2 h2.
          live_then w ch (StillLive ch) _ _ passive.is_database_reachable
            quiet.is_database_reachable u2 h2
            λ reachable u3 h3. reached_Safe ch _ reachable u3 h3 λ u4 h4.
              live_then w ch (StillLive ch) _ _ (sleep-Still _) (sleep-Quiet _) u4 h4
                λ _ u5 h5. wait_Safe n ch u5 h5

  -- what is known when `StartNodeFromState` returns
  abbrev pub Ready : String × Chan → World → Type 0
  Ready r v = Live w r.1 v

  -- from the wait on
  abbrev rest : String → Chan → Go (String × Chan)
  rest n ch = do
    waiting fuel ch
    (db env cfg fuel).seed
    (db env cfg fuel).seed_users
    (db env cfg fuel).run_post_start_sql
    pure (n, ch)

  rest_Safe : (n : String) (ch : Chan) (u : World) → Live w ch u → Safe I Ready (rest n ch u)
  unfolding pure
  rest_Safe n ch u h = Safe-bind I (StillLive ch) Ready _ _ u (wait_Safe fuel ch u h) λ _ u1 h1.
      live_then w ch Ready _ _ passive.seed quiet.seed u1 h1 λ _ u2 h2.
        live_then w ch Ready _ _ passive.seed_users quiet.seed_users u2 h2 λ _ u3 h3.
          live_then w ch Ready (db env cfg fuel).run_post_start_sql _ passive.run_post_start_sql
            quiet.run_post_start_sql u3 h3 (λ _ u4 h4. h4)

  after_launch_Safe :
      (r : String × Option Chan) (u : World)
      → IsLaunchedAs env cfg fuel w r u
      → Safe I Ready ((do ch ← require_chan r.1; rest r.0 ch) u)
  unfolding ◌>>=◌
  after_launch_Safe (n, none) u h = absurd h
  after_launch_Safe (n, some ch) u h = rest_Safe n ch u h

  -- Wherever `StartNodeFromState` stops, nothing of the supervision has been done, and if it returns,
  -- mysqld is alive.
  pub start_node_Safe :
      (state : String) (u : World)
      → Extends IsEarly w u
      → Safe (Extends IsEarly w) Ready (
          start_node_from_state env cfg.manager
            (db env cfg fuel)
            (checker env cfg fuel)
            fuel
            state
            u)
  unfolding start_node_from_state
  start_node_Safe state u x =
      Safe-bind I (IsLaunchedAs env cfg fuel w) Ready _ _ u (launch_Safe env cfg fuel w state u x)
        after_launch_Safe
