-- ===== src/Main/Signalling/Starting.antt =====
-- start_manager/node_starter/starter.go: a mysqld that is launched is alive, and nothing that belongs to
-- the supervision has been done.
use mariadb_ctrl.Prelude.{
  ℕ, String, ◌≡◌, refl, ◌∙◌, ap, Bool, true, false, Option, none, some, List, ◌∷◌,
}
use mariadb_ctrl.Go.Error.{Error, Result, ok, err}
use mariadb_ctrl.Go.World.{
  World, Event, Cmd, Chan, opened_log, started, served, cancelled, signalled,
}
use mariadb_ctrl.Go.Action.{Go, logged, pure, fail, ◌>>=◌, ◌>>◌}
use mariadb_ctrl.Go.Logic.{Logic, Logic-restrict, on_attempt}
use mariadb_ctrl.Go.Relations.{Extends}
use mariadb_ctrl.Go.Safe.{ExtendsOnly, ExtendsOnly-Logic, Safe, Safe-bind, extending_then}
use mariadb_ctrl.Env.{Env}
use mariadb_ctrl.Config.{Config}
use mariadb_ctrl.OsHelper.{start_command, wait_for_command}
use mariadb_ctrl.DbHelper.Mysqld.{
  start_mysqld_in_join, start_mysqld_in_bootstrap, start_mysqld_as_child_process,
}
use mariadb_ctrl.DbHelper.Galera.{new_db_helper}
use mariadb_ctrl.Starter.{
  launch, bootstrap_node, join_cluster, set_mysql_cmd, clustered, single_node,
}
use mariadb_ctrl.Starter.Launching.{by_health, launch_cases}
use mariadb_ctrl.Starter.Calls.{
  IsLaunchCall, read_file_call, update_grastate_call, any_healthy_call,
}
use mariadb_ctrl.Main.Preparing.{db, checker}
use mariadb_ctrl.Main.Signalling.{IsEarly, Live, alive}

pub IsEarly-launch : (e : Event) → IsLaunchCall e → IsEarly e
IsEarly-launch served h = h
IsEarly-launch cancelled h = h
IsEarly-launch (signalled pid s x) h = h
IsEarly-launch _ h = tt

pub early_calls : Logic (ExtendsOnly IsEarly) IsLaunchCall
early_calls = Logic-restrict ExtendsOnly-Logic IsEarly-launch

pub Early-step :
    (w u v : World) (e : Event)
    → IsEarly e
    → v.trace ≡ e ∷ u.trace
    → Extends IsEarly w u
    → Extends IsEarly w v
Early-step w u v e p q x = record {
  added = e ∷ x.added;
  grown = q ∙ ap (λ t. e ∷ t) x.grown;
  all = (p, x.all);
}

module _ (env : Env) (cfg : Config) (fuel : ℕ) (w : World) where
  abbrev I : World → Type 0
  I v = Extends IsEarly w v

  -- The command has been started, and its process is alive.
  record Spawned (cmd : Cmd) (v : World) : Type 0 where
    pub pid : ℕ
    pub process : cmd.process ≡ some pid
    pub early : Extends IsEarly w v
    pub lives : alive early.added ≡ some pid

  started_cases :
      (exe : String) (args : List String) (log : String) (u : World) (o : Option Error)
      (r : Result ℕ)
      → env.open_log u.trace log ≡ o
      → env.start (opened_log log o ∷ u.trace) exe args ≡ r
      → I u
      → Safe I Spawned (start_command env log exe args u)
  unfolding start_command ◌>>=◌
  started_cases exe args log u (some e) r p q x =
      rw p (Early-step w u _ (opened_log log (some e)) tt refl x)
  started_cases exe args log u none (ok pid) p q x =
      rw (p, q)
        (record {
          pid = pid;
          process = refl;
          early = record {
            added = started exe args (ok pid) ∷ opened_log log none ∷ x.added;
            grown = ap (λ t. started exe args (ok pid) ∷ opened_log log none ∷ t) x.grown;
            all = (tt, (tt, x.all));
          };
          lives = refl;
        })
  started_cases exe args log u none (err e) p q x =
      rw (p, q)
        (Early-step w (logged (opened_log log none) u) _ (started exe args (err e)) tt refl
          (Early-step w u _ (opened_log log none) tt refl x))

  abbrev pub IsLaunched : Option Chan → World → Type 0
  IsLaunched none v = ⊥
  IsLaunched (some ch) v = Live w ch v

  -- the command is kept and waited for
  kept_Safe :
      (cmd : Cmd) (u : World)
      → Spawned cmd u
      → Safe I IsLaunched ((do set_mysql_cmd cmd; ch ← wait_for_command cmd; pure (some ch)) u)
  unfolding pure set_mysql_cmd wait_for_command ◌>>=◌
  kept_Safe cmd u h = record {
    added = h.early.added;
    grown = h.early.grown;
    early = h.early.all;
    pid = h.pid;
    lives = h.lives;
    process = h.process;
    kept = refl;
  }

  join_Safe :
      (u : World)
      → I u
      → Safe I IsLaunched (join_cluster env cfg.manager (db env cfg fuel) (checker env cfg fuel) u)
  unfolding join_cluster new_db_helper start_mysqld_in_join start_mysqld_as_child_process
  join_Safe u x =
      Safe-bind I Spawned IsLaunched _ _ u (started_cases _ _ _ u _ _ refl refl x) kept_Safe

  bootstrap_Safe :
      (u : World)
      → I u
      → Safe I IsLaunched
          (bootstrap_node env cfg.manager (db env cfg fuel) (checker env cfg fuel) u)
  unfolding bootstrap_node new_db_helper start_mysqld_in_bootstrap start_mysqld_as_child_process
  bootstrap_Safe u x =
      extending_then w IsLaunched _ _ (on_attempt early_calls _ (read_file_call early_calls env _))
        u x
        λ r u1 x1.
          extending_then w IsLaunched _ _
            (update_grastate_call early_calls env cfg.manager (db env cfg fuel)
              (checker env cfg fuel) r)
            u1 x1
            λ _ u2 x2.
              Safe-bind I Spawned IsLaunched _ _ u2 (started_cases _ _ _ u2 _ _ refl refl x2)
                kept_Safe

  by_health_Safe :
      (healthy : Bool) (u : World)
      → I u
      → Safe I IsLaunched
          (by_health env cfg.manager (db env cfg fuel) (checker env cfg fuel) healthy u)
  unfolding by_health
  by_health_Safe true u x = join_Safe u x
  by_health_Safe false u x = bootstrap_Safe u x

  -- a launched node, with its new state
  abbrev pub IsLaunchedAs : String × Option Chan → World → Type 0
  IsLaunchedAs r v = IsLaunched r.1 v

  named :
      (n : String) (m : Go (Option Chan)) (u : World)
      → Safe I IsLaunched (m u)
      → Safe I IsLaunchedAs ((do ch ← m; pure (n, ch)) u)
  unfolding pure
  named n m u h = Safe-bind I IsLaunched IsLaunchedAs m _ u h (λ ch v k. k)

  -- Wherever the launch stops, nothing of the supervision has been done, and if it returns, mysqld is
  -- alive.
  pub launch_Safe :
      (state : String) (u : World)
      → I u
      → Safe I IsLaunchedAs
          (launch env cfg.manager (db env cfg fuel) (checker env cfg fuel) state u)
  launch_Safe state u x =
      launch_cases env cfg.manager (db env cfg fuel) (checker env cfg fuel) state
        (λ m. Safe I IsLaunchedAs (m u)) (named single_node _ u (bootstrap_Safe u x))
        (extending_then w IsLaunchedAs _ _ (any_healthy_call early_calls env _ _) u x
          λ healthy v y. named clustered _ v (by_health_Safe healthy v y))
        (named clustered _ u (join_Safe u x)) (unfold fail in x)
