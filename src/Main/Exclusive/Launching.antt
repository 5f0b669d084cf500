-- ===== src/Main/Exclusive/Launching.antt =====
-- start_manager/node_starter/starter.go: mysqld is launched when no mysqld is there.
use mariadb_ctrl.Prelude.{ℕ, String, refl, Bool, true, false, Option, some, []}
use mariadb_ctrl.Go.World.{World, Event, Cmd, Chan, started, received, signalled, cancelled, served}
use mariadb_ctrl.Go.Action.{Go, pure, fail, ◌>>=◌, ◌>>◌}
use mariadb_ctrl.Go.Logic.{Logic, Logic-restrict, Has, on_attempt}
use mariadb_ctrl.Go.Safe.{ExtendsOnly, ExtendsOnly-Logic, Safe, Safe-bind}
use mariadb_ctrl.Go.Plain.{IsPlain, IsClosing, wait_for_command-Extends}
use mariadb_ctrl.Env.{Env}
use mariadb_ctrl.Config.{Config}
use mariadb_ctrl.OsHelper.{wait_for_command}
use mariadb_ctrl.DbHelper.Mysqld.{
  start_mysqld_in_join, start_mysqld_in_bootstrap, start_mysqld_as_child_process,
}
use mariadb_ctrl.DbHelper.Galera.{new_db_helper}
use mariadb_ctrl.Starter.{
  launch, bootstrap_node, join_cluster, set_mysql_cmd, clustered, single_node,
}
use mariadb_ctrl.Starter.Launching.{by_health, launch_cases}
use mariadb_ctrl.Starter.Calls.{
  IsLaunchCall, read_file_call, update_grastate_call, any_healthy_call,
}
use mariadb_ctrl.Main.Preparing.{db, checker}
use mariadb_ctrl.Main.Exclusive.{
  free, taken, Ordered, Follows, Ordered-Follows, IsHeld, NoStart, held_then, Ordered-then,
}
use mariadb_ctrl.Main.Exclusive.Starting.{start_command_Safe}

pub NoStart-plain : (e : Event) → IsPlain e → NoStart e
NoStart-plain (started exe args r) h = h
NoStart-plain _ h = tt

pub NoStart-closing : (e : Event) → IsClosing e → NoStart e
NoStart-closing served h = tt
NoStart-closing cancelled h = tt
NoStart-closing (signalled pid signal x) h = tt
NoStart-closing _ h = absurd h

IsHeld-launch : (e : Event) → IsLaunchCall e → IsHeld e
IsHeld-launch (started exe args r) h = h
IsHeld-launch (received ref x) h = h
IsHeld-launch _ h = tt

module _ (env : Env) (cfg : Config) (fuel : ℕ) (w : World) where
  abbrev I : World → Type 0
  I v = Ordered w v

  abbrev InOrder : {A : Type 0} → A → World → Type 0
  InOrder a v = Ordered w v

  held : Logic (ExtendsOnly IsHeld) IsLaunchCall
  held = Logic-restrict ExtendsOnly-Logic IsHeld-launch

  set-NoStart : (cmd : Cmd) → Has (ExtendsOnly NoStart) (set_mysql_cmd cmd)
  unfolding set_mysql_cmd
  set-NoStart cmd = record {
    holds = record { at = λ u. record { added = []; grown = refl; all = tt } };
  }

  -- the command is kept and waited for
  kept_Safe :
      (cmd : Cmd) (u : World)
      → Follows w taken u
      → Safe I InOrder ((do set_mysql_cmd cmd; ch ← wait_for_command cmd; pure (some ch)) u)
  unfolding pure
  kept_Safe cmd u h =
      Ordered-then w InOrder _ _ (set-NoStart cmd) u (Ordered-Follows w taken u h) λ _ u1 h1.
        Ordered-then w InOrder _ _ (wait_for_command-Extends NoStart-plain env cmd) u1 h1
          λ ch u2 h2. h2

  join_Safe :
      (u : World)
      → Follows w free u
      → Safe I InOrder (join_cluster env cfg.manager (db env cfg fuel) (checker env cfg fuel) u)
  unfolding join_cluster new_db_helper start_mysqld_in_join start_mysqld_as_child_process
  join_Safe u h =
      Safe-bind I (λ _ v. Follows w taken v) InOrder _ _ u (start_command_Safe env w _ _ _ u h)
        kept_Safe

  bootstrap_Safe :
      (u : World)
      → Follows w free u
      → Safe I InOrder (bootstrap_node env cfg.manager (db env cfg fuel) (checker env cfg fuel) u)
  unfolding bootstrap_node new_db_helper start_mysqld_in_bootstrap start_mysqld_as_child_process
  bootstrap_Safe u h =
      held_then w free InOrder _ _ tt (on_attempt held _ (read_file_call held env _)) u h λ r u1 h1.
        held_then w free InOrder _ _ tt
          (update_grastate_call held env cfg.manager (db env cfg fuel) (checker env cfg fuel) r) u1
          h1
          λ _ u2 h2.
            Safe-bind I (λ _ v. Follows w taken v) InOrder _ _ u2
              (start_command_Safe env w _ _ _ u2 h2) kept_Safe

  by_health_Safe :
      (healthy : Bool) (u : World)
      → Follows w free u
      → Safe I InOrder
          (by_health env cfg.manager (db env cfg fuel) (checker env cfg fuel) healthy u)
  unfolding by_health
  by_health_Safe true u h = join_Safe u h
  by_health_Safe false u h = bootstrap_Safe u h

  named :
      (n : String) (m : Go (Option Chan)) (u : World)
      → Safe I InOrder (m u)
      → Safe {A = String × Option Chan} I InOrder ((do ch ← m; pure (n, ch)) u)
  unfolding pure
  named n m u h = Safe-bind I InOrder InOrder m _ u h (λ ch x k. k)

  -- Whatever the node state, mysqld is launched when no mysqld is there.
  pub launch_Safe :
      (state : String) (u : World)
      → Follows w free u
      → Safe I InOrder (launch env cfg.manager (db env cfg fuel) (checker env cfg fuel) state u)
  launch_Safe state u h =
      launch_cases env cfg.manager (db env cfg fuel) (checker env cfg fuel) state
        (λ m. Safe I InOrder (m u)) (named single_node _ u (bootstrap_Safe u h))
        (held_then w free InOrder _ _ tt (any_healthy_call held env _ _) u h
          λ healthy v k. named clustered _ v (by_health_Safe healthy v k))
        (named clustered _ u (join_Safe u h)) (unfold fail in (Ordered-Follows w free u h))
