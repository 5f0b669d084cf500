-- ===== src/Main/Probed.antt =====
-- Runs of `Execute` with the probes of the health check before the start of a new cluster.
use mariadb_ctrl.Prelude.{ℕ, String, ◌≢◌, refl, some, List, ◌∷◌, []}
use mariadb_ctrl.Go.World.{World, Event, Cmd, started, signalled, cancelled, served}
use mariadb_ctrl.Go.Action.{Go, final, ◌>>=◌}
use mariadb_ctrl.Go.Logic.{Logic, Logic-restrict, Has, on_bind, on_call, on_attempt, on_pure}
use mariadb_ctrl.Go.Relations.{Extends, Extends-IsPreorder}
use mariadb_ctrl.Go.Safe.{ExtendsOnly, ExtendsOnly-Logic, Safe, Safe-bind, Safe-of_final}
use mariadb_ctrl.Go.Plain.{IsPlain, IsClosing, wait_for_command-Extends}
use mariadb_ctrl.Env.{Env}
use mariadb_ctrl.Config.{DbHelperConfig, StartManagerConfig}
use mariadb_ctrl.ClusterHealth.{ClusterHealthChecker}
use mariadb_ctrl.ClusterHealth.Probing.{Unhealthy}
use mariadb_ctrl.DbHelper.{DbHelper}
use mariadb_ctrl.DbHelper.Mysqld.{
  my_cnf, new_cluster, start_mysqld_in_bootstrap, start_mysqld_as_child_process,
}
use mariadb_ctrl.DbHelper.Calls.{IsInnerCall, start_command_call}
use mariadb_ctrl.DbHelper.Galera.{new_db_helper}
use mariadb_ctrl.Starter.{bootstrap_node, set_mysql_cmd}
use mariadb_ctrl.Starter.Calls.{IsLaunchCall, read_file_call, update_grastate_call}
use mariadb_ctrl.Main.Recording.{bootstrap_args, All-map}

-- an event that is no start of a new cluster
abbrev pub Old : Event → Type 0
Old (started exe args r) = args ≢ bootstrap_args
Old _ = Unit

abbrev pub Any : Event → Type 0
Any e = Unit

pub Old-plain : (e : Event) → IsPlain e → Old e
Old-plain (started exe args r) h = absurd h
Old-plain _ h = tt

pub Old-closing : (e : Event) → IsClosing e → Old e
Old-closing served h = tt
Old-closing cancelled h = tt
Old-closing (signalled pid signal x) h = tt
Old-closing _ h = absurd h

-- A run that starts a new cluster does so only after it has probed all the nodes and none has answered
-- with 200; before, it has started none.
pub data Probed (timeout : ℕ) (ips : List String) (w v : World) : Type 0 where
  old : Extends Old w v → Probed timeout ips w v
  renewed :
      (u x : World)
      → Extends Old w u
      → Unhealthy timeout ips u.trace x.trace
      → Extends Any x v
      → Probed timeout ips w v

Extends-Any : {P : Event → Type 0} (w v : World) → Extends P w v → Extends Any w v
Extends-Any {P} w v x = record {
  added = x.added;
  grown = x.grown;
  all = All-map P Any x.added (λ e h. tt) x.all;
}

module _ (timeout : ℕ) (ips : List String) where
  Probed-Extends :
      (w u v : World) → Probed timeout ips w u → Extends Old u v → Probed timeout ips w v
  Probed-Extends w u v (old x) y = old ((Extends-IsPreorder Old).transitive w u v x y)
  Probed-Extends w u v (renewed a b x bad y) z =
      renewed a b x bad ((Extends-IsPreorder Any).transitive b u v y (Extends-Any u v z))

  -- An action that starts no new cluster, and the rest.
  pub Probed-then :
      {A B : Type 0} (w : World) (R : B → World → Type 0) (m : Go A) (f : A → Go B)
      → Has (ExtendsOnly Old) m
      → (u : World) → Probed timeout ips w u
      → ((a : A) (v : World) → Probed timeout ips w v → Safe (Probed timeout ips w) R (f a v))
      → Safe (Probed timeout ips w) R ((m >>= f) u)
  Probed-then w R m f q u h k =
      Safe-bind (Probed timeout ips w) (λ _ v. Probed timeout ips w v) R m f u
        (Safe-of_final (Probed timeout ips w) (m u)
          (Probed-Extends w u (final (m u)) h (q.holds.at u)))
        k

  -- An action that starts no new cluster.
  pub Probed-last :
      {A : Type 0} (w : World) (m : Go A)
      → Has (ExtendsOnly Old) m
      → (u : World) → Probed timeout ips w u
      → Safe (Probed timeout ips w) (λ _ v. Probed timeout ips w v) (m u)
  Probed-last w m q u h =
      Safe-of_final (Probed timeout ips w) (m u) (Probed-Extends w u (final (m u)) h (q.holds.at u))

-- All that an operation adds to the trace is something.
Any-inner : Logic (ExtendsOnly Any) IsInnerCall
Any-inner = Logic-restrict ExtendsOnly-Logic (λ e h. tt)

module _ (env : Env) (config : StartManagerConfig) (checker : ClusterHealthChecker)
    (db_config : DbHelperConfig) (log : String) where
  abbrev db : DbHelper
  db = new_db_helper env db_config log

  start-Any : Has (ExtendsOnly Any) db.start_mysqld_in_bootstrap
  unfolding new_db_helper start_mysqld_in_bootstrap start_mysqld_as_child_process
  start-Any =
      start_command_call Any-inner env log "mysqld" (my_cnf ∷ new_cluster ∷ [])
        (on_call ExtendsOnly-Logic _ _ (λ _. tt))

  calls : Logic (ExtendsOnly Any) IsLaunchCall
  calls = Logic-restrict ExtendsOnly-Logic (λ e h. tt)

  set-Any : (cmd : Cmd) → Has (ExtendsOnly Any) (set_mysql_cmd cmd)
  unfolding set_mysql_cmd
  set-Any cmd = record {
    holds = record { at = λ w. record { added = []; grown = refl; all = tt } };
  }

  pub bootstrap_node-Any : Has (ExtendsOnly Any) (bootstrap_node env config db checker)
  unfolding bootstrap_node
  bootstrap_node-Any =
      on_bind ExtendsOnly-Logic _ _ (on_attempt calls _ (read_file_call calls env _)) λ text.
        on_bind ExtendsOnly-Logic _ _ (update_grastate_call calls env config db checker text) λ _.
          on_bind ExtendsOnly-Logic _ _ start-Any λ cmd.
            on_bind ExtendsOnly-Logic _ _ (set-Any cmd) λ _.
              on_bind ExtendsOnly-Logic _ _ (wait_for_command-Extends (λ e h. tt) env cmd)
                λ ch. on_pure ExtendsOnly-Logic (some ch)
