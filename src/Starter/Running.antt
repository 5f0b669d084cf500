-- ===== src/Starter/Running.antt =====
-- `StartNodeFromState` of start_manager/node_starter/starter.go: its ends, the command that is kept, and
-- the exit channel.
use mariadb_ctrl.Prelude.{
  ℕ, String, ◌==◌, ◌≡◌, refl, ◌∙◌, Bool, true, false, Option, none, some, if◌then◌else◌,
}
use mariadb_ctrl.Go.World.{World, Cmd, Chan}
use mariadb_ctrl.Go.Action.{Go, pure, fail, ◌>>=◌, ◌>>◌}
use mariadb_ctrl.Go.Logic.{Logic, Logic-restrict, Has, on_attempt}
use mariadb_ctrl.Go.Relations.{Frame}
use mariadb_ctrl.Go.Total.{Total, Total-bind, Total-both, Total-pure, IsSound, Answers}
use mariadb_ctrl.Go.Quiet.{
  Quiet, Quiet-Logic, Total_of_Quiet, IsOpen, IsOpen-Frame, wait_for_command-Total, sound_then,
  Quiet-IsSound,
}
use mariadb_ctrl.Env.{Env}
use mariadb_ctrl.Config.{StartManagerConfig}
use mariadb_ctrl.OsHelper.{wait_for_command}
use mariadb_ctrl.ClusterHealth.{ClusterHealthChecker}
use mariadb_ctrl.DbHelper.{DbHelper}
use mariadb_ctrl.DbHelper.Confined.{IsQuiet}
use mariadb_ctrl.Starter.{
  clustered, needs_bootstrap, single_node, set_mysql_cmd, require_chan, bootstrap_node,
  join_cluster, launch, start_node_from_state, wait_for_database,
}
use mariadb_ctrl.Starter.Launching.{
  by_health, launch-single, launch-needs, launch-clustered, launch-other,
}
use mariadb_ctrl.Starter.Calls.{IsLaunchCall, read_file_call, update_grastate_call}
use mariadb_ctrl.Starter.Settling.{Settles, IsStarted, Starts, wait_for_database-Total}

-- The channel can be received from, and its command is the one that the starter keeps.
pub record IsRunning (ch : Chan) (w : World) : Type 0 where
  pub is_open : IsOpen ch w
  pub kept : w.mysql_cmd ≡ some ch.cmd

pub IsRunning-Frame : {ch : Chan} {w v : World} → Frame w v → IsRunning ch w → IsRunning ch v
IsRunning-Frame f h = record { is_open = IsOpen-Frame f h.is_open; kept = f.same_cmd ∙ h.kept }

pub running_then :
    {A B : Type 0} (ch : Chan) (R : B → World → Type 0) (m : Go A) (f : A → Go B)
    → Has Quiet m
    → (w : World) → IsRunning ch w
    → ((a : A) (v : World) → IsRunning ch v → Total R (f a v))
    → Total R ((m >>= f) w)
running_then ch R m f q w h k =
    Total-bind (λ _ v. Frame w v) R m f w (Total_of_Quiet m q w)
      (λ a v fr. k a v (IsRunning-Frame fr h))

-- what `bootstrapNode` and `joinCluster` return
abbrev IsLaunched : Option Chan → World → Type 0
IsLaunched none w = ⊥
IsLaunched (some ch) w = IsRunning ch w × IsStarted ch.cmd w

-- what is left to do when a command has been started
keep : Cmd → Go (Option Chan)
keep cmd = do set_mysql_cmd cmd; ch ← wait_for_command cmd; pure (some ch)

keep-Total : (cmd : Cmd) (w : World) → IsSound w × IsStarted cmd w → Total IsLaunched (keep cmd w)
unfolding keep set_mysql_cmd wait_for_command ◌>>=◌
keep-Total cmd w (h, s) = (
  record {
    is_open = (wait_for_command-Total cmd (record w { mysql_cmd = some cmd }) h).0;
    kept = refl;
  },
  record { pid = s.pid; process = s.process; earlier = s.earlier; newest = s.newest },
)

-- a start of mysqld, from a world with sound channels
start-Total :
    (m : Go Cmd)
    → Has Quiet m
    → Starts m
    → (w : World) → IsSound w
    → Total (λ cmd v. IsSound v × IsStarted cmd v) (m w)
start-Total m q starts w h =
    Total-both (λ _ v. IsSound v) IsStarted (m w) (Quiet-IsSound m q w h) (starts w)

-- The starts of mysqld to join and as a new cluster start the command that they return.
abbrev pub Launches : DbHelper → Type 0
Launches db = Starts db.start_mysqld_in_join × Starts db.start_mysqld_in_bootstrap

-- the state that is written after a start from the state
abbrev pub next_state : String → String
next_state state = if state == single_node then single_node else clustered

-- what `StartNodeFromState` returns: the state to be written, and the channel
abbrev pub IsReady : String → String × Chan → World → Type 0
IsReady state r w = (r.0 ≡ next_state state) × IsRunning r.1 w

module _ (env : Env) (config : StartManagerConfig) (db : DbHelper) (checker : ClusterHealthChecker)
    (quiet : IsQuiet db) (launches : Launches db) where
  calls : Logic Quiet IsLaunchCall
  calls = Logic-restrict Quiet-Logic (λ e h. tt)

  join_cluster-Total :
      (w : World) → IsSound w → Total IsLaunched (join_cluster env config db checker w)
  unfolding join_cluster keep
  join_cluster-Total w h =
      Total-bind (λ cmd v. IsSound v × IsStarted cmd v) IsLaunched _ keep w
        (start-Total _ quiet.start_mysqld_in_join launches.0 w h) keep-Total

  bootstrap_node-Total :
      (w : World) → IsSound w → Total IsLaunched (bootstrap_node env config db checker w)
  unfolding bootstrap_node keep
  bootstrap_node-Total w h =
      sound_then _ _ _ (on_attempt calls _ (read_file_call calls env _)) w h λ r w1 h1.
        sound_then _ _ _ (update_grastate_call calls env config db checker r) w1 h1 λ _ w2 h2.
          Total-bind (λ cmd v. IsSound v × IsStarted cmd v) IsLaunched _ keep w2
            (start-Total _ quiet.start_mysqld_in_bootstrap launches.1 w2 h2) keep-Total

  -- a launched node with its new state
  abbrev IsLaunchedAs : String → String × Option Chan → World → Type 0
  IsLaunchedAs state (n, ch) w = (n ≡ next_state state) × IsLaunched ch w

  named :
      (state n : String) (m : Go (Option Chan)) (w : World)
      → n ≡ next_state state
      → Total IsLaunched (m w)
      → Total (IsLaunchedAs state) ((do ch ← m; pure (n, ch)) w)
  unfolding pure
  named state n m w e h = Total-bind IsLaunched (IsLaunchedAs state) m _ w h (λ ch v l. (e, l))

  by_health-Total :
      (healthy : Bool) (w : World)
      → IsSound w
      → Total IsLaunched (by_health env config db checker healthy w)
  unfolding by_health
  by_health-Total true w h = join_cluster-Total w h
  by_health-Total false w h = bootstrap_node-Total w h

  module _ (q : Has Quiet checker.healthy_cluster) where
    launch_by_tests :
        (state : String) (w : World) (a b c : Bool)
        → IsSound w
        → (state == single_node) ≡ a
        → (state == needs_bootstrap) ≡ b
        → (state == clustered) ≡ c
        → Total (IsLaunchedAs state) (launch env config db checker state w)
    launch_by_tests state w true b c h p1 p2 p3 =
        rw (launch-single env config db checker state p1)
          (named state single_node _ w (rw p1) (bootstrap_node-Total w h))
    launch_by_tests state w false true c h p1 p2 p3 =
        rw (launch-needs env config db checker state p1 p2) (
          sound_then (IsLaunchedAs state) _ _ q w h
            λ healthy v k. named state clustered _ v (rw p1) (by_health-Total healthy v k))
    launch_by_tests state w false false true h p1 p2 p3 =
        rw (launch-clustered env config db checker state p1 p2 p3)
          (named state clustered _ w (rw p1) (join_cluster-Total w h))
    launch_by_tests state w false false false h p1 p2 p3 =
        rw (launch-other env config db checker state p1 p2 p3) (unfold fail in tt)

    launch-Total :
        (state : String) (w : World)
        → IsSound w
        → Total (IsLaunchedAs state) (launch env config db checker state w)
    launch-Total state w h = launch_by_tests state w _ _ _ h refl refl refl

    -- from the wait on
    abbrev rest : ℕ → String → Chan → Go (String × Chan)
    rest fuel n ch = do
      wait_for_database env config db checker fuel ch
      db.seed
      db.seed_users
      db.run_post_start_sql
      pure (n, ch)

    rest-Total :
        (fuel : ℕ)
        → Answers db.is_database_reachable
        → Settles env db fuel
        → (state n : String) (ch : Chan) (w : World) → n ≡ next_state state
        → IsRunning ch w
        → IsStarted ch.cmd w
        → Total (IsReady state) (rest fuel n ch w)
    rest-Total fuel answers settles state n ch w e h begun =
        Total-bind (λ _ v. Frame w v) (IsReady state) _ _ w
          (wait_for_database-Total env db quiet ch config checker fuel w answers settles begun
            h.is_open)
          λ _ w1 fr.
            running_then ch (IsReady state) _ _ quiet.seed w1 (IsRunning-Frame fr h) λ _ w2 h2.
              running_then ch (IsReady state) _ _ quiet.seed_users w2 h2 λ _ w3 h3.
                running_then ch (IsReady state) _ _ quiet.run_post_start_sql w3 h3
                  λ _ w4 h4. Total-pure (IsReady state) (n, ch) w4 (e, h4)

    after_launch :
        (fuel : ℕ)
        → Answers db.is_database_reachable
        → Settles env db fuel
        → (state : String) (r : String × Option Chan) (w : World) → IsLaunchedAs state r w
        → Total (IsReady state) ((do ch ← require_chan r.1; rest fuel r.0 ch) w)
    unfolding ◌>>=◌
    after_launch fuel answers settles state (n, none) w h = absurd h.1
    after_launch fuel answers settles state (n, some ch) w (e, k) =
        rest-Total fuel answers settles state n ch w e k.0 k.1

    -- `StartNodeFromState` comes to an end, with a helper and a health check that end and leave the
    -- channels alone, a helper whose two starts of mysqld start the command that they return and that
    -- answers whether the database is reachable, and from a world in which only existing channels have
    -- been received from, if within the fuel's rounds of polling from the start of a mysqld on, it has
    -- exited or the database is reachable. When it returns, the new state is SINGLE_NODE after a start
    -- from SINGLE_NODE and CLUSTERED after any other, the starter keeps the command of the channel, and
    -- nothing has been received from the channel.
    pub start_node_from_state-Total :
        (fuel : ℕ)
        → Answers db.is_database_reachable
        → Settles env db fuel
        → (state : String) (w : World) → IsSound w
        → Total (IsReady state) (start_node_from_state env config db checker fuel state w)
    unfolding start_node_from_state
    start_node_from_state-Total fuel answers settles state w h =
        Total-bind (IsLaunchedAs state) _ _ _ w (launch-Total state w h)
          (after_launch fuel answers settles state)
