-- ===== src/DbHelper/Seeding.antt =====
-- db_helper/db_helper.go: `Seed`, `SeedUsers` and `RunPostStartSQL`.
use mariadb_ctrl.Prelude.{String, List, [], ◌∷◌, if◌then◌else◌}
use mariadb_ctrl.Go.Error.{Result, ok, err}
use mariadb_ctrl.Go.Action.{Go, pure, ◌>>=◌, ◌>>◌, attempt}
use mariadb_ctrl.Env.{Env}
use mariadb_ctrl.Config.{DbHelperConfig, PreseededDatabase, SeededUser}
use mariadb_ctrl.OsHelper.{read_file}
use mariadb_ctrl.DbHelper.Sql.{exec, with_connection}
use mariadb_ctrl.DbHelper.Seeder.{Seeder, new_seeder}
use mariadb_ctrl.DbHelper.UserSeeder.{UserSeeder, new_user_seeder}

-- `BuildSeeder` and `BuildUserSeeder`
abbrev build_seeder : Env → PreseededDatabase → Seeder
build_seeder env d = new_seeder env d

abbrev build_user_seeder : Env → UserSeeder
build_user_seeder env = new_user_seeder env

module _ (env : Env) where
  unfoldable pub flush_privileges : Go Unit
  flush_privileges = exec env "FLUSH PRIVILEGES"

  -- one round of the loop of `Seed`
  unfoldable pub seed_database : PreseededDatabase → Go Unit
  seed_database d =
      let seeder = build_seeder env d in
      do
        seeder.create_db_if_needed
        user_already_exists ← seeder.is_existing_user
        if user_already_exists then seeder.update_user else seeder.create_user
        seeder.grant_user_privileges

  unfoldable pub seed_databases : List PreseededDatabase → Go Unit
  unfolding seed_database
  seed_databases [] = pure tt
  seed_databases (d ∷ ds) = do seed_database d; seed_databases ds

  abbrev pub seed_all : DbHelperConfig → List PreseededDatabase → Go Unit
  seed_all config [] = pure tt
  seed_all config (d ∷ ds) =
      with_connection env config (do seed_databases (d ∷ ds); flush_privileges)

  unfoldable pub seed : DbHelperConfig → Go Unit
  unfolding seed_databases flush_privileges with_connection
  seed config = seed_all config config.preseeded_databases

  unfoldable pub seed_each_user : List SeededUser → Go Unit
  seed_each_user [] = pure tt
  seed_each_user (u ∷ us) = do (build_user_seeder env).seed_user u; seed_each_user us

  abbrev pub seed_all_users : DbHelperConfig → List SeededUser → Go Unit
  seed_all_users config [] = pure tt
  seed_all_users config (u ∷ us) = with_connection env config (seed_each_user (u ∷ us))

  unfoldable pub seed_users : DbHelperConfig → Go Unit
  unfolding seed_each_user with_connection
  seed_users config = seed_all_users config config.seeded_users

  -- a file that cannot be read is passed over
  abbrev pub run_contents : Result String → Go Unit
  run_contents (err e) = pure tt
  run_contents (ok sql) = exec env sql

  unfoldable pub run_files : List String → Go Unit
  run_files [] = pure tt
  run_files (file ∷ files) = do r ← attempt (read_file env file); run_contents r; run_files files

  unfoldable pub run_post_start_sql : DbHelperConfig → Go Unit
  unfolding run_files with_connection
  run_post_start_sql config = with_connection env config (run_files config.post_start_sql_files)
