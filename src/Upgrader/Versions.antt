-- ===== src/Upgrader/Versions.antt =====
-- `NeedsUpgrade` of upgrader/upgrader.go.
use mariadb_ctrl.Prelude.{String, ◌==◌, ◌≡◌, refl, Bool, true, not, some, [], ◌∷◌, arith}
use mariadb_ctrl.Go.Error.{Result, ok, err, message}
use mariadb_ctrl.Go.World.{World, checked, read}
use mariadb_ctrl.Go.Action.{Go, ◌>>=◌}
use mariadb_ctrl.Go.Logic.{Logic, Has, logic_rules}
use mariadb_ctrl.Env.{Env}
use mariadb_ctrl.Env.Files.{File, missing, unreadable, contents, Shows, IsRead, result}
use mariadb_ctrl.Config.{UpgraderConfig}
use mariadb_ctrl.Text.{trim_space}
use mariadb_ctrl.OsHelper.{file_exists, read_file}
use mariadb_ctrl.Upgrader.{reading, compare_versions, package_version_needed, needs_upgrade}

-- The verdict on the file that the last upgrade has left and the version file of the package.
abbrev pub verdict : File → File → Result Bool
verdict (missing e) package_file = ok true
verdict last (missing e) =
    err (message "DB package is invalid because it is missing the version file.")
verdict (unreadable e) package_file =
    err (message "Could not read last upgraded version file in the data dir.")
verdict (contents text) (unreadable e) =
    err (message "DB package is invalid because the version file is not readable.")
verdict (contents last) (contents current) = ok (not (trim_space last == trim_space current))

module _ (env : Env) (config : UpgraderConfig) (fs : String → File) (w : World)
    (shows : Shows env fs w.trace) where
  abbrev l : String
  l = config.last_upgraded_version_file

  abbrev k : String
  k = config.package_version_file

  by_cases :
      (last packaged : File)
      → fs l ≡ last
      → fs k ≡ packaged
      → result (needs_upgrade env config w) ≡ some (verdict last packaged)
  unfolding needs_upgrade ◌>>=◌
  by_cases (missing e) packaged p q = ground (arith, shows.stat [] tt l)
  by_cases (unreadable e) (missing x) p q =
      ground (arith, shows.stat [] tt l, shows.stat (checked l true ∷ []) (tt, tt) k)
  by_cases (contents s) (missing x) p q =
      ground (arith, shows.stat [] tt l, shows.stat (checked l true ∷ []) (tt, tt) k)
  by_cases (unreadable e) packaged p q = ground (
    arith,
    shows.stat [] tt l,
    shows.stat (checked l true ∷ []) (tt, tt) k,
    shows.read (checked k true ∷ checked l true ∷ []) (tt, (tt, tt)) l,
  )
  by_cases (contents s) packaged p q = ground (
    arith,
    shows.stat [] tt l,
    shows.stat (checked l true ∷ []) (tt, tt) k,
    shows.read (checked k true ∷ checked l true ∷ []) (tt, (tt, tt)) l,
    shows.read (read l (ok s) ∷ checked k true ∷ checked l true ∷ []) (tt, (tt, (tt, tt))) k,
  )

  -- With files that stay as they are while they are looked at, `NeedsUpgrade` returns the verdict on
  -- the two version files.
  pub needs_upgrade-eq-verdict : result (needs_upgrade env config w) ≡ some (verdict (fs l) (fs k))
  needs_upgrade-eq-verdict = by_cases (fs l) (fs k) refl refl

-- Only reads of files decide whether an upgrade is needed.
module _ {K : (A : Type 0) → Go A → Type 0} (L : Logic K IsRead) (env : Env)
    (config : UpgraderConfig) where
  reading_call : (msg : String) (r : Result String) → Has K (reading msg r)
  reading_call msg (ok text) = search logic_rules
  reading_call msg (err e) = search logic_rules

  read_file_call : (f : String) → Has K (read_file env f)
  unfolding read_file
  read_file_call f = search (logic_rules, tt)

  file_exists_call : (f : String) → Has K (file_exists env f)
  unfolding file_exists
  file_exists_call f = search (logic_rules, tt)

  compare_versions_call : Has K (compare_versions env config)
  unfolding compare_versions
  compare_versions_call = search (logic_rules, reading_call, read_file_call)

  package_version_call : Has K (package_version_needed env config)
  unfolding package_version_needed
  package_version_call = search (logic_rules, compare_versions_call, file_exists_call)

  pub needs_upgrade_call : Has K (needs_upgrade env config)
  unfolding needs_upgrade
  needs_upgrade_call = search (logic_rules, package_version_call, file_exists_call)
