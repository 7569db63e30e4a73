-- ===== src/Updater/Workers.antt =====
-- `run_worker` of crates/updater/src/lib.rs, the process that carries out an update, with the checks in
-- front of the transaction and what is recorded behind it.
use link_pilot.Prelude.{
  ℕ, String, Bool, true, false, not, ◌&&◌, ◌||◌, Option, none, some, [], ◌∷◌, Result, ok, err,
  ◌>>=◌, ◌>>◌, if◌then◌else◌, eqb, is_some,
}
use link_pilot.Prelude.Anyhow.{Anyhow, context, show_chain}
use link_pilot.Prelude.Tasks.{Task, pure}
use link_pilot.Core.Files.{FilePath, path_eq, join}
use link_pilot.Updater.Jobs.{Job, Machine, Outcome, candidate, guard, to_option, app_root, load_job}
use link_pilot.Updater.Machines.{Mac, start_app, on_service}
use link_pilot.Updater.Waits.{Watch, Waited, wait_exit}
use link_pilot.Updater.Transactions.{transact, forget}

-- The crate semver: its parser, whether a version is a pre-release, and its order.
pub record Semver : Type 1 where
  pub Version : Type 0
  pub parse : String → Result Version Anyhow
  pub is_pre : Version → Bool
  pub le : Version → Version → Bool

-- `newer`; the version at hand is read after the new one was found to be a release.
unfoldable pub newer : Semver → String → String → Result (Unit {0}) Anyhow
newer semver version current = semver.parse version >>= λ next.
    if semver.is_pre next
    then guard false "Only a newer stable release can be installed"
    else semver.parse current >>= λ now.
        guard (not (semver.le next now)) "Only a newer stable release can be installed"

-- What `Lock::acquire` meets: the results of making the directory and of opening the file, whether
-- `flock` takes the lock, the file `active.json` where it can be read, and the processes.
pub record LockFile : Type 0 where
  pub created : Result (Unit {0}) Anyhow
  pub file_opened : Result (Unit {0}) Anyhow
  pub locked : Bool
  pub active : Option String
  pub number_of : String → Result ℕ Anyhow
  pub me : ℕ
  pub alive : ℕ → Bool

unfoldable pub check_active : LockFile → Option String → Result (Unit {0}) Anyhow
check_active file none = ok tt
check_active file (some text) = file.number_of text >>= λ pid.
    guard (eqb pid file.me || not (file.alive pid)) "Another update worker is already running"

unfoldable pub acquire : LockFile → Result (Unit {0}) Anyhow
unfolding check_active
acquire file = do
  file.created
  file.file_opened
  guard file.locked "Another update is already in progress"
  check_active file file.active

-- The parts of a `LaunchAgentStatus` that are read.
pub record AgentStatus : Type 0 where
  pub loaded : Bool
  pub exec_path : Option FilePath

abbrev is_path : Option FilePath → FilePath → Bool
is_path none path = false
is_path (some exec) path = path_eq exec path

unfoldable pub daemon_belongs_to : FilePath → AgentStatus → Bool
daemon_belongs_to target status =
    status.loaded
    && is_path status.exec_path (join (join (join target "Contents") "MacOS") "linkpilot-daemon")

-- The answers of the system to the worker: its own program and parent, the write of `ready`, whether
-- the old process is alive at each turn of the wait and after it, with the clock, the lock, the
-- checks of an app, its version, the agent, the end of the records, the agent's control, and the removal
-- of the workspace, with the paths that it had removed before an error.
pub record WorkerHost (Service : Type 0) : Type 1 where
  pub current_exe : Result FilePath Anyhow
  pub parent_pid : ℕ
  pub ready : Result (Unit {0}) Anyhow
  pub show_pid : ℕ → String
  pub alive : ℕ → Bool
  pub now : ℕ → ℕ
  pub exit_deadline : ℕ
  pub still_alive : Bool
  pub lock : LockFile
  pub verify_app : FilePath → String → Result (Unit {0}) Anyhow
  pub version_of : FilePath → Result String Anyhow
  pub semver : Semver
  pub daemon_status : Result AgentStatus Anyhow
  pub load : Task Service Anyhow (Unit {0})
  pub unload : Task Service Anyhow (Unit {0})
  pub record_outcome : Result (Unit {0}) Anyhow
  pub remove_workspace : Result (Unit {0}) Anyhow
  pub removed : FilePath → Bool

-- The path is the directory or below it.
unfoldable pub is_inside : (dir path : FilePath) → Bool
is_inside dir [] = path_eq dir []
is_inside dir (part ∷ path) = path_eq dir (part ∷ path) || is_inside dir path

-- Whether the transaction began, its result or the error in front of it, and the machine.
pub record Attempt (App Service : Type 0) : Type 0 where
  pub started : Bool
  pub result : Result (Unit {0}) Anyhow
  pub mac : Mac App Service

-- The end of a worker: its result, the machine, what stands in `outcome.json` of this update, and
-- whether the workspace is there.
pub record Ended (App Service : Type 0) : Type 0 where
  pub result : Result (Unit {0}) Anyhow
  pub mac : Mac App Service
  pub outcome : Option Outcome
  pub workspace : Bool

-- `result.as_ref().err().map(|e| format!("{e:#}"))`
abbrev pub error_text : Result (Unit {0}) Anyhow → Option String
error_text (ok _) = none
error_text (err e) = some (show_chain e)

abbrev pub outcome_for : Job → Result (Unit {0}) Anyhow → Outcome
outcome_for job result = record { version = job.version; error = error_text result }

-- `if daemon { daemon_load(…) } else { Ok(()) }`
abbrev pub if_owned :
    {Service : Type 0} → Bool → Task Service Anyhow (Unit {0}) → Task Service Anyhow (Unit {0})
if_owned daemon control = if daemon then control else pure tt

module _ {Service : Type 0} (host : WorkerHost Service) where
  -- The checks between the exit of the old process and the stop of the daemon; the answer is whether
  -- the daemon is the app's own.
  unfoldable pub check_update : Job → Result Bool Anyhow
  check_update job =
      acquire host.lock
      >> (host.verify_app (candidate job) job.version
          >> (host.version_of job.target >>= λ current.
              newer host.semver job.version current
              >> (host.daemon_status >>= λ status. ok (daemon_belongs_to job.target status))))

  -- The worker runs outside of every bundle, from its workspace, under the process it waits for.
  unfoldable pub check_place : Machine → Job → Result (Unit {0}) Anyhow
  check_place machine job = host.current_exe >>= λ exe.
      guard
        (not (is_some (to_option (app_root machine exe)))
          && (path_eq exe (join job.workspace "lpt") && eqb host.parent_pid job.old_pid))
        "Update worker must run from its private workspace"

  unfoldable pub ready_job : Machine → FilePath → String → Result Job Anyhow
  ready_job machine path token =
      load_job machine path token >>= λ job. check_place machine job >> (host.ready >> ok job)

module _ {App Service : Type 0} where
  abbrev pub before_start : Result (Unit {0}) Anyhow → Mac App Service → Attempt App Service
  before_start r mac = record { started = false; result = r; mac = mac }

  unfoldable pub transacted :
      Option (Result (Unit {0}) Anyhow × Mac App Service) → Option (Attempt App Service)
  transacted none = none
  transacted (some (r, mac)) = some (record { started = true; result = r; mac = mac })

  -- What `remove_dir_all` leaves of the applications: none of the workspace where it goes well, and
  -- where it fails those that it had not come to.
  unfoldable pub cleaned : Job → (removed : FilePath → Bool) → Mac App Service → Mac App Service
  cleaned job removed mac = record mac {
    apps = λ path. if is_inside job.workspace path && removed path then none else mac.apps path;
  }

  abbrev pub refused : Anyhow → Mac App Service → Ended App Service
  refused e mac = record { result = err e; mac = mac; outcome = none; workspace = true }

module _ {App Service : Type 0} (host : WorkerHost Service) where
  unfoldable pub stop_failed :
      Result (Unit {0}) Anyhow × Mac App Service → Result (Unit {0}) Anyhow × Mac App Service
  stop_failed (ok _, mac) = (ok tt, mac)
  stop_failed (err error, mac) =
      let (loaded, mac') = on_service host.load mac in
      (context "restoring daemon after stop failure" loaded >> err error, mac')

  unfoldable pub stop_owned : Bool → Mac App Service → Result (Unit {0}) Anyhow × Mac App Service
  stop_owned false mac = (ok tt, mac)
  stop_owned true mac = stop_failed (on_service host.unload mac)

  unfoldable pub behind_start :
      Result (Unit {0}) Anyhow
      → Result ℕ Anyhow × Mac App Service
      → Result (Unit {0}) Anyhow × Mac App Service
  behind_start result (gui, mac) = (forget gui >> result, mac)

  -- The unchanged application is started again, and its error goes first.
  unfoldable pub restarted :
      Job → Result (Unit {0}) Anyhow × Mac App Service → Result (Unit {0}) Anyhow × Mac App Service
  restarted job (result, mac) = behind_start result (start_app job false mac)

  -- So it is where the update failed before it began and the old process is gone.
  unfoldable pub bring_back : Job → Attempt App Service → Result (Unit {0}) Anyhow × Mac App Service
  bring_back job a =
      if is_some (error_text a.result) && (not a.started && not host.still_alive)
      then restarted job (a.result, a.mac)
      else (a.result, a.mac)

  -- The removal of the workspace, after an update that went well.
  unfoldable pub clean_up : Job → Result (Unit {0}) Anyhow → Mac App Service → Ended App Service
  clean_up job (err e) mac = record {
    result = err e;
    mac = mac;
    outcome = some (outcome_for job (err e));
    workspace = true;
  }
  clean_up job (ok _) mac = elim host.remove_workspace [
    | ok _ ↦ record {
      result = ok tt;
      mac = cleaned job (λ path. true) mac;
      outcome = some (outcome_for job (ok tt));
      workspace = false;
    }
    | err e ↦ record {
      result = err e;
      mac = cleaned job host.removed mac;
      outcome = some (outcome_for job (ok tt));
      workspace = true;
    }
  ]

  -- What follows the write of `outcome.json`.
  unfoldable pub recorded :
      Job
      → (written : Result (Unit {0}) Anyhow) → Result (Unit {0}) Anyhow
      → Mac App Service
      → Ended App Service
  recorded job (err e) result mac = refused e mac
  recorded job (ok _) result mac = clean_up job result mac

  unfoldable pub report : Job → Result (Unit {0}) Anyhow × Mac App Service → Ended App Service
  report job (result, mac) = recorded job host.record_outcome result mac

  unfoldable pub finish : Job → Option (Attempt App Service) → Option (Ended App Service)
  finish job none = none
  finish job (some a) = some (report job (bring_back job a))

  module _ (show_path : FilePath → String) (deadline : ℕ) (watch : Watch) (fuel : ℕ) where
    unfoldable pub begin :
        Job → Bool → Result (Unit {0}) Anyhow × Mac App Service → Option (Attempt App Service)
    begin job daemon (err e, mac) = some (before_start (err e) mac)
    begin job daemon (ok _, mac) = transacted (
        transact job show_path (if_owned daemon host.load) (if_owned daemon host.unload) deadline
          watch fuel mac)

    unfoldable pub after_checks :
        Job → Result Bool Anyhow → Mac App Service → Option (Attempt App Service)
    after_checks job (err e) mac = some (before_start (err e) mac)
    after_checks job (ok daemon) mac = begin job daemon (stop_owned daemon mac)

    unfoldable pub after_exit : Job → Waited → Mac App Service → Option (Attempt App Service)
    after_exit job none mac = none
    after_exit job (some (err e)) mac = some (before_start (err e) mac)
    after_exit job (some (ok _)) mac = after_checks job (check_update host job) mac

    -- The closure of `run_worker`.
    unfoldable pub attempt_update : Job → Mac App Service → Option (Attempt App Service)
    attempt_update job mac =
        after_exit job
          (wait_exit (host.show_pid job.old_pid) host.exit_deadline host.alive host.now fuel 0) mac

    unfoldable pub work_on : Result Job Anyhow → Mac App Service → Option (Ended App Service)
    work_on (err e) mac = some (refused e mac)
    work_on (ok job) mac = finish job (attempt_update job mac)

    unfoldable pub run_worker :
        Machine → FilePath → String → Mac App Service → Option (Ended App Service)
    run_worker machine path token mac = work_on (ready_job host machine path token) mac
