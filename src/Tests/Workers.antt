-- ===== src/Tests/Workers.antt =====
-- A worker of the updater at concrete data.
use mathlib.Core.Option
use link_pilot.Prelude.{
  ℕ, String, eqb, ◌≡◌, refl, true, false, none, some, ok, ltb, leb, ◌*◌, ◌==◌, if◌then◌else◌, arith,
  starts_with, strip_prefix,
}
use link_pilot.Core.Files.{FilePath, join, path_eq}
use link_pilot.Updater.Jobs.{
  Machine, job_path, check_file, check_canonical, check_job, load_job, app_root, bundle_of,
}
use link_pilot.Updater.Agents.{Agent}
use link_pilot.Updater.Agents.Stopping.{controlled, run_worker-controlled_ends}
use link_pilot.Updater.Workers.{WorkerHost, Semver, Ended, check_place, ready_job, run_worker}
use link_pilot.Updater.Jobs.{health_path}
use link_pilot.Updater.Waits.{await_health}
use link_pilot.Updater.Startup.{
  Startup, app_program, background_restart, start_args, acknowledge_startup,
}
use link_pilot.Updater.Startup.Handshake.{startup_confirmed}
use link_pilot.Updater.Working.{Worked}
use link_pilot.Updater.Runs.{run_worker-Worked, run_worker_ends}
use link_pilot.Tests.Updates.{job, mac, machine, watch, shown}

abbrev numbers : Semver
numbers = record {
  Version = ℕ;
  parse = λ text. ok (if text == "1.1.0" then 110 else 100);
  is_pre = λ version. false;
  le = leb;
}

-- The old process is gone at the third turn, and the daemon is not loaded.
abbrev host : WorkerHost (Unit {0})
host = record {
  current_exe = ok (join job.workspace "lpt");
  parent_pid = 41;
  ready = ok tt;
  show_pid = λ pid. "41";
  alive = λ turn. ltb turn 2;
  now = λ turn. turn * 100;
  exit_deadline = 200;
  still_alive = false;
  lock = record {
    created = ok tt;
    file_opened = ok tt;
    locked = true;
    active = none;
    number_of = λ text. ok 0;
    me = 42;
    alive = λ pid. false;
  };
  verify_app = λ app version. ok tt;
  version_of = λ app. ok "1.0.0";
  semver = numbers;
  daemon_status = ok (record { loaded = false; exec_path = none });
  load = λ s. (ok tt, s);
  unload = λ s. (ok tt, s);
  record_outcome = ok tt;
  remove_workspace = ok tt;
  removed = λ path. false;
}

-- Only the target is a bundle.
abbrev bundles : Machine
bundles = record machine {
  extension = λ path. if path_eq path job.target then some "app" else none;
}

job_ready : ready_job host bundles (job_path job) "t-1" ≡ ok job
unfolding ready_job check_place load_job check_job check_file check_canonical path_eq starts_with
    strip_prefix app_root bundle_of Option.bind
job_ready = refl

-- The daemon runs at the second look, and is gone at once.
abbrev agent : Agent (Unit {0})
agent = record {
  status = λ s. ok (some 50);
  plist = ok tt;
  launchctl = λ load s. (ok tt, s);
  status_at = λ s turn. ok (if leb 1 turn then some 51 else none);
  alive_at = λ s pid turn. eqb pid 51;
  clock = λ s turn. turn * 100;
  end_of_wait = λ s. 200;
  pid_text = λ pid. "50";
}

run_worker-controlled_ends_example :
    (end : Ended String (Unit {0})) × (run_worker
        (controlled agent 2 (λ s turn. omega arith) (λ s. omega arith) host)
        shown
        200
        watch
        3
        bundles
        (job_path job)
        "t-1"
        mac
      ≡ some end)
run_worker-controlled_ends_example =
    run_worker-controlled_ends agent 2 (λ s turn. omega arith) (λ s. omega arith) host shown 200
      watch (λ turn. omega arith) (omega arith) (λ turn. omega arith) (omega arith) bundles
      (job_path job) "t-1" mac

abbrev worked :
    (end : Ended String (Unit {0})) × (run_worker host shown 200 watch 3 bundles
        (job_path job)
        "t-1"
        mac
      ≡ some end)
worked =
    run_worker_ends host shown 200 watch 2 (λ turn. omega arith) (omega arith) (λ turn. omega arith)
      (omega arith) bundles (job_path job) "t-1" mac

run_worker-Worked_example : Worked host job mac worked.0
run_worker-Worked_example =
    run_worker-Worked host shown 200 watch 3 bundles (job_path job) "t-1" mac job worked.0 job_ready
      worked.1

-- The app that the worker starts: its program stands in the target.
abbrev show : FilePath → String
show path = if path_eq path (job_path job) then "job.json" else "linkpilot-desktop"

abbrev startup : Startup
startup = record {
  current_exe = ok (app_program job);
  version_of = λ app. ok "1.1.0";
  pid = 42;
  path_of = λ text. job_path job;
}

job_reads : load_job bundles (job_path job) "t-1" ≡ ok job
unfolding load_job check_job check_file check_canonical path_eq starts_with strip_prefix
job_reads = refl

root_found : app_root bundles (app_program job) ≡ ok job.target
unfolding app_root bundle_of path_eq Option.bind
root_found = refl

startup_confirmed_example :
    (background_restart (start_args show job true) ≡ true)
    × (acknowledge_startup bundles startup (start_args show job true)
        ≡ ok (some (health_path job, record { token = "t-1"; version = "1.1.0"; pid = 42 })))
    × (await_health job 42 200 watch 2 0 ≡ some (ok tt))
unfolding path_eq
startup_confirmed_example =
    startup_confirmed bundles startup job show (app_program job) job_reads refl root_found refl refl
      refl refl refl 200 watch 1 (λ turn h. (refl, ground arith)) refl
