-- ===== src/Updater/Runs.antt =====
-- What a worker leaves, and that it ends (crates/updater/src/lib.rs, `run_worker`).
use link_pilot.Prelude.{
  ℕ, suc, ◌+◌, ◌*◌, ◌≤◌, String, ◌≡◌, refl, ap, sym, ◌∙◌, subst, Bool, true, false, Option, none,
  some, Result, ok, err,
}
use link_pilot.Prelude.Anyhow.{Anyhow}
use link_pilot.Core.Files.{FilePath}
use link_pilot.Updater.Jobs.{Job, Machine}
use link_pilot.Updater.Machines.{Mac}
use link_pilot.Updater.Waits.{Watch, Waited}
use link_pilot.Updater.Deadlines.{Ticks, Ends, wait_exit-Ends}
use link_pilot.Updater.Endings.{transact_ends}
use link_pilot.Updater.Workers.{
  WorkerHost, Attempt, Ended, check_update, if_owned, stop_owned, transacted, begin, after_checks,
  after_exit, attempt_update, bring_back, report, finish, refused, ready_job, work_on, run_worker,
}
use link_pilot.Updater.Working.{Worked, AllWorked, after_exit-Tried, finish-Worked}

module _ {App Service : Type 0} (host : WorkerHost Service) (show_path : FilePath → String)
    (deadline : ℕ) (watch : Watch) (fuel : ℕ) (machine : Machine) (path : FilePath) (token : String)
    (before : Mac App Service) where
  -- What a worker with a valid job leaves, by its end. After a success the two applications have
  -- changed places, the outcome of this version without an error is recorded, and the workspace is
  -- removed. The workspace is removed after a success only, so the files for a recovery stay after
  -- every failure. The applications are in their places or exchanged, whatever fails. A recorded
  -- outcome names this version, and one without an error means that they are exchanged.
  pub run_worker-Worked :
      (job : Job) (end : Ended App Service)
      → ready_job host machine path token ≡ ok job
      → run_worker host show_path deadline watch fuel machine path token before ≡ some end
      → Worked host job before end
  unfolding run_worker work_on attempt_update
  run_worker-Worked job end valid ends = subst (AllWorked host job before) (step_lem ∙ ends) (
      finish-Worked host job before (attempt_update host show_path deadline watch fuel job before)
        (after_exit-Tried host job show_path deadline watch fuel _ before))
    where
      step_lem :
          finish host job (attempt_update host show_path deadline watch fuel job before)
          ≡ run_worker host show_path deadline watch fuel machine path token before
      step_lem = ap (λ r. work_on host show_path deadline watch fuel r before) (sym valid)

  -- A worker without a valid job, or out of place, changes nothing and records nothing.
  pub run_worker-refused :
      (e : Anyhow)
      → ready_job host machine path token ≡ err e
      → run_worker host show_path deadline watch fuel machine path token before
        ≡ some (refused e before)
  unfolding run_worker work_on
  run_worker-refused e invalid =
      ap (λ r. work_on host show_path deadline watch fuel r before) invalid

abbrev IsGiven : {A : Type 0} → Option A → Type 0
IsGiven {A} o = (a : A) × (o ≡ some a)

module _ {App Service : Type 0} (host : WorkerHost Service) (show_path : FilePath → String)
    (deadline : ℕ) (watch : Watch) (fuel : ℕ) (ticks : Ticks watch.now)
    (enough : deadline ≤ watch.now 0 + 100 * fuel) where
  begin-IsGiven :
      (job : Job) (daemon : Bool) (o : Result (Unit {0}) Anyhow × Mac App Service)
      → IsGiven (begin host show_path deadline watch (suc fuel) job daemon o)
  unfolding begin transacted
  begin-IsGiven job daemon (err e, mac) =
      (record { started = false; result = err e; mac = mac }, refl)
  begin-IsGiven job daemon (ok u, mac) =
      let ((r, after), ends) =
        transact_ends job show_path (if_owned daemon host.load) (if_owned daemon host.unload)
          deadline watch fuel ticks enough mac in
      (record { started = true; result = r; mac = after }, ap transacted ends)

  after_checks-IsGiven :
      (job : Job) (r : Result Bool Anyhow) (mac : Mac App Service)
      → IsGiven (after_checks host show_path deadline watch (suc fuel) job r mac)
  unfolding after_checks
  after_checks-IsGiven job (err e) mac =
      (record { started = false; result = err e; mac = mac }, refl)
  after_checks-IsGiven job (ok daemon) mac = begin-IsGiven job daemon (stop_owned host daemon mac)

  after_exit-IsGiven :
      (job : Job) (w : Waited) (mac : Mac App Service)
      → Ends w
      → IsGiven (after_exit host show_path deadline watch (suc fuel) job w mac)
  unfolding after_exit
  after_exit-IsGiven job none mac (r, h) = cc
  after_exit-IsGiven job (some (err e)) mac h =
      (record { started = false; result = err e; mac = mac }, refl)
  after_exit-IsGiven job (some (ok u)) mac h = after_checks-IsGiven job (check_update host job) mac

  finish-IsGiven :
      (job : Job) (o : Option (Attempt App Service)) → IsGiven o → IsGiven (finish host job o)
  unfolding finish
  finish-IsGiven job none (a, h) = cc
  finish-IsGiven job (some a) h = (report host job (bring_back host job a), refl)

  module _ (exit_ticks : Ticks host.now)
      (exit_enough : host.exit_deadline ≤ host.now 0 + 100 * fuel) where
    work_on-IsGiven :
        (r : Result Job Anyhow) (mac : Mac App Service)
        → IsGiven (work_on host show_path deadline watch (suc fuel) r mac)
    unfolding work_on attempt_update
    work_on-IsGiven (err e) mac = (refused e mac, refl)
    work_on-IsGiven (ok job) mac = finish-IsGiven job _ (
        after_exit-IsGiven job _ mac (
          wait_exit-Ends host.now exit_ticks host.exit_deadline (host.show_pid job.old_pid)
            host.alive fuel 0 exit_enough))

    -- With one unit of fuel more than there are tenths of a second to the later of the two deadlines, a
    -- worker ends, whatever fails; a turn of each wait must take 100 ms at least.
    pub run_worker_ends :
        (machine : Machine) (path : FilePath) (token : String) (before : Mac App Service)
        → (end : Ended App Service) × (run_worker host show_path deadline watch
              (suc fuel)
              machine
              path
              token
              before
            ≡ some end)
    unfolding run_worker
    run_worker_ends machine path token before =
        work_on-IsGiven (ready_job host machine path token) before
