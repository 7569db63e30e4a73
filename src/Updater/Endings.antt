-- ===== src/Updater/Endings.antt =====
-- An update ends (crates/updater/src/lib.rs, `transact`).
use link_pilot.Prelude.{
  ℕ, suc, ◌+◌, ◌*◌, ◌≤◌, String, ◌≡◌, refl, true, Option, some, none, Result, ok, err,
}
use link_pilot.Prelude.Anyhow.{Anyhow}
use link_pilot.Prelude.Tasks.{Task}
use link_pilot.Core.Files.{FilePath}
use link_pilot.Updater.Jobs.{Job, candidate}
use link_pilot.Updater.Machines.{Mac, swap, start_app, on_service}
use link_pilot.Updater.Waits.{Watch, Waited}
use link_pilot.Updater.Deadlines.{await_health-Ends, Ticks, Ends}
use link_pilot.Updater.Transactions.{
  Installed, confirmed, started_app, started_daemon, install, settle, roll_back, restart_unchanged,
  swapped, transact,
}

abbrev IsGiven : {A : Type 0} → Option A → Type 0
IsGiven {A} o = (a : A) × (o ≡ some a)

module _ {App Service : Type 0} (job : Job) (show_path : FilePath → String)
    (start_daemon stop_daemon : Task Service Anyhow (Unit {0})) (deadline : ℕ) (watch : Watch)
    (fuel : ℕ) (ticks : Ticks watch.now) (enough : deadline ≤ watch.now 0 + 100 * fuel) where
  confirmed-IsGiven :
      (child : ℕ) (mac : Mac App Service) (w : Waited)
      → Ends w
      → IsGiven
          (confirmed job show_path start_daemon stop_daemon deadline watch (suc fuel) child mac w)
  unfolding confirmed
  confirmed-IsGiven child mac none (r, h) = cc
  confirmed-IsGiven child mac (some r') h = ((some child, r', mac), refl)

  started_app-IsGiven :
      (o : Result ℕ Anyhow × Mac App Service)
      → IsGiven (started_app job show_path start_daemon stop_daemon deadline watch (suc fuel) o)
  unfolding started_app
  started_app-IsGiven (ok child, mac) =
      confirmed-IsGiven child mac _ (await_health-Ends job child deadline watch fuel 0 ticks enough)
  started_app-IsGiven (err e, mac) = ((none, err e, mac), refl)

  started_daemon-IsGiven :
      (o : Result (Unit {0}) Anyhow × Mac App Service)
      → IsGiven (started_daemon job show_path start_daemon stop_daemon deadline watch (suc fuel) o)
  unfolding started_daemon
  started_daemon-IsGiven (ok u, mac) = started_app-IsGiven (start_app job true mac)
  started_daemon-IsGiven (err e, mac) = ((none, err e, mac), refl)

  settle-IsGiven :
      (o : Option (Installed App Service))
      → IsGiven o
      → IsGiven (settle job show_path start_daemon stop_daemon deadline watch (suc fuel) o)
  unfolding settle
  settle-IsGiven none (i, h) = cc
  settle-IsGiven (some (child, ok u, mac)) h = ((ok tt, mac), refl)
  settle-IsGiven (some (child, err e, mac)) h =
      (roll_back job show_path start_daemon stop_daemon e child mac, refl)

  swapped-IsGiven :
      (o : Result (Unit {0}) Anyhow × Mac App Service)
      → IsGiven (swapped job show_path start_daemon stop_daemon deadline watch (suc fuel) o)
  unfolding swapped install
  swapped-IsGiven (ok u, mac) =
      settle-IsGiven _ (started_daemon-IsGiven (on_service start_daemon mac))
  swapped-IsGiven (err e, mac) =
      (restart_unchanged job show_path start_daemon stop_daemon e mac, refl)

  -- With one unit of fuel more than there are tenths of a second to the deadline, an update ends,
  -- whatever fails; a turn of the wait must take 100 ms at least.
  pub transact_ends :
      (before : Mac App Service)
      → (end : Result (Unit {0}) Anyhow × Mac App Service) × (transact job show_path start_daemon
            stop_daemon deadline watch
            (suc fuel)
            before
          ≡ some end)
  unfolding transact
  transact_ends before = swapped-IsGiven (swap job.target (candidate job) before)
