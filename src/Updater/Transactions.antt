-- ===== src/Updater/Transactions.antt =====
-- `transact` of crates/updater/src/lib.rs: the swap of the installed application for the new one, and
-- the way back.
use link_pilot.Prelude.{ℕ, String, true, false, Option, none, some, ◌∷◌, Result, ok, err, ◌>>◌, ◌⧺◌}
use link_pilot.Prelude.Anyhow.{Anyhow, anyhow, context, show_chain}
use link_pilot.Prelude.Tasks.{Task}
use link_pilot.Core.Files.{FilePath}
use link_pilot.Updater.Jobs.{Job, candidate}
use link_pilot.Updater.Machines.{Mac, swap, start_app, kill_and_wait, on_service}
use link_pilot.Updater.Waits.{Watch, Waited, await_health}

-- A started child, if any, the result of the closure `installed`, and the state; `none` where the
-- fuel of the wait ran out.
abbrev pub Installed : Type 0 → Type 0 → Type 0
Installed App Service = Option ℕ × Result (Unit {0}) Anyhow × Mac App Service

-- The result of `start_app` without the child.
abbrev pub forget : Result ℕ Anyhow → Result (Unit {0}) Anyhow
forget (ok pid) = ok tt
forget (err e) = err e

module _ {App Service : Type 0} (job : Job) (show_path : FilePath → String)
    (start_daemon stop_daemon : Task Service Anyhow (Unit {0})) where
  -- What follows a failed first swap.
  unfoldable pub restart_unchanged :
      Anyhow → Mac App Service → Result (Unit {0}) Anyhow × Mac App Service
  restart_unchanged error mac =
      let (daemon, mac1) = on_service start_daemon mac in
      let (gui, mac2) = start_app job false mac1 in
      (
        context "restoring daemon after failed swap" daemon
            >> context "restarting unchanged application" (forget gui)
            >> err error,
        mac2,
      )

  -- What follows the swap back.
  unfoldable pub restart_previous :
      (error : Anyhow) (stopped : Result (Unit {0}) Anyhow)
      → Mac App Service
      → Result (Unit {0}) Anyhow × Mac App Service
  restart_previous error stopped mac =
      let (daemon, mac1) = on_service start_daemon mac in
      let (gui, mac2) = start_app job false mac1 in
      (
        context "previous application restored; restarting its daemon failed" daemon
            >> context "restarting previous application" (forget gui)
            >> context "previous version restored, but stopping the failed daemon reported an error"
                stopped
            >> err (anyhow (show_chain error ⧺ "; previous version restored")),
        mac2,
      )

  -- What follows the attempt to swap back.
  unfoldable pub swapped_back :
      (error : Anyhow) (stopped : Result (Unit {0}) Anyhow)
      → Result (Unit {0}) Anyhow × Mac App Service
      → Result (Unit {0}) Anyhow × Mac App Service
  swapped_back error stopped (ok _, mac) = restart_previous error stopped mac
  swapped_back error stopped (err e, mac) = (
    err (
        (show_chain error
          ⧺ ("; rollback failed; previous app retained at " ⧺ show_path (candidate job)))
        ∷ e),
    mac,
  )

  unfoldable pub swap_back : Anyhow → Mac App Service → Result (Unit {0}) Anyhow × Mac App Service
  swap_back error mac =
      let (stopped, mac1) = on_service stop_daemon mac in
      swapped_back error stopped (swap job.target (candidate job) mac1)

  -- What follows the wait for the killed child.
  unfoldable pub waited_for :
      Anyhow
      → Result (Unit {0}) Anyhow × Mac App Service
      → Result (Unit {0}) Anyhow × Mac App Service
  waited_for error (ok _, mac) = swap_back error mac
  waited_for error (err e, mac) = (err e, mac)

  unfoldable pub roll_back :
      Anyhow → Option ℕ → Mac App Service → Result (Unit {0}) Anyhow × Mac App Service
  roll_back error none mac = swap_back error mac
  roll_back error (some child) mac = waited_for error (kill_and_wait child mac)

  module _ (deadline : ℕ) (watch : Watch) (fuel : ℕ) where
    -- The closure `installed` with a child, by what the wait gives.
    unfoldable pub confirmed : ℕ → Mac App Service → Waited → Option (Installed App Service)
    confirmed child mac none = none
    confirmed child mac (some r) = some (some child, r, mac)

    -- The closure behind the start of the app.
    unfoldable pub started_app : Result ℕ Anyhow × Mac App Service → Option (Installed App Service)
    started_app (ok child, mac) = confirmed child mac (await_health job child deadline watch fuel 0)
    started_app (err e, mac) = some (none, err e, mac)

    -- The closure behind the start of the daemon.
    unfoldable pub started_daemon :
        Result (Unit {0}) Anyhow × Mac App Service → Option (Installed App Service)
    started_daemon (ok _, mac) = started_app (start_app job true mac)
    started_daemon (err e, mac) = some (none, err e, mac)

    -- The closure `installed`.
    unfoldable pub install : Mac App Service → Option (Installed App Service)
    install mac = started_daemon (on_service start_daemon mac)

    -- What follows the closure.
    unfoldable pub settle :
        Option (Installed App Service) → Option (Result (Unit {0}) Anyhow × Mac App Service)
    settle none = none
    settle (some (child, ok _, mac)) = some (ok tt, mac)
    settle (some (child, err error, mac)) = some (roll_back error child mac)

    -- What follows the first swap.
    unfoldable pub swapped :
        Result (Unit {0}) Anyhow × Mac App Service
        → Option (Result (Unit {0}) Anyhow × Mac App Service)
    swapped (ok _, mac) = settle (install mac)
    swapped (err error, mac) = some (restart_unchanged error mac)

    unfoldable pub transact : Mac App Service → Option (Result (Unit {0}) Anyhow × Mac App Service)
    transact mac = swapped (swap job.target (candidate job) mac)
