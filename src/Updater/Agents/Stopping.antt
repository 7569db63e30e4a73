-- ===== src/Updater/Agents/Stopping.antt =====
-- The control of the agent ends, and with it the worker (crates/updater/src/lib.rs, `daemon_load` and
-- `run_worker`).
use link_pilot.Prelude.{
  ℕ, zero, suc, ◌+◌, ◌*◌, ◌≤◌, String, ◌≡◌, refl, ap, inl, inr, Bool, true, false, Option, none,
  some, Result, ok, err, arith, leb, Bool-cases, Result-cases,
}
use link_pilot.Prelude.Anyhow.{Anyhow, anyhow}
use link_pilot.Core.Files.{FilePath}
use link_pilot.Updater.Jobs.{Machine}
use link_pilot.Updater.Machines.{Mac}
use link_pilot.Updater.Waits.{Watch}
use link_pilot.Updater.Deadlines.{Ticks, Ends, wait_exit-Ends}
use link_pilot.Updater.Workers.{WorkerHost, Ended, run_worker}
use link_pilot.Updater.Runs.{run_worker_ends}
use link_pilot.Updater.Agents.{
  Agent, previous_pid, is_running, await_daemon, settled_agent, waited_on, after_control,
  control_agent, daemon_load,
}

module _ {Service : Type 0} (agent : Agent Service) (fuel : ℕ)
    (ticks : (s : Service) → Ticks (agent.clock s))
    (enough : (s : Service) → agent.end_of_wait s ≤ agent.clock s 0 + 100 * fuel) where
  await_daemon-Ends :
      (s : Service) (rest turn : ℕ)
      → agent.end_of_wait s ≤ agent.clock s turn + 100 * rest
      → Ends (await_daemon agent s (suc rest) turn)
  unfolding await_daemon
  await_daemon-Ends s zero turn h = elim (Result-cases (agent.status_at s turn)) [
    | inr (e, failed) ↦ (err e, rw (failed, await_daemon) refl)
    | inl (pid, known) ↦ elim (Bool-cases (is_running agent s turn pid)) [
      | inl runs ↦ (ok tt, rw (known, runs, await_daemon) refl)
      | inr waits ↦
          let late : leb (agent.end_of_wait s) (agent.clock s turn) ≡ true = ground arith in
          (err (anyhow "Updated daemon did not start"), rw (known, waits, late, await_daemon) refl)
    ]
  ]
  await_daemon-Ends s (suc rest) turn h = elim (Result-cases (agent.status_at s turn)) [
    | inr (e, failed) ↦ (err e, rw (failed, await_daemon) refl)
    | inl (pid, known) ↦ elim (Bool-cases (is_running agent s turn pid)) [
      | inl runs ↦ (ok tt, rw (known, runs, await_daemon) refl)
      | inr waits ↦ elim (Bool-cases (leb (agent.end_of_wait s) (agent.clock s turn))) [
        | inl late ↦ (
          err (anyhow "Updated daemon did not start"),
          rw (known, waits, late, await_daemon) refl,
        )
        | inr early ↦
            rw (known, waits, early, await_daemon)
              (await_daemon-Ends s rest (suc turn) (omega (arith, ticks s turn)))
      ]
    ]
  ]

  settled_agent-Ends :
      (load : Bool) (previous : Option ℕ) (s : Service)
      → Ends (settled_agent agent load previous (suc fuel) s)
  unfolding settled_agent
  settled_agent-Ends true previous s = await_daemon-Ends s fuel 0 (enough s)
  settled_agent-Ends false none s = (ok tt, refl)
  settled_agent-Ends false (some pid) s =
      wait_exit-Ends (agent.clock s) (ticks s) (agent.end_of_wait s) (agent.pid_text pid)
        (agent.alive_at s pid) fuel 0 (enough s)

  -- What a call of `daemon_load` gives.
  abbrev pub Given : Option (Result (Unit {0}) Anyhow × Service) → Type 0
  Given o = (r : Result (Unit {0}) Anyhow × Service) × (o ≡ some r)

  after_control-Given :
      (load : Bool) (previous : Option ℕ) (o : Result (Unit {0}) Anyhow × Service)
      → Given (after_control agent load previous (suc fuel) o)
  unfolding after_control
  after_control-Given load previous (err e, s) = ((err e, s), refl)
  after_control-Given load previous (ok u, s) =
      let (r, ends) = settled_agent-Ends load previous s in
      ((r, s), ap (λ w. waited_on agent w s) ends)

  control_agent-Given :
      (load : Bool) (previous : Result (Option ℕ) Anyhow) (plist : Result (Unit {0}) Anyhow)
      (s : Service)
      → Given (control_agent agent load previous plist (suc fuel) s)
  unfolding control_agent
  control_agent-Given load (err e) plist s = ((err e, s), refl)
  control_agent-Given load (ok previous) (err e) s = ((err e, s), refl)
  control_agent-Given load (ok previous) (ok u) s =
      after_control-Given load previous (agent.launchctl load s)

  -- `daemon_load` ends, with one unit of fuel more than there are tenths of a second to its deadline.
  pub daemon_load_ends : (load : Bool) (s : Service) → Given (daemon_load agent load (suc fuel) s)
  unfolding daemon_load
  daemon_load_ends load s = control_agent-Given load (previous_pid agent load s) agent.plist s

  -- The worker whose control of the daemon is `daemon_load`, with what it gives.
  abbrev pub controlled : WorkerHost Service → WorkerHost Service
  controlled host = record host {
    load = λ s. (daemon_load_ends true s).0;
    unload = λ s. (daemon_load_ends false s).0;
  }

  -- With one unit of fuel more than there are tenths of a second to the latest of the deadlines, a worker
  -- ends, whatever fails: the wait for the old process, that for the health file, and the two of
  -- `daemon_load`, each time the worker calls it. A turn of each wait must take 100 ms at least.
  pub run_worker-controlled_ends :
      {App : Type 0} (host : WorkerHost Service) (show_path : FilePath → String) (deadline : ℕ)
      (watch : Watch)
      → Ticks watch.now
      → deadline ≤ watch.now 0 + 100 * fuel
      → Ticks host.now
      → host.exit_deadline ≤ host.now 0 + 100 * fuel
      → (machine : Machine) (path : FilePath) (token : String) (before : Mac App Service)
      → (end : Ended App Service) × (run_worker
            (controlled host)
            show_path
            deadline
            watch
            (suc fuel)
            machine
            path
            token
            before
          ≡ some end)
  run_worker-controlled_ends host show_path deadline watch w we h he machine path token before =
      run_worker_ends (controlled host) show_path deadline watch fuel w we h he machine path token
        before
