-- ===== src/Updater/Agents.antt =====
-- `daemon_load` of crates/updater/src/lib.rs, which loads or unloads the agent of the daemon and waits for
-- its process. The turns of its loops are numbered as in `Waits`. `Stopping` has theorems.
use link_pilot.Prelude.{
  ℕ, zero, suc, String, Bool, true, false, Option, none, some, Result, ok, err, if◌then◌else◌, leb,
}
use link_pilot.Prelude.Anyhow.{Anyhow, anyhow}
use link_pilot.Prelude.Tasks.{Task}
use link_pilot.Updater.Waits.{Waited, wait_exit}
pub mod Stopping

-- The system: the process that `daemon_status` names before the call and at each turn of a wait, the path
-- of the agent's file, the run of `launchctl`, whether a process is alive at a turn, the clock there, and
-- the end of a wait, each for the state of the service that it meets.
pub record Agent (Service : Type 0) : Type 0 where
  pub status : Service → Result (Option ℕ) Anyhow
  pub plist : Result (Unit {0}) Anyhow
  pub launchctl : (load : Bool) → Task Service Anyhow (Unit {0})
  pub status_at : Service → (turn : ℕ) → Result (Option ℕ) Anyhow
  pub alive_at : Service → (pid turn : ℕ) → Bool
  pub clock : Service → (turn : ℕ) → ℕ
  pub end_of_wait : Service → ℕ
  pub pid_text : ℕ → String

module _ {Service : Type 0} (agent : Agent Service) where
  -- `let previous_pid = if load { None } else { daemon_status()?.pid }`
  unfoldable pub previous_pid : (load : Bool) → Service → Result (Option ℕ) Anyhow
  previous_pid true s = ok none
  previous_pid false s = agent.status s

  -- `status.pid.is_some_and(|p| alive(p as u32))`
  unfoldable pub is_running : Service → (turn : ℕ) → Option ℕ → Bool
  is_running s turn none = false
  is_running s turn (some pid) = agent.alive_at s pid turn

  unfoldable pub await_daemon : Service → (fuel turn : ℕ) → Waited
  await_daemon s zero turn = none
  await_daemon s (suc fuel) turn =
      let rest = await_daemon s fuel (suc turn) in
      elim (agent.status_at s turn) [
        | err e ↦ some (err e)
        | ok pid ↦
            if is_running s turn pid
            then some (ok tt)
            else if leb (agent.end_of_wait s) (agent.clock s turn)
            then some (err (anyhow "Updated daemon did not start"))
            else rest
      ]

  -- The wait of either branch.
  unfoldable pub settled_agent : (load : Bool) → Option ℕ → (fuel : ℕ) → Service → Waited
  settled_agent true previous fuel s = await_daemon s fuel 0
  settled_agent false none fuel s = some (ok tt)
  settled_agent false (some pid) fuel s =
      wait_exit (agent.pid_text pid) (agent.end_of_wait s) (agent.alive_at s pid) (agent.clock s)
        fuel 0

  abbrev pub waited_on : Waited → Service → Option (Result (Unit {0}) Anyhow × Service)
  waited_on none s = none
  waited_on (some r) s = some (r, s)

  -- What follows `launchctl`.
  unfoldable pub after_control :
      (load : Bool)
      → Option ℕ
      → (fuel : ℕ) → Result (Unit {0}) Anyhow × Service
      → Option (Result (Unit {0}) Anyhow × Service)
  after_control load previous fuel (err e, s) = some (err e, s)
  after_control load previous fuel (ok _, s) = waited_on (settled_agent load previous fuel s) s

  unfoldable pub control_agent :
      (load : Bool)
      → Result (Option ℕ) Anyhow
      → Result (Unit {0}) Anyhow
      → (fuel : ℕ) → Service
      → Option (Result (Unit {0}) Anyhow × Service)
  control_agent load (err e) plist fuel s = some (err e, s)
  control_agent load (ok previous) (err e) fuel s = some (err e, s)
  control_agent load (ok previous) (ok _) fuel s =
      after_control load previous fuel (agent.launchctl load s)

  unfoldable pub daemon_load :
      (load : Bool) → (fuel : ℕ) → Service → Option (Result (Unit {0}) Anyhow × Service)
  daemon_load load fuel s = control_agent load (previous_pid load s) agent.plist fuel s
