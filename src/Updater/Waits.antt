-- ===== src/Updater/Waits.antt =====
-- The loops with a deadline of crates/updater/src/lib.rs. The turns of a loop are numbered; what the
-- system answers at a turn, and the clock in milliseconds, are functions of the turn. A loop has
-- fuel, and `none` means that it ran out.
use link_pilot.Prelude.{
  ℕ, zero, suc, String, Bool, false, ◌&&◌, Option, none, some, Result, ok, err, if◌then◌else◌, eqb,
  leb, ◌==◌, ◌⧺◌,
}
use link_pilot.Prelude.Anyhow.{Anyhow, anyhow}
use link_pilot.Updater.Jobs.{Job, Health}

abbrev pub Waited : Type 0
Waited = Option (Result (Unit {0}) Anyhow)

abbrev pub still_there : String → Anyhow
still_there pid = anyhow ("Process " ⧺ (pid ⧺ " did not exit; update cancelled"))

abbrev pub exited_early : Anyhow
exited_early = anyhow "Updated LinkPilot exited before becoming ready"

abbrev pub unconfirmed : Anyhow
unconfirmed = anyhow "Updated LinkPilot did not confirm startup"

-- `wait_exit`: `alive` at each turn, and the clock at the test of the deadline.
unfoldable pub wait_exit :
    String → (deadline : ℕ) → (alive : ℕ → Bool) → (now : ℕ → ℕ) → (fuel turn : ℕ) → Waited
wait_exit pid deadline alive now zero turn = none
wait_exit pid deadline alive now (suc fuel) turn =
    let rest = wait_exit pid deadline alive now fuel (suc turn) in
    if alive turn
    then if leb deadline (now turn) then some (err (still_there pid)) else rest
    else some (ok tt)

-- The answers at each turn: `try_wait`, with `true` for a child that exited, and the health file
-- where it is there and reads as one.
pub record Watch : Type 0 where
  pub exited : ℕ → Result Bool Anyhow
  pub health : ℕ → Option Health
  pub now : ℕ → ℕ

-- The health file is of this job and of this child.
abbrev pub is_from : Job → ℕ → Option Health → Bool
is_from job child none = false
is_from job child (some health) =
    health.token == job.token && (health.version == job.version && eqb health.pid child)

unfoldable pub await_health : Job → (child deadline : ℕ) → Watch → (fuel turn : ℕ) → Waited
await_health job child deadline watch zero turn = none
await_health job child deadline watch (suc fuel) turn =
    let rest = await_health job child deadline watch fuel (suc turn) in
    elim (watch.exited turn) [
      | err e ↦ some (err e)
      | ok gone ↦
          if gone
          then some (err exited_early)
          else if is_from job child (watch.health turn)
          then some (ok tt)
          else if leb deadline (watch.now turn)
          then some (err unconfirmed)
          else rest
    ]
