-- ===== src/Updater/Deadlines.antt =====
-- The loops with a deadline end (crates/updater/src/lib.rs, `wait_exit` and `await_health`).
use link_pilot.Prelude.{
  ℕ, zero, suc, ◌+◌, ◌*◌, ◌≤◌, String, ◌≡◌, ◌⊎◌, inl, inr, refl, Bool, true, false, some, Result,
  ok, err, arith, leb, Bool-cases, Result-cases, subst,
}
use link_pilot.Prelude.Anyhow.{Anyhow}
use link_pilot.Updater.Jobs.{Job}
use link_pilot.Updater.Waits.{
  still_there, exited_early, unconfirmed, Waited, wait_exit, Watch, is_from, await_health,
}

-- A turn sleeps for 100 ms at least.
abbrev pub Ticks : (ℕ → ℕ) → Type 0
Ticks now = (turn : ℕ) → now turn + 100 ≤ now (suc turn)

abbrev pub Ends : Waited → Type 0
Ends w = (r : Result (Unit {0}) Anyhow) × (w ≡ some r)

module _ (now : ℕ → ℕ) (ticks : Ticks now) (deadline : ℕ) where
  nearer :
      (turn fuel : ℕ)
      → deadline ≤ now turn + 100 * suc fuel
      → deadline ≤ now (suc turn) + 100 * fuel
  nearer turn fuel h = omega (arith, ticks turn)

  -- With one unit of fuel more than there are tenths of a second to the deadline, `wait_exit` ends.
  pub wait_exit-Ends :
      (pid : String) (alive : ℕ → Bool) (fuel turn : ℕ)
      → deadline ≤ now turn + 100 * fuel
      → Ends (wait_exit pid deadline alive now (suc fuel) turn)
  unfolding wait_exit
  wait_exit-Ends pid alive zero turn h = elim (Bool-cases (alive turn)) [
    | inr gone ↦ (ok tt, rw (gone, wait_exit) refl)
    | inl here ↦
        let late : leb deadline (now turn) ≡ true = ground arith in
        (err (still_there pid), rw (here, late, wait_exit) refl)
  ]
  wait_exit-Ends pid alive (suc fuel) turn h = elim (Bool-cases (alive turn)) [
    | inr gone ↦ (ok tt, rw (gone, wait_exit) refl)
    | inl here ↦ elim (Bool-cases (leb deadline (now turn))) [
      | inl late ↦ (err (still_there pid), rw (here, late, wait_exit) refl)
      | inr early ↦
          rw (here, early, wait_exit)
            (wait_exit-Ends pid alive fuel (suc turn) (nearer turn fuel h))
    ]
  ]

module _ (job : Job) (child deadline : ℕ) (watch : Watch) where
  -- One turn that neither ends by the child nor confirms.
  abbrev IsOpen : ℕ → Type 0
  IsOpen turn = (watch.exited turn ≡ ok false) × (is_from job child (watch.health turn) ≡ false)

  turn-cases :
      (fuel turn : ℕ)
      → Ends (await_health job child deadline watch (suc fuel) turn)
        ⊎ (IsOpen turn × (leb deadline (watch.now turn) ≡ false))
  unfolding await_health
  turn-cases fuel turn = elim (Result-cases (watch.exited turn)) [
    | inr (e, failed) ↦ inl (err e, rw (failed, await_health) refl)
    | inl (true, known) ↦ inl (err exited_early, rw (known, await_health) refl)
    | inl (false, known) ↦ elim (Bool-cases (is_from job child (watch.health turn))) [
      | inl ours ↦ inl (ok tt, rw (known, ours, await_health) refl)
      | inr other ↦ elim (Bool-cases (leb deadline (watch.now turn))) [
        | inl late ↦ inl (err unconfirmed, rw (known, other, late, await_health) refl)
        | inr early ↦ inr ((known, other), early)
      ]
    ]
  ]

  step_lem :
      (fuel turn : ℕ)
      → IsOpen turn
      → leb deadline (watch.now turn) ≡ false
      → await_health job child deadline watch (suc fuel) turn
        ≡ await_health job child deadline watch fuel (suc turn)
  unfolding await_health
  step_lem fuel turn open_ early = rw (open_.0, open_.1, early, await_health) refl

  -- With one unit of fuel more than there are tenths of a second to the deadline, the wait for the
  -- new app ends; a turn must take 100 ms at least.
  pub await_health-Ends :
      (fuel turn : ℕ)
      → Ticks watch.now
      → deadline ≤ watch.now turn + 100 * fuel
      → Ends (await_health job child deadline watch (suc fuel) turn)
  await_health-Ends zero turn ticks h = elim (turn-cases zero turn) [
    | inl ends ↦ ends
    | inr (waiting, early) ↦ absurd (ground arith)
  ]
  await_health-Ends (suc fuel) turn ticks h = elim (turn-cases (suc fuel) turn) [
    | inl ends ↦ ends
    | inr (waiting, early) ↦
        rw (step_lem (suc fuel) turn waiting early)
          (await_health-Ends fuel (suc turn) ticks (nearer watch.now ticks deadline turn fuel h))
  ]

  -- A wait that ends well has seen, at some turn, the child running and its own health file.
  pub await_health_ok :
      (fuel turn : ℕ)
      → await_health job child deadline watch fuel turn ≡ some (ok tt)
      → (seen : ℕ) × (watch.exited seen ≡ ok false) × (is_from job child (watch.health seen) ≡ true)
  unfolding await_health
  await_health_ok zero turn h = cc
  await_health_ok (suc fuel) turn h = elim (Result-cases (watch.exited turn)) [
    | inr (e, failed) ↦ cc (rw (failed, await_health) at h)
    | inl (true, known) ↦ cc (rw (known, await_health) at h)
    | inl (false, known) ↦ elim (Bool-cases (is_from job child (watch.health turn))) [
      | inl ours ↦ (turn, known, ours)
      | inr other ↦ elim (Bool-cases (leb deadline (watch.now turn))) [
        | inl late ↦ cc (rw (known, other, late, await_health) at h)
        | inr early ↦ await_health_ok fuel (suc turn) (rw (known, other, early, await_health) at h)
      ]
    ]
  ]

  -- The turns before a number find the child running, and the deadline ahead.
  abbrev pub RunsUntil : ℕ → Type 0
  RunsUntil seen =
      (turn : ℕ)
      → turn ≤ seen
      → (watch.exited turn ≡ ok false) × (leb deadline (watch.now turn) ≡ false)

  live_lem :
      (rest turn : ℕ)
      → RunsUntil (turn + rest)
      → is_from job child (watch.health (turn + rest)) ≡ true
      → await_health job child deadline watch (suc rest) turn ≡ some (ok tt)
  unfolding await_health
  live_lem zero turn runs ours =
      let here = runs turn (omega arith) in
      let now_ : is_from job child (watch.health turn) ≡ true =
        subst (λ n. is_from job child (watch.health n) ≡ true) (omega arith) ours in
      rw (here.0, now_, await_health) refl
  live_lem (suc rest) turn runs ours =
      let here = runs turn (omega arith) in
      elim (Bool-cases (is_from job child (watch.health turn))) [
        | inl early_ ↦ rw (here.0, early_, await_health) refl
        | inr other ↦
            rw (here.0, other, here.1, await_health)
              (live_lem rest (suc turn) (λ t k. runs t (omega arith))
                (subst (λ n. is_from job child (watch.health n) ≡ true) (omega arith) ours))
      ]

  -- A child that keeps running and writes its health file before the deadline is confirmed.
  pub await_health-live :
      (seen : ℕ)
      → RunsUntil seen
      → is_from job child (watch.health seen) ≡ true
      → await_health job child deadline watch (suc seen) 0 ≡ some (ok tt)
  await_health-live seen runs ours =
      live_lem seen 0 (λ t k. runs t (omega arith))
        (subst (λ n. is_from job child (watch.health n) ≡ true) (omega arith) ours)
