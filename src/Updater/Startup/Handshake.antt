-- ===== src/Updater/Startup/Handshake.antt =====
-- The updater starts the app and waits for its confirmation, which the app gives
-- (crates/updater/src/lib.rs, `start_app`, `acknowledge_startup` and `await_health`).
use link_pilot.Prelude.{
  Bool-cases, inl, inr, ℕ, suc, String, ◌≡◌, refl, Bool, true, false, some, ok, eqb, ◌==◌, eq_refl,
  arith,
}
use link_pilot.Core.Files.{FilePath, path_eq_iff}
use link_pilot.Updater.Jobs.{Job, Machine, Health, job_path, health_path, app_root, load_job}
use link_pilot.Updater.Waits.{Watch, is_from, await_health}
use link_pilot.Updater.Deadlines.{RunsUntil, await_health-live}
use link_pilot.Updater.Startup.{
  background_arg, job_arg, token_arg, app_program, start_args, background_restart, arg_after,
  Startup, acknowledge_job, acknowledge_token, acknowledge_path, acknowledge_startup,
}

-- Such a start is one in the background, with or without a job.
start_args-background :
    (show_path : FilePath → String) (job : Job) (health : Bool)
    → background_restart (start_args show_path job health) ≡ true
unfolding background_restart start_args
start_args-background show_path job true =
    elim (Bool-cases (show_path (app_program job) == background_arg)) [
      | inl same ↦ rw same refl
      | inr other ↦ rw other refl
    ]
start_args-background show_path job false =
    elim (Bool-cases (show_path (app_program job) == background_arg)) [
      | inl same ↦ rw same refl
      | inr other ↦ rw other refl
    ]

module _ (machine : Machine) (startup : Startup) (job : Job) (show_path : FilePath → String)
    (exe : FilePath) (loads : load_job machine (job_path job) job.token ≡ ok job)
    (runs : startup.current_exe ≡ ok exe) (inside : app_root machine exe ≡ ok job.target)
    (updated : startup.version_of job.target ≡ ok job.version) where
  abbrev answer : Health
  answer = record { token = job.token; version = job.version; pid = startup.pid }

  acknowledge_job_ok :
      acknowledge_job machine startup job.token job ≡ ok (some (health_path job, answer))
  unfolding acknowledge_job
  acknowledge_job_ok =
      rw (runs, inside, (path_eq_iff job.target job.target).1 refl, updated, eq_refl)

  answer-is_from : is_from job startup.pid (some answer) ≡ true
  answer-is_from =
      let same : eqb startup.pid startup.pid ≡ true = ground arith in rw (eq_refl, eq_refl, same)

  module _ (reads : startup.path_of (show_path (job_path job)) ≡ job_path job)
      (program-job : show_path (app_program job) == job_arg ≡ false)
      (program-token : show_path (app_program job) == token_arg ≡ false)
      (path-token : show_path (job_path job) == token_arg ≡ false) where
    args-job :
        arg_after job_arg (start_args show_path job true) ≡ some (some (show_path (job_path job)))
    unfolding arg_after start_args
    args-job = rw program-job

    args-token : arg_after token_arg (start_args show_path job true) ≡ some (some job.token)
    unfolding arg_after start_args
    args-token = rw (program-token, path-token)

    acknowledged :
        acknowledge_startup machine startup (start_args show_path job true)
        ≡ ok (some (health_path job, answer))
    unfolding acknowledge_startup acknowledge_path acknowledge_token
    acknowledged = rw (args-job, args-token, reads, loads) acknowledge_job_ok

    -- The app that `start_app` starts knows that it starts in the background. When it loads the job,
    -- runs from the target and has the version of the job, it answers with a health file of this job;
    -- when it runs, before the deadline, until a turn at which that file is read, the updater takes the
    -- start as confirmed. The path of the job must read back from its text, and the texts of the
    -- program and of that path must not be those of the arguments' names.
    pub startup_confirmed :
        (deadline : ℕ) (watch : Watch) (seen : ℕ)
        → RunsUntil job startup.pid deadline watch seen
        → watch.health seen ≡ some answer
        → (background_restart (start_args show_path job true) ≡ true)
          × (acknowledge_startup machine startup (start_args show_path job true)
              ≡ ok (some (health_path job, answer)))
          × (await_health job startup.pid deadline watch (suc seen) 0 ≡ some (ok tt))
    startup_confirmed deadline watch seen until written = (
      start_args-background show_path job true,
      acknowledged,
      await_health-live job startup.pid deadline watch seen until (rw written answer-is_from),
    )
