-- ===== src/Updater/Installing.antt =====
-- What the closure `installed` of an update leaves (crates/updater/src/lib.rs, `transact`).
use link_pilot.Prelude.{
  ℕ, String, ◌≡◌, ◌⊎◌, inl, inr, refl, ap, sym, ◌∙◌, subst, true, false, Option, none, some, ◌∷◌,
  Result, ok, err, Result-cases, Option-cases,
}
use link_pilot.Prelude.Anyhow.{Anyhow}
use link_pilot.Prelude.Tasks.{Task}
use link_pilot.Core.Files.{FilePath}
use link_pilot.Updater.Jobs.{Job}
use link_pilot.Updater.Machines.{Mac, start_app, spawned, on_service}
use link_pilot.Updater.Waits.{Watch, is_from, await_health}
use link_pilot.Updater.Deadlines.{await_health_ok}
use link_pilot.Updater.Rollback.{Frame}
use link_pilot.Updater.Transactions.{Installed, confirmed, started_app, started_daemon, install}

module _ {App Service : Type 0} (job : Job) (show_path : FilePath → String)
    (start_daemon stop_daemon : Task Service Anyhow (Unit {0})) (deadline : ℕ) (watch : Watch)
    (fuel : ℕ) where
  -- The app that stood at the target was started with the job, and at some turn it was running and
  -- its own health file was there.
  pub record Confirmed (before after : Mac App Service) : Type 0 where
    pub child : ℕ
    pub seen : ℕ
    pub started :
        after.started
        ≡ record { app = before.apps job.target; health = true; pid = child } ∷ before.started
    pub running : watch.exited seen ≡ ok false
    pub ours : is_from job child (watch.health seen) ≡ true

  -- What the closure `installed` leaves.
  pub record Installs (before : Mac App Service) (r : Result (Unit {0}) Anyhow)
      (after : Mac App Service) : Type 0 where
    pub frame : Frame before after
    pub confirms : r ≡ ok tt → Confirmed before after

  abbrev pub AllInstall : Mac App Service → Option (Installed App Service) → Type 0
  AllInstall before none = Unit {0}
  AllInstall before (some (child, r, after)) = Installs before r after

  confirmed-Installs :
      (child : ℕ) (before mac : Mac App Service)
      → Frame before mac
      → mac.started
        ≡ record { app = before.apps job.target; health = true; pid = child } ∷ before.started
      → AllInstall before (
          confirmed job show_path start_daemon stop_daemon deadline watch fuel child mac
            (await_health job child deadline watch fuel 0))
  unfolding confirmed
  confirmed-Installs child before mac frame there =
      elim (Option-cases (await_health job child deadline watch fuel 0)) [
        | inl stuck ↦ rw (stuck, confirmed) tt
        | inr (r, ended) ↦
            rw (ended, confirmed)
              (record {
                frame = frame;
                confirms = λ h.
                    let (seen, running, ours) =
                      await_health_ok job child deadline watch fuel 0
                        (ended ∙ ap (λ x. some x) h) in
                    record {
                      child = child;
                      seen = seen;
                      started = there;
                      running = running;
                      ours = ours;
                    };
              })
      ]

  -- A start of the app with the job.
  start-cases :
      (mac : Mac App Service)
      → ((child : ℕ) × (after : Mac App Service) × (start_app job true mac ≡ (ok child, after))
          × Frame mac after
          × (after.started
              ≡ record { app = mac.apps job.target; health = true; pid = child } ∷ mac.started))
        ⊎ ((e : Anyhow) × (after : Mac App Service) × (start_app job true mac ≡ (err e, after))
            × Frame mac after)
  unfolding start_app
  start-cases mac = elim (Result-cases (spawned mac.spawns).0) [
    | inl (pid, done) ↦ inl (
      pid,
      record mac {
        spawns = (spawned mac.spawns).1;
        started = record { app = mac.apps job.target; health = true; pid = pid } ∷ mac.started;
      },
      rw (done, start_app) refl,
      record { apps = refl; swaps = refl; waits = refl },
      refl,
    )
    | inr (e, failed) ↦ inr (
      "starting LinkPilot" ∷ e,
      record mac { spawns = (spawned mac.spawns).1 },
      rw (failed, start_app) refl,
      record { apps = refl; swaps = refl; waits = refl },
    )
  ]

  started_app-Installs :
      (mac : Mac App Service)
      → AllInstall mac (
          started_app job show_path start_daemon stop_daemon deadline watch fuel
            (start_app job true mac))
  unfolding started_app
  started_app-Installs mac =
      let P = λ (o : Result ℕ Anyhow × Mac App Service).
        AllInstall mac (started_app job show_path start_daemon stop_daemon deadline watch fuel o) in
      elim (start-cases mac) [
        | inl (child, after, done, frame, there) ↦
            subst P (sym done) (confirmed-Installs child mac after frame there)
        | inr (e, after, failed, frame) ↦
            subst P (sym failed) (record { frame = frame; confirms = λ h. cc })
      ]

  -- Another state with the same bundles, swaps, waits and starts.
  same_install :
      (mac m : Mac App Service) (o : Option (Installed App Service))
      → m.apps ≡ mac.apps
      → m.swaps ≡ mac.swaps
      → m.waits ≡ mac.waits
      → m.started ≡ mac.started
      → AllInstall m o
      → AllInstall mac o
  same_install mac m none a s w t h = tt
  same_install mac m (some (child, r, after)) a s w t h = record {
    frame = record {
      apps = h.frame.apps ∙ a;
      swaps = h.frame.swaps ∙ s;
      waits = h.frame.waits ∙ w;
    };
    confirms = λ fine.
        let c = h.confirms fine in
        record {
          child = c.child;
          seen = c.seen;
          started =
              c.started
              ∙ ap (λ app. record { app = app; health = true; pid = c.child } ∷ m.started)
                  (ap (λ apps. apps job.target) a)
              ∙ ap
                  (λ rest.
                    record { app = mac.apps job.target; health = true; pid = c.child } ∷ rest)
                  t;
          running = c.running;
          ours = c.ours;
        };
  }

  pub install-Installs :
      (mac : Mac App Service)
      → AllInstall mac (install job show_path start_daemon stop_daemon deadline watch fuel mac)
  unfolding install started_daemon
  install-Installs mac =
      let m : Mac App Service = (on_service start_daemon mac).1 in
      elim (Result-cases (start_daemon mac.service).0) [
        | inl (u, done) ↦
            rw (done, started_daemon)
              (same_install mac m _ refl refl refl refl (started_app-Installs m))
        | inr (e, failed) ↦
            rw (failed, started_daemon)
              (record {
                frame = record { apps = refl; swaps = refl; waits = refl };
                confirms = λ h. cc;
              })
      ]
