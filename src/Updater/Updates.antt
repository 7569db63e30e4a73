-- ===== src/Updater/Updates.antt =====
-- An update leaves the new application, confirmed, or the old one (crates/updater/src/lib.rs,
-- `transact`), and it ends.
use link_pilot.Prelude.{
  ℕ, String, ◌≡◌, ◌⊎◌, inl, inr, refl, ap, sym, ◌∙◌, subst, true, Option, none, some, [], Result,
  ok, err,
}
use link_pilot.Prelude.Anyhow.{Anyhow}
use link_pilot.Prelude.Tasks.{Task}
use link_pilot.Core.Files.{FilePath}
use link_pilot.Updater.Jobs.{Job, candidate}
use link_pilot.Updater.Machines.{Mac, exchanged, both, rest_of}
use link_pilot.Updater.Waits.{Watch}
use link_pilot.Updater.Rollback.{
  exchanged_twice, both-exchanged, swap-cases, Swapped, Back, roll_back-Back,
  apps-restart_unchanged,
}
use link_pilot.Updater.Installing.{Confirmed, Installs, AllInstall, install-Installs}
use link_pilot.Updater.Transactions.{Installed, settle, swapped, transact}

module _ {App Service : Type 0} (job : Job) (show_path : FilePath → String)
    (start_daemon stop_daemon : Task Service Anyhow (Unit {0})) (deadline : ℕ) (watch : Watch)
    (fuel : ℕ) where
  -- What an update does, by its result.
  pub record Transacted (before : Mac App Service) (r : Result (Unit {0}) Anyhow)
      (after : Mac App Service) : Type 0 where
    -- After a success the new application stands at the target, and it was started and has
    -- confirmed its start.
    pub installed :
        r ≡ ok tt
        → Swapped job show_path start_daemon stop_daemon before.apps after.apps
          × Confirmed job show_path start_daemon stop_daemon deadline watch fuel
              (record before { apps = exchanged job.target (candidate job) before.apps })
              after
    -- Neither application is ever lost.
    pub whole :
        ((path : FilePath) → after.apps path ≡ before.apps path)
        ⊎ Swapped job show_path start_daemon stop_daemon before.apps after.apps
    -- After an error every application is in its old place, if the swap back and the wait for the
    -- killed child go well.
    pub restored :
        (e : Anyhow)
        → r ≡ err e
        → rest_of before.swaps ≡ []
        → before.waits ≡ []
        → (path : FilePath) → after.apps path ≡ before.apps path

  -- The state after the first swap.
  abbrev Turned : Mac App Service → Mac App Service
  Turned before = record before {
    apps = exchanged job.target (candidate job) before.apps;
    swaps = rest_of before.swaps;
  }

  -- Back where it was, or turned once.
  twice :
      (before : Mac App Service) (apps : FilePath → Option App)
      → Swapped job show_path start_daemon stop_daemon (Turned before).apps apps
      → (path : FilePath) → apps path ≡ before.apps path
  twice before apps h path =
      ap (λ f. f path) h ∙ exchanged_twice job.target (candidate job) before.apps path

  ok-Transacted :
      (before after : Mac App Service)
      → Installs job show_path start_daemon stop_daemon deadline watch fuel
          (Turned before)
          (ok tt)
          after
      → Transacted before (ok tt) after
  ok-Transacted before after i = record {
    installed = λ h.
        let c = i.confirms refl in
        (
          i.frame.apps,
          record {
            child = c.child;
            seen = c.seen;
            started = c.started;
            running = c.running;
            ours = c.ours;
          },
        );
    whole = inr i.frame.apps;
    restored = λ e h. cc;
  }

  err-Transacted :
      (before mac after : Mac App Service) (e : Anyhow) (r : Result (Unit {0}) Anyhow)
      → both (before.apps job.target) (before.apps (candidate job)) ≡ true
      → Installs job show_path start_daemon stop_daemon deadline watch fuel
          (Turned before)
          (err e)
          mac
      → Back job show_path start_daemon stop_daemon mac r after
      → Transacted before r after
  err-Transacted before mac after e r there i back = record {
    installed = λ h. absurd (back.fails h);
    whole = elim back.either [
      | inl same ↦ inr (same ∙ i.frame.apps)
      | inr turned ↦ inl (
          twice before after.apps (turned ∙ ap (exchanged job.target (candidate job)) i.frame.apps))
    ];
    restored = λ f h clear waits. twice before after.apps (
        back.restores (i.frame.swaps ∙ clear) (i.frame.waits ∙ waits) (
          subst (λ apps. both (apps job.target) (apps (candidate job)) ≡ true) (sym i.frame.apps)
            (both-exchanged job.target (candidate job) before.apps there))
        ∙ ap (exchanged job.target (candidate job)) i.frame.apps);
  }

  abbrev AllTransacted :
      Mac App Service → Option (Result (Unit {0}) Anyhow × Mac App Service) → Type 0
  AllTransacted before none = Unit {0}
  AllTransacted before (some (r, after)) = Transacted before r after

  settle-Transacted :
      (before : Mac App Service)
      → both (before.apps job.target) (before.apps (candidate job)) ≡ true
      → (o : Option (Installed App Service))
      → AllInstall job show_path start_daemon stop_daemon deadline watch fuel (Turned before) o
      → AllTransacted before (settle job show_path start_daemon stop_daemon deadline watch fuel o)
  unfolding settle
  settle-Transacted before there none i = tt
  settle-Transacted before there (some (child, ok u, mac)) i = ok-Transacted before mac i
  settle-Transacted before there (some (child, err e, mac)) i =
      err-Transacted before mac _ e _ there i
        (roll_back-Back job show_path start_daemon stop_daemon e child mac)

  all-Transacted :
      (before : Mac App Service)
      → AllTransacted before
          (transact job show_path start_daemon stop_daemon deadline watch fuel before)
  unfolding transact swapped
  all-Transacted before =
      let P = λ (o : Result (Unit {0}) Anyhow × Mac App Service).
        AllTransacted before
          (swapped job show_path start_daemon stop_daemon deadline watch fuel o) in
      elim (swap-cases job.target (candidate job) before) [
        | inl (there, done) ↦ subst P (sym done) (
            settle-Transacted before there _ (
              install-Installs job show_path start_daemon stop_daemon deadline watch fuel
                (Turned before)))
        | inr (e, failed) ↦
            let (bad, same) =
              apps-restart_unchanged job show_path start_daemon stop_daemon e
                (record before { swaps = rest_of before.swaps }) in
            subst P (sym failed) (record {
              installed = λ h. absurd (bad h);
              whole = inl (λ path. ap (λ f. f path) same);
              restored = λ f h clear waits path. ap (λ f. f path) same;
            })
      ]

  -- After an update that ends well the new application stands in the place of the old one and has
  -- confirmed its start; after an error every application is in its old place, if the swap back and
  -- the wait for the killed child go well; and whatever fails, both applications are still there.
  pub transact-Transacted :
      (before after : Mac App Service) (r : Result (Unit {0}) Anyhow)
      → transact job show_path start_daemon stop_daemon deadline watch fuel before ≡ some (r, after)
      → Transacted before r after
  transact-Transacted before after r h = subst (AllTransacted before) h (all-Transacted before)
