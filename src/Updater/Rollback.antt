-- ===== src/Updater/Rollback.antt =====
-- An update leaves the new application, confirmed, or the old one (crates/updater/src/lib.rs,
-- `transact`).
use link_pilot.Prelude.{
  ℕ, String, ◌≡◌, ◌≢◌, ◌⊎◌, inl, inr, refl, ap, sym, ◌∙◌, subst, Bool, true, false, Option, none,
  some, [], ◌∷◌, Result, ok, err, ◌>>◌, arith, Bool-cases, Result-cases, Option-cases, ◌⧺◌,
}
use link_pilot.Prelude.Anyhow.{Anyhow, anyhow, context, show_chain}
use link_pilot.Prelude.Tasks.{Task}
use link_pilot.Core.Files.{FilePath, path_eq_iff}
use link_pilot.Updater.Jobs.{Job, candidate}
use link_pilot.Updater.Machines.{
  Mac, swap, exchanged, both, first_of, rest_of, start_app, kill_and_wait, spawned, on_service,
}
use link_pilot.Updater.Transactions.{
  forget, restart_unchanged, restart_previous, swap_back, roll_back, swapped_back, waited_for,
}

-- Two exchanges are none.
pub exchanged_twice :
    {App : Type 0} (l r : FilePath) (apps : FilePath → Option App) (p : FilePath)
    → exchanged l r (exchanged l r apps) p ≡ apps p
exchanged_twice l r apps p =
    ground
      (arith, path_eq_iff p l, path_eq_iff p r, path_eq_iff r l, path_eq_iff l l, path_eq_iff r r)

pub both-exchanged :
    {App : Type 0} (l r : FilePath) (apps : FilePath → Option App)
    → both (apps l) (apps r) ≡ true
    → both (exchanged l r apps l) (exchanged l r apps r) ≡ true
both-exchanged l r apps h = ground (arith, path_eq_iff l l, path_eq_iff r l, path_eq_iff r r)

module _ {App Service : Type 0} where
  -- Bundles, swaps and waits are as before.
  pub record Frame (before after : Mac App Service) : Type 0 where
    pub apps : after.apps ≡ before.apps
    pub swaps : after.swaps ≡ before.swaps
    pub waits : after.waits ≡ before.waits

  pub start_app-Frame :
      (job : Job) (health : Bool) (mac : Mac App Service) → Frame mac (start_app job health mac).1
  unfolding start_app
  start_app-Frame job health mac = elim (Result-cases (spawned mac.spawns).0) [
    | inl (pid, done) ↦ rw (done, start_app) (record { apps = refl; swaps = refl; waits = refl })
    | inr (e, failed) ↦ rw (failed, start_app) (record { apps = refl; swaps = refl; waits = refl })
  ]

  -- A swap goes through, or changes no bundle.
  pub swap-cases :
      (l r : FilePath) (mac : Mac App Service)
      → ((both (mac.apps l) (mac.apps r) ≡ true)
          × (swap l r mac
              ≡ (ok tt, record mac { apps = exchanged l r mac.apps; swaps = rest_of mac.swaps })))
        ⊎ ((e : Anyhow) × (swap l r mac ≡ (err e, record mac { swaps = rest_of mac.swaps })))
  unfolding swap
  swap-cases l r mac = elim (Option-cases (first_of mac.swaps)) [
    | inr (e, failed) ↦ inr ("atomic application swap failed" ∷ e, rw (failed, swap) refl)
    | inl fine ↦ elim (Bool-cases (both (mac.apps l) (mac.apps r))) [
      | inl there ↦ inl (there, rw (fine, there, swap) refl)
      | inr missing ↦ inr (
        "atomic application swap failed" ∷ "No such file or directory" ∷ [],
        rw (fine, missing, swap) refl,
      )
    ]
  ]

  -- With both there and nothing in the way, it goes through.
  swap_ok :
      (l r : FilePath) (mac : Mac App Service)
      → mac.swaps ≡ []
      → both (mac.apps l) (mac.apps r) ≡ true
      → (swap l r mac).0 ≡ ok tt
  unfolding swap
  swap_ok l r mac clear there =
      let fine : first_of mac.swaps ≡ none = ap first_of clear in rw (fine, there, swap) refl

abbrev pub failed : Anyhow → Result (Unit {0}) Anyhow
failed e = err e

never_ok : (m : Result (Unit {0}) Anyhow) (e : Anyhow) → (m >> failed e) ≢ ok tt
never_ok (ok u) e h = cc
never_ok (err f) e h = cc

pub none-some : {e : Anyhow} → none ≢ some e
none-some h = cc

pub err_ok : {e : Anyhow} → failed e ≢ ok tt
err_ok h = cc

module _ {App Service : Type 0} where
  kill_and_wait-cases :
      (child : ℕ) (mac : Mac App Service)
      → (kill_and_wait child mac
          ≡ (ok tt, record mac { killed = child ∷ mac.killed; waits = rest_of mac.waits }))
        ⊎ ((e : Anyhow) × (first_of mac.waits ≡ some e)
            × (kill_and_wait child mac
                ≡ (err e, record mac { killed = child ∷ mac.killed; waits = rest_of mac.waits })))
  unfolding kill_and_wait
  kill_and_wait-cases child mac = elim (Option-cases (first_of mac.waits)) [
    | inr (e, stuck) ↦ inr (e, stuck, rw (stuck, kill_and_wait) refl)
    | inl fine ↦ inl (rw (fine, kill_and_wait) refl)
  ]

module _ {App Service : Type 0} (job : Job) (show_path : FilePath → String)
    (start_daemon stop_daemon : Task Service Anyhow (Unit {0})) where
  -- The bundles of the job in each other's place.
  abbrev pub Swapped : (before after : FilePath → Option App) → Type 0
  Swapped before after = after ≡ exchanged job.target (candidate job) before

  abbrev pub Both : Mac App Service → Type 0
  Both mac = both (mac.apps job.target) (mac.apps (candidate job)) ≡ true

  pub apps-restart_unchanged :
      (e : Anyhow) (mac : Mac App Service)
      → ((restart_unchanged job show_path start_daemon stop_daemon e mac).0 ≢ ok tt)
        × ((restart_unchanged job show_path start_daemon stop_daemon e mac).1.apps ≡ mac.apps)
  unfolding restart_unchanged
  apps-restart_unchanged e mac = (
    never_ok
        (context "restoring daemon after failed swap" (on_service start_daemon mac).0
          >> context "restarting unchanged application"
              (forget (start_app job false (on_service start_daemon mac).1).0))
        e,
    (start_app-Frame job false (on_service start_daemon mac).1).apps,
  )

  apps-restart_previous :
      (e : Anyhow) (stopped : Result (Unit {0}) Anyhow) (mac : Mac App Service)
      → ((restart_previous job show_path start_daemon stop_daemon e stopped mac).0 ≢ ok tt)
        × ((restart_previous job show_path start_daemon stop_daemon e stopped mac).1.apps
            ≡ mac.apps)
  unfolding restart_previous
  apps-restart_previous e stopped mac = (
    never_ok
        (context "previous application restored; restarting its daemon failed"
            (on_service start_daemon mac).0
          >> context "restarting previous application"
              (forget (start_app job false (on_service start_daemon mac).1).0)
          >> context "previous version restored, but stopping the failed daemon reported an error"
              stopped)
        (anyhow (show_chain e ⧺ "; previous version restored")),
    (start_app-Frame job false (on_service start_daemon mac).1).apps,
  )

  -- What a way back leaves, by where it starts.
  pub record Back (before : Mac App Service) (r : Result (Unit {0}) Anyhow)
      (after : Mac App Service) : Type 0 where
    pub fails : r ≢ ok tt
    pub either : (after.apps ≡ before.apps) ⊎ Swapped before.apps after.apps
    pub restores :
        before.swaps ≡ [] → before.waits ≡ [] → Both before → Swapped before.apps after.apps

  swap_back-Back :
      (e : Anyhow) (mac : Mac App Service)
      → Back mac
          (swap_back job show_path start_daemon stop_daemon e mac).0
          (swap_back job show_path start_daemon stop_daemon e mac).1
  unfolding swap_back swapped_back
  swap_back-Back e mac =
      let m : Mac App Service = (on_service stop_daemon mac).1 in
      let stopped : Result (Unit {0}) Anyhow = (on_service stop_daemon mac).0 in
      let P = λ (o : Result (Unit {0}) Anyhow × Mac App Service).
        Back mac (swapped_back job show_path start_daemon stop_daemon e stopped o).0
          (swapped_back job show_path start_daemon stop_daemon e stopped o).1 in
      elim (swap-cases job.target (candidate job) m) [
        | inr (f, stuck) ↦ subst P (sym stuck) (record {
          fails = λ h. cc;
          either = inl refl;
          restores = λ clear waits there. absurd (
              err_ok
                (sym (ap (λ p. p.0) stuck) ∙ swap_ok job.target (candidate job) m clear there));
        })
        | inl (there, done) ↦
            let previous = apps-restart_previous e stopped (record m {
              apps = exchanged job.target (candidate job) m.apps;
              swaps = rest_of m.swaps;
            }) in
            subst P (sym done) (record {
              fails = previous.0;
              either = inr previous.1;
              restores = λ clear waits there. previous.1;
            })
      ]

  pub roll_back-Back :
      (e : Anyhow) (child : Option ℕ) (mac : Mac App Service)
      → Back mac
          (roll_back job show_path start_daemon stop_daemon e child mac).0
          (roll_back job show_path start_daemon stop_daemon e child mac).1
  unfolding roll_back waited_for
  roll_back-Back e none mac = swap_back-Back e mac
  roll_back-Back e (some child) mac =
      let P = λ (o : Result (Unit {0}) Anyhow × Mac App Service).
        Back mac (waited_for job show_path start_daemon stop_daemon e o).0
          (waited_for job show_path start_daemon stop_daemon e o).1 in
      elim (kill_and_wait-cases child mac) [
        | inr (f, stuck, done) ↦ subst P (sym done) (record {
          fails = λ h. cc;
          either = inl refl;
          restores = λ clear waits there. absurd (none-some (sym (ap first_of waits) ∙ stuck));
        })
        | inl done ↦
            let back =
              swap_back-Back e
                (record mac { killed = child ∷ mac.killed; waits = rest_of mac.waits }) in
            subst P (sym done) (record {
              fails = back.fails;
              either = back.either;
              restores = λ clear waits there. back.restores clear (ap rest_of waits) there;
            })
      ]
