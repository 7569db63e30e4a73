-- ===== src/Updater/Working.antt =====
-- What the parts of a worker leave (crates/updater/src/lib.rs, `run_worker`).
use link_pilot.Prelude.{
  ℕ, String, ◌≡◌, ◌≢◌, ◌⊎◌, inl, inr, refl, ap, ◌∙◌, Bool, true, false, not, ◌&&◌, Option, none,
  some, Result, ok, err, ◌>>◌, is_some, arith, Bool-cases, Result-cases,
}
use link_pilot.Prelude.Anyhow.{Anyhow}
use link_pilot.Core.Files.{FilePath}
use link_pilot.Updater.Jobs.{Job, Outcome, candidate}
use link_pilot.Updater.Machines.{Mac, exchanged, spawned, start_app, on_service}
use link_pilot.Updater.Waits.{Watch, Waited}
use link_pilot.Updater.Updates.{transact-Transacted}
use link_pilot.Updater.Transactions.{transact, forget}
use link_pilot.Updater.Workers.{
  WorkerHost, Attempt, Ended, error_text, outcome_for, check_update, if_owned, stop_failed,
  stop_owned, is_inside, cleaned, transacted, begin, after_checks, after_exit, restarted,
  bring_back, clean_up, recorded, behind_start, report, finish,
}

none≢some : {o : Outcome} → none ≢ some o
none≢some h = cc

forgotten :
    (gui : Result ℕ Anyhow) (r : Result (Unit {0}) Anyhow) → (forget gui >> r) ≡ ok tt → r ≡ ok tt
forgotten (ok pid) r h = h
forgotten (err e) r h = cc

err≢ok : {e : Anyhow} → err e ≢ ok tt
err≢ok h = cc

module _ {App Service : Type 0} (host : WorkerHost Service) (job : Job) where
  abbrev pub Same : Mac App Service → Mac App Service → Type 0
  Same before after = (path : FilePath) → after.apps path ≡ before.apps path

  -- Both applications in each other's place.
  abbrev pub Exchanged : Mac App Service → Mac App Service → Type 0
  Exchanged before after = after.apps ≡ exchanged job.target (candidate job) before.apps

  -- What the closure leaves: nothing changes in front of the transaction, which leaves the
  -- applications in their places or exchanged, and exchanged where it ends well.
  pub record Tried (before : Mac App Service) (o : Result (Unit {0}) Anyhow × Mac App Service)
      : Type 0 where
    pub whole : Same before o.1 ⊎ Exchanged before o.1
    pub good : o.0 ≡ ok tt → Exchanged before o.1

  abbrev pub AllTried : Mac App Service → Option (Attempt App Service) → Type 0
  AllTried before none = Unit {0}
  AllTried before (some a) = Tried before (a.result, a.mac)

  before-Tried :
      (before mac : Mac App Service) (e : Anyhow)
      → mac.apps ≡ before.apps
      → Tried before (err e, mac)
  before-Tried before mac e same = record {
    whole = inl (λ path. ap (λ f. f path) same);
    good = λ h. absurd (err≢ok h);
  }

  apps-stop_failed :
      (o : Result (Unit {0}) Anyhow × Mac App Service) → (stop_failed host o).1.apps ≡ o.1.apps
  unfolding stop_failed
  apps-stop_failed (ok u, mac) = refl
  apps-stop_failed (err e, mac) = refl

  apps-stop_owned :
      (daemon : Bool) (mac : Mac App Service) → (stop_owned host daemon mac).1.apps ≡ mac.apps
  unfolding stop_owned
  apps-stop_owned false mac = refl
  apps-stop_owned true mac = apps-stop_failed (on_service host.unload mac)

  -- Outside of the workspace both are in each other's place.
  abbrev pub ExchangedOutside : Mac App Service → Mac App Service → Type 0
  ExchangedOutside before after =
      (path : FilePath)
      → is_inside job.workspace path ≡ false
      → after.apps path ≡ exchanged job.target (candidate job) before.apps path

  -- What is recorded and left at the end. The candidate, and with it the previous application, is in
  -- the workspace.
  pub record Worked (before : Mac App Service) (e : Ended App Service) : Type 0 where
    pub success :
        e.result ≡ ok tt
        → ExchangedOutside before e.mac
          × ((path : FilePath) → is_inside job.workspace path ≡ true → e.mac.apps path ≡ none)
          × (e.outcome ≡ some (outcome_for job (ok tt)))
          × (e.workspace ≡ false)
    pub kept : e.workspace ≡ false → e.result ≡ ok tt
    -- Nothing is lost but in the removal that follows a success that was recorded.
    pub whole :
        (Same before e.mac ⊎ Exchanged before e.mac)
        ⊎ ((e.outcome ≡ some (outcome_for job (ok tt))) × ExchangedOutside before e.mac)
    pub told :
        (o : Outcome)
        → e.outcome ≡ some o
        → (o.version ≡ job.version) × (o.error ≡ none → ExchangedOutside before e.mac)

  module _ (show_path : FilePath → String) (deadline : ℕ) (watch : Watch) (fuel : ℕ) where
    transacted-Tried :
        (daemon : Bool) (before mac : Mac App Service)
        (o : Option (Result (Unit {0}) Anyhow × Mac App Service))
        → mac.apps ≡ before.apps
        → transact job show_path
            (if_owned daemon host.load)
            (if_owned daemon host.unload)
            deadline
            watch
            fuel
            mac
          ≡ o
        → AllTried before (transacted o)
    unfolding transacted
    transacted-Tried daemon before mac none same h = tt
    transacted-Tried daemon before mac (some (r, after)) same h =
        let t =
          transact-Transacted job show_path (if_owned daemon host.load)
            (if_owned daemon host.unload) deadline watch fuel mac after r h in
        record {
          whole = elim t.whole [
            | inl stayed ↦ inl (λ path. stayed path ∙ ap (λ f. f path) same)
            | inr turned ↦ inr (turned ∙ ap (exchanged job.target (candidate job)) same)
          ];
          good = λ e. (t.installed e).0 ∙ ap (exchanged job.target (candidate job)) same;
        }

    begin-Tried :
        (daemon : Bool) (before : Mac App Service) (o : Result (Unit {0}) Anyhow × Mac App Service)
        → o.1.apps ≡ before.apps
        → AllTried before (begin host show_path deadline watch fuel job daemon o)
    unfolding begin
    begin-Tried daemon before (err e, mac) same = before-Tried before mac e same
    begin-Tried daemon before (ok u, mac) same = transacted-Tried daemon before mac _ same refl

    after_checks-Tried :
        (r : Result Bool Anyhow) (before : Mac App Service)
        → AllTried before (after_checks host show_path deadline watch fuel job r before)
    unfolding after_checks
    after_checks-Tried (err e) before = before-Tried before before e refl
    after_checks-Tried (ok daemon) before =
        begin-Tried daemon before (stop_owned host daemon before) (apps-stop_owned daemon before)

    pub after_exit-Tried :
        (w : Waited) (before : Mac App Service)
        → AllTried before (after_exit host show_path deadline watch fuel job w before)
    unfolding after_exit
    after_exit-Tried none before = tt
    after_exit-Tried (some (err e)) before = before-Tried before before e refl
    after_exit-Tried (some (ok u)) before = after_checks-Tried (check_update host job) before

  apps-start_app :
      (health : Bool) (mac : Mac App Service) → (start_app job health mac).1.apps ≡ mac.apps
  unfolding start_app
  apps-start_app health mac = elim (Result-cases (spawned mac.spawns).0) [
    | inl (pid, started) ↦ ground arith
    | inr (e, failed) ↦ ground arith
  ]

  behind_start-Tried :
      (before mac : Mac App Service) (r : Result (Unit {0}) Anyhow)
      (o : Result ℕ Anyhow × Mac App Service)
      → Tried before (r, mac)
      → o.1.apps ≡ mac.apps
      → Tried before (behind_start host r o)
  unfolding behind_start
  behind_start-Tried before mac r (gui, mac') t same = record {
    whole = elim t.whole [
      | inl stayed ↦ inl (λ path. ap (λ f. f path) same ∙ stayed path)
      | inr turned ↦ inr (same ∙ turned)
    ];
    good = λ h. same ∙ t.good (forgotten gui r h);
  }

  restarted-Tried :
      (before mac : Mac App Service) (r : Result (Unit {0}) Anyhow)
      → Tried before (r, mac)
      → Tried before (restarted host job (r, mac))
  unfolding restarted
  restarted-Tried before mac r t =
      behind_start-Tried before mac r (start_app job false mac) t (apps-start_app false mac)

  bring_back-Tried :
      (before : Mac App Service) (a : Attempt App Service)
      → Tried before (a.result, a.mac)
      → Tried before (bring_back host job a)
  unfolding bring_back
  bring_back-Tried before a t =
      elim (Bool-cases (is_some (error_text a.result) && (not a.started && not host.still_alive))) [
        | inl again ↦ rw again (restarted-Tried before a.mac a.result t)
        | inr left ↦ rw left t
      ]

  cleaned-outside :
      (before mac : Mac App Service) (removed : FilePath → Bool)
      → Exchanged before mac
      → ExchangedOutside before (cleaned job removed mac)
  unfolding cleaned
  cleaned-outside before mac removed turned path outside = rw outside (ap (λ f. f path) turned)

  cleaned-inside :
      (mac : Mac App Service) (path : FilePath)
      → is_inside job.workspace path ≡ true
      → (cleaned job (λ p. true) mac).apps path ≡ none
  unfolding cleaned
  cleaned-inside mac path inside = rw inside refl

  clean_up-Worked :
      (before mac : Mac App Service) (r : Result (Unit {0}) Anyhow)
      → Tried before (r, mac)
      → Worked before (clean_up host job r mac)
  unfolding clean_up cleaned
  clean_up-Worked before mac (err e) t = record {
    success = λ h. absurd (err≢ok h);
    kept = λ h. cc;
    whole = inl t.whole;
    told = λ o h. (ground arith, λ k. absurd (cc));
  }
  clean_up-Worked before mac (ok u) t = elim (Result-cases host.remove_workspace) [
    | inl (v, gone) ↦
        let outside = cleaned-outside before mac (λ p. true) (t.good refl) in
        rw gone record {
          success = λ h. (outside, cleaned-inside mac, refl, refl);
          kept = λ h. refl;
          whole = inr (refl, outside);
          told = λ o h. (ground arith, λ k. outside);
        }
    | inr (e, left) ↦
        let outside = cleaned-outside before mac host.removed (t.good refl) in
        rw left record {
          success = λ h. absurd (err≢ok h);
          kept = λ h. cc;
          whole = inr (refl, outside);
          told = λ o h. (ground arith, λ k. outside);
        }
  ]

  recorded-Worked :
      (before mac : Mac App Service) (r w : Result (Unit {0}) Anyhow)
      → Tried before (r, mac)
      → Worked before (recorded host job w r mac)
  unfolding recorded
  recorded-Worked before mac r (ok u) t = clean_up-Worked before mac r t
  recorded-Worked before mac r (err e) t = record {
    success = λ h. absurd (err≢ok h);
    kept = λ h. cc;
    whole = inl t.whole;
    told = λ o h. absurd (none≢some h);
  }

  report-Worked :
      (before : Mac App Service) (o : Result (Unit {0}) Anyhow × Mac App Service)
      → Tried before o
      → Worked before (report host job o)
  unfolding report
  report-Worked before (r, mac) t = recorded-Worked before mac r host.record_outcome t

  abbrev pub AllWorked : Mac App Service → Option (Ended App Service) → Type 0
  AllWorked before none = Unit {0}
  AllWorked before (some e) = Worked before e

  pub finish-Worked :
      (before : Mac App Service) (o : Option (Attempt App Service))
      → AllTried before o
      → AllWorked before (finish host job o)
  unfolding finish
  finish-Worked before none t = tt
  finish-Worked before (some a) t =
      report-Worked before (bring_back host job a) (bring_back-Tried before a t)
