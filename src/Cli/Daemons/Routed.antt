-- ===== src/Cli/Daemons/Routed.antt =====
-- `lpt open` decides as the routing engine does (crates/cli/src/main.rs, `run_open`).
use link_pilot.Prelude.{
  ℕ, String, ◌≡◌, ◌≢◌, refl, sym, ap, ◌∙◌, subst, Bool, true, false, Result, ok, err, ◌∷◌,
  Result-cases, inl, inr,
}
use link_pilot.Prelude.Anyhow.{Anyhow}
use link_pilot.Core.Config.{ConfigDocument}
use link_pilot.Core.Files.{FilePath}
use link_pilot.Core.Rules.{Uuid}
use link_pilot.Core.Protocol.{Request, Response}
use link_pilot.Core.Routing.Context.{
  RoutingContext, RoutingDecision, open_with, allow, ask_among, blocked,
}
use link_pilot.Core.Routing.Evaluate.{evaluate, evaluate_explained}
use link_pilot.Core.Daemon.{
  Host, Runtime, handle, carry_out, opened, launch, evaluate_and_log,
  evaluate_and_log_with_ask_shortcut,
}
use link_pilot.Core.Store.Stores.{World}
use link_pilot.Cli.Stores.{Env, Fresh, load_store}
use link_pilot.Ipc.Client.{ClientError}
use link_pilot.Cli.Daemons.{
  IpcError, Remote, Session, classify_ipc_error, decision_in, try_daemon_route_open,
  carry_out_local, decide_local, open_local, answered, run_open,
}

module _ {Url Value : Type 0} (remote : Remote Url) (host : Host Url Value) where
  -- A reply with a decision has the one that was carried out.
  decision_in-carry_out :
      (id url : String) (d : RoutingDecision) (rt : Runtime Url) {d' : RoutingDecision}
      → decision_in remote (carry_out host id url d rt).0 ≡ ok d'
      → d' ≡ d
  unfolding carry_out opened launch
  decision_in-carry_out id url (open_with target rule reason) rt {d'} h =
      elim (Result-cases (host.urls.parse url)) [
        | inr (e, bad) ↦ cc (rw (bad, carry_out) at h)
        | inl (u, good) ↦ elim (Result-cases (host.platform.open_url target u)) [
          | inr (e, failed) ↦ cc (rw (good, carry_out, failed, opened) at h)
          | inl (v, done) ↦ cc (rw (good, carry_out, done, opened) at h)
        ]
      ]
  decision_in-carry_out id url (allow reason) rt h = cc
  decision_in-carry_out id url (ask_among candidates reason) rt h = cc
  decision_in-carry_out id url (blocked reason) rt h = cc

module _ {Url : Type 0} (remote : Remote Url) where
  -- No reply stands for a daemon that is offline.
  decision_in-ne-offline : (r : Response) → decision_in remote r ≢ err IpcError.offline
  decision_in-ne-offline (Response.route_decision id d) h = cc
  decision_in-ne-offline (Response.config_snapshot id d) h = cc
  decision_in-ne-offline (Response.doctor_report id d) h = cc
  decision_in-ne-offline (Response.ack id) h = cc
  decision_in-ne-offline (Response.pong id v) h = cc
  decision_in-ne-offline (Response.error id c m) h = cc
  decision_in-ne-offline (Response.route_history_snapshot id rs) h = cc

  printed-carry_out_local :
      (url : String) (d : RoutingDecision) (s : Session Url)
      → (carry_out_local remote url d s).1.printed ≡ s.printed
  unfolding carry_out_local
  printed-carry_out_local url (open_with target rule reason) s =
      elim (Result-cases (remote.urls.parse url)) [
        | inr (e, bad) ↦ rw (bad, carry_out_local) refl
        | inl (u, good) ↦ rw (good, carry_out_local) refl
      ]
  printed-carry_out_local url (allow reason) s = refl
  printed-carry_out_local url (ask_among candidates reason) s = refl
  printed-carry_out_local url (blocked reason) s = refl

module _ {Url Value : Type 0} (remote : Remote Url) (env : Env Value) (fresh : Fresh)
    (path : FilePath) (ctx : RoutingContext) (s : Session Url) where
  -- The decision that a run printed.
  abbrev Printed : RoutingDecision → Result (Unit {0}) Anyhow × Session Url → Type 0
  Printed d (r, after) = r ≡ ok tt → after.printed ≡ d ∷ s.printed

  answered-Printed :
      (answer : Result RoutingDecision IpcError) {d : RoutingDecision}
      → answer ≡ ok d
      → Printed d (answered remote env fresh path ctx answer s)
  unfolding answered
  answered-Printed (ok d') {d} h = λ r. cc
  answered-Printed (err e) {d} h = cc

  decide_local-Printed :
      (dry_run : Bool) (loaded : Result Bool Anyhow × World)
      → Printed
          (evaluate remote.urls loaded.1.state.doc ctx)
          (decide_local remote env fresh path ctx dry_run loaded s)
  unfolding decide_local
  decide_local-Printed true (ok created, w) h = refl
  decide_local-Printed false (ok created, w) h = printed-carry_out_local remote ctx.url _ _
  decide_local-Printed dry_run (err e, w) h = cc

  -- Where the document comes from that `lpt open` decides on: of a daemon that answers, or, where it
  -- is offline or does not answer in time, of the configuration file.
  pub data From (host : Host Url Value) (now : ℕ) (token : Uuid) : ConfigDocument → Type 0 where
    daemon :
        (rt : Runtime Url) {doc : ConfigDocument}
        → remote.send (Request.route_open remote.request_id ctx)
          ≡ ok (handle host now token (Request.route_open remote.request_id ctx) rt).0
        → rt.config.state.doc ≡ doc
        → From host now token doc
    file :
        (e : ClientError) {doc : ConfigDocument}
        → remote.send (Request.route_open remote.request_id ctx) ≡ err e
        → classify_ipc_error remote e ≡ IpcError.offline
        → (load_store env fresh path s.world).1.state.doc ≡ doc
        → From host now token doc

  -- What the daemon answers, as what is in its reply.
  reply_lem :
      (host : Host Url Value) (now : ℕ) (token : Uuid) (rt : Runtime Url)
      (answer : Result RoutingDecision IpcError)
      → answer
        ≡ decision_in remote (handle host now token (Request.route_open remote.request_id ctx) rt).0
      → Printed
          (evaluate host.urls rt.config.state.doc ctx)
          (answered remote env fresh path ctx answer s)
  unfolding handle evaluate_and_log evaluate_and_log_with_ask_shortcut evaluate evaluate_explained
      answered
  reply_lem host now token rt (ok d) h r =
      ap (λ e. e ∷ s.printed)
        (decision_in-carry_out remote host remote.request_id ctx.url _ _ (sym h))
  reply_lem host now token rt (err IpcError.offline) h r =
      absurd (decision_in-ne-offline remote _ (sym h))
  reply_lem host now token rt (err (IpcError.other m)) h r = cc

  offline_lem :
      (e : ClientError)
      → remote.send (Request.route_open remote.request_id ctx) ≡ err e
      → classify_ipc_error remote e ≡ IpcError.offline
      → Printed
          (evaluate remote.urls (load_store env fresh path s.world).1.state.doc ctx)
          (run_open remote env fresh path false false ctx s)
  unfolding run_open try_daemon_route_open open_local answered
  offline_lem e failed off =
      rw (failed, off) (decide_local-Printed false (load_store env fresh path s.world))

  -- `lpt open` without `--local` and `--dry-run`, when it ends without an error, has printed what the
  -- routing engine decides on the document of the headless daemon, where that is what answers, or of
  -- the file where the daemon is offline.
  pub run_open-evaluate :
      (host : Host Url Value) (now : ℕ) (token : Uuid) (doc : ConfigDocument)
      → host.urls ≡ remote.urls
      → From host now token doc
      → (run_open remote env fresh path false false ctx s).0 ≡ ok tt
      → (run_open remote env fresh path false false ctx s).1.printed
        ≡ evaluate remote.urls doc ctx ∷ s.printed
  unfolding run_open try_daemon_route_open open_local answered
  run_open-evaluate host now token doc urls (daemon rt sent same) done =
      reply_lem host now token rt (try_daemon_route_open remote ctx) (rw sent refl) done
      ∙ ap (λ u. evaluate u rt.config.state.doc ctx ∷ s.printed) urls
      ∙ ap (λ d. evaluate remote.urls d ctx ∷ s.printed) same
  run_open-evaluate host now token doc urls (file e failed off same) done =
      subst
        (λ d.
          (run_open remote env fresh path false false ctx s).1.printed
          ≡ evaluate remote.urls d ctx ∷ s.printed)
        same (offline_lem e failed off done)
