-- ===== src/Core/Daemon/Replies.antt =====
-- The replies of `DaemonRuntime::handle` (crates/core/src/daemon.rs) and what each request changes.
use link_pilot.Prelude.{
  ℕ, String, ◌≡◌, ◌≢◌, ◌⊎◌, inl, inr, refl, ap, Option, List, ◌∷◌, Result, ok, err, arith,
  Result-cases,
}
use link_pilot.Core.Browser.{BrowserTarget}
use link_pilot.Core.Rules.{Uuid, RuleId}
use link_pilot.Core.Routing.Context.{
  RoutingContext, RoutingDecision, open_with, allow, ask_among, blocked,
}
use link_pilot.Core.Routing.Evaluate.{evaluate, evaluate_explained}
use link_pilot.Core.History.{with_explanation, log}
use link_pilot.Core.Protocol.{Request, Response, request_id, response_id}
use link_pilot.Core.Store.Documents.{ConfigError}
use link_pilot.Core.Daemon.{
  Runtime, Host, launch, evaluate_and_log, evaluate_and_log_with_ask_shortcut, opened, carry_out,
  replaced, handle,
}

module _ {Url Value : Type 0} (host : Host Url Value) where
  carry_out-response_id :
      (id url : String) (d : RoutingDecision) (rt : Runtime Url)
      → response_id (carry_out host id url d rt).0 ≡ id
  unfolding carry_out opened launch response_id
  carry_out-response_id id url (open_with target rule reason) rt = ground arith
  carry_out-response_id id url (allow reason) rt = refl
  carry_out-response_id id url (ask_among candidates reason) rt = refl
  carry_out-response_id id url (blocked reason) rt = refl

  replaced-response_id :
      (id : String) (r : Result (Unit {0}) ConfigError) → response_id (replaced host id r) ≡ id
  unfolding replaced response_id
  replaced-response_id id (ok _) = refl
  replaced-response_id id (err e) = refl

  -- Every reply, an error too, carries the identifier of its request.
  pub handle-response_id :
      (now : ℕ) (token : Uuid) (req : Request) (rt : Runtime Url)
      → response_id (handle host now token req rt).0 ≡ request_id req
  unfolding handle response_id request_id
  handle-response_id now token (Request.route_evaluate id context) rt = refl
  handle-response_id now token (Request.route_open id context) rt =
      carry_out-response_id id context.url _ _
  handle-response_id now token (Request.config_get id) rt = refl
  handle-response_id now token (Request.config_replace id doc writer) rt = replaced-response_id id _
  handle-response_id now token (Request.doctor id) rt = refl
  handle-response_id now token (Request.state_ping id) rt = refl
  handle-response_id now token (Request.route_history id limit) rt = refl

  -- The requests that may change something.
  abbrev pub IsWrite : Request → Type 0
  IsWrite (Request.route_open id context) = Unit {0}
  IsWrite (Request.config_replace id doc writer) = Unit {0}
  IsWrite _ = ⊥

  -- A request other than `RouteOpen` and `ConfigReplace` changes nothing.
  pub handle-reads :
      (now : ℕ) (token : Uuid) (req : Request) (rt : Runtime Url)
      → ¬ IsWrite req
      → (handle host now token req rt).1 ≡ rt
  unfolding handle
  handle-reads now token (Request.route_open id context) rt h = absurd (h tt)
  handle-reads now token (Request.config_replace id doc writer) rt h = absurd (h tt)
  handle-reads now token _ rt h = refl

  -- `Opened d url before reply after`: how a decision `d` is carried out and answered.
  pub record Opened (id url : String) (d : RoutingDecision) (before : Runtime Url)
      (reply : Response) (after : Runtime Url) : Type 0 where
    pub config_kept : after.config ≡ before.config
    pub history_kept : after.history ≡ before.history
    -- The launcher is called at most once, with the target of an `Open` and the parsed address.
    pub called :
        (after.launches ≡ before.launches)
        ⊎ ((target : BrowserTarget) × (rule : Option RuleId) × (reason : String) × (u : Url) × (d
              ≡ open_with target rule reason)
            × (host.urls.parse url ≡ ok u)
            × (after.launches ≡ (target, u) ∷ before.launches))
    -- A reply with the decision means that nothing is left undone.
    pub honest :
        (target : BrowserTarget) (rule : Option RuleId) (reason : String)
        → d ≡ open_with target rule reason
        → reply ≡ Response.route_decision id d
        → (u : Url) × (host.urls.parse url ≡ ok u)
          × (host.platform.open_url target u ≡ ok tt)
          × (after.launches ≡ (target, u) ∷ before.launches)
    -- There is no picker to answer an `Ask`.
    pub unasked :
        (candidates : List BrowserTarget) (reason : String)
        → d ≡ ask_among candidates reason
        → reply ≢ Response.route_decision id d

  carry_out-Opened :
      (id url : String) (d : RoutingDecision) (rt : Runtime Url)
      → Opened id url d rt (carry_out host id url d rt).0 (carry_out host id url d rt).1
  unfolding carry_out opened launch
  carry_out-Opened id url (open_with target rule reason) rt =
      elim (Result-cases (host.urls.parse url)) [
        | inr (e, bad) ↦
            rw (bad, carry_out)
              (record {
                config_kept = refl;
                history_kept = refl;
                called = inl refl;
                honest = λ _ _ _ _. cc;
                unasked = λ _ _. cc;
              })
        | inl (u, good) ↦ elim (Result-cases (host.platform.open_url target u)) [
          | inr (e, failed) ↦
              rw (good, carry_out)
                (rw (failed, opened)
                  (record {
                    config_kept = refl;
                    history_kept = refl;
                    called = inr (target, rule, reason, u, refl, good, refl);
                    honest = λ _ _ _ _. cc;
                    unasked = λ _ _. cc;
                  }))
          | inl (done, launched) ↦
              rw (good, carry_out)
                (rw (launched, opened)
                  (record {
                    config_kept = refl;
                    history_kept = refl;
                    called = inr (target, rule, reason, u, refl, good, refl);
                    honest = λ t r w e reply.
                        let same : target ≡ t = ground arith in
                        (u, good, rw (← same) launched, ap (λ x. (x, u) ∷ rt.launches) same);
                    unasked = λ _ _. cc;
                  }))
        ]
      ]
  carry_out-Opened id url (allow reason) rt = record {
    config_kept = refl;
    history_kept = refl;
    called = inl refl;
    honest = λ _ _ _ e. cc;
    unasked = λ _ _ e. cc;
  }
  carry_out-Opened id url (ask_among candidates reason) rt = record {
    config_kept = refl;
    history_kept = refl;
    called = inl refl;
    honest = λ _ _ _ e. cc;
    unasked = λ _ _ e r. cc;
  }
  carry_out-Opened id url (blocked reason) rt = record {
    config_kept = refl;
    history_kept = refl;
    called = inl refl;
    honest = λ _ _ _ e. cc;
    unasked = λ _ _ e. cc;
  }

  -- `RouteOpen` logs one record, with the decision that `RouteEvaluate` gives for the context, and
  -- carries the decision out: see `Opened`.
  pub handle-route_open :
      (now : ℕ) (token : Uuid) (id : String) (ctx : RoutingContext) (rt : Runtime Url)
      → Opened id ctx.url
          (evaluate host.urls rt.config.state.doc ctx)
          (record rt {
            history =
                log
                  (with_explanation now ctx
                    (evaluate host.urls rt.config.state.doc ctx)
                    (evaluate_explained host.urls rt.config.state.doc ctx).explanation)
                  rt.history;
          })
          (handle host now token (Request.route_open id ctx) rt).0
          (handle host now token (Request.route_open id ctx) rt).1
  unfolding handle evaluate_and_log evaluate_and_log_with_ask_shortcut evaluate evaluate_explained
  handle-route_open now token id ctx rt = carry_out-Opened id ctx.url _ _
