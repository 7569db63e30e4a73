-- ===== src/Core/Daemon.antt =====
-- crates/core/src/daemon.rs: `DaemonRuntime`, the state behind the request handlers.
pub mod Replies
use link_pilot.Prelude.{
  ℕ, String, Bool, true, false, Option, none, some, List, [], ◌∷◌, ◌++◌, ◌⧺◌, Result, ok, err,
  unwrap_or, length,
}
use link_pilot.Core.Browser.{BrowserTarget, InstalledBrowser}
use link_pilot.Core.Rules.{Uuid}
use link_pilot.Core.Config.{ConfigDocument, WriterId}
use link_pilot.Core.Files.{FilePath}
use link_pilot.Core.Store.Documents.{ConfigError, SerdeJson}
use link_pilot.Core.Store.Stores.{World, replace}
use link_pilot.Core.Routing.Context.{
  UrlCrate, RoutingContext, RoutingDecision, open_with, allow, ask_among, blocked, Explained,
}
use link_pilot.Core.Routing.Evaluate.{evaluate, evaluate_explained_with_ask_shortcut}
use link_pilot.Core.History.{RouteRecord, RouteHistory, with_explanation, log, recent}
use link_pilot.Core.Protocol.{Request, Response, DoctorReport}

-- The platform's answers. `open target url` is a result of `UrlLauncher::open`, with the error's
-- text; `launch` adds the call to the list of those made.
pub record Platform (Url : Type 0) : Type 0 where
  pub is_linkpilot_default : Result Bool String
  pub installed_browsers : Result (List InstalledBrowser) String
  pub open_url : BrowserTarget → Url → Result (Unit {0}) String

-- What a daemon owns, and the calls of the launcher so far, the last one first.
pub record Runtime (Url : Type 0) : Type 0 where
  pub config : World
  pub history : RouteHistory
  pub version : String
  pub launches : List (BrowserTarget × Url)

-- The parameters of the handlers: the crates `url` and `serde_json`, the platform, the path of the
-- configuration, its displayed form and that of the endpoint, and the display of a `ConfigError`.
pub record Host (Url Value : Type 0) : Type 0 where
  pub urls : UrlCrate Url
  pub json : SerdeJson Value
  pub platform : Platform Url
  pub path : FilePath
  pub path_text : String
  pub endpoint_text : String
  pub show_error : ConfigError → String

-- `unwrap_or` on a `Result`.
abbrev pub or_default : {A : Type 0} → Result A String → A → A
or_default (ok a) d = a
or_default (err e) d = d

module _ {Url Value : Type 0} (host : Host Url Value) where
  -- A call of `url_launcher().open`.
  unfoldable pub launch : BrowserTarget → Url → Runtime Url → Result (Unit {0}) String × Runtime Url
  launch target url rt =
      (host.platform.open_url target url, record rt { launches = (target, url) ∷ rt.launches })

  -- `now` is what `now_ms` answers.
  unfoldable pub evaluate_and_log_with_ask_shortcut :
      ℕ → RoutingContext → Bool → Runtime Url → (Explained × RouteRecord) × Runtime Url
  evaluate_and_log_with_ask_shortcut now context pressed rt =
      let explained =
        evaluate_explained_with_ask_shortcut host.urls rt.config.state.doc context pressed in
      let rec = with_explanation now context explained.decision explained.explanation in
      ((explained, rec), record rt { history = log rec rt.history })

  unfoldable pub evaluate_and_log :
      ℕ → RoutingContext → Runtime Url → (Explained × RouteRecord) × Runtime Url
  evaluate_and_log now context rt = evaluate_and_log_with_ask_shortcut now context false rt

  unfoldable pub doctor_report : Runtime Url → DoctorReport
  doctor_report rt = record {
    daemon_version = rt.version;
    is_default_browser = or_default host.platform.is_linkpilot_default false;
    config_path = some host.path_text;
    installed_browser_count = length (or_default host.platform.installed_browsers []);
    ipc_socket_path = some host.endpoint_text;
  }

  -- The end of the arm `Open`: the answer of the launcher.
  unfoldable pub opened :
      String → RoutingDecision → Result (Unit {0}) String × Runtime Url → Response × Runtime Url
  opened id decision (ok _, rt) = (Response.route_decision id decision, rt)
  opened id decision (err e, rt) = (Response.error id "launch-failed" e, rt)

  -- The `match` on the decision in the arm `RouteOpen`.
  unfoldable pub carry_out :
      String → String → RoutingDecision → Runtime Url → Response × Runtime Url
  carry_out id raw_url (open_with target rule reason) rt = elim (host.urls.parse raw_url) [
    | err e ↦ (Response.error id "bad-url" ("parsing " ⧺ (raw_url ⧺ (": " ⧺ e))), rt)
    | ok parsed ↦ opened id (open_with target rule reason) (launch target parsed rt)
  ]
  carry_out id raw_url (ask_among candidates reason) rt = (
    Response.error id "ask-unsupported-headless"
        "Ask requires a GUI picker; not supported in headless daemon",
    rt,
  )
  carry_out id raw_url (allow reason) rt = (Response.route_decision id (allow reason), rt)
  carry_out id raw_url (blocked reason) rt = (Response.route_decision id (blocked reason), rt)

  unfoldable pub replaced : String → Result (Unit {0}) ConfigError → Response
  replaced id (ok _) = Response.ack id
  replaced id (err e) = Response.error id "config-replace" (host.show_error e)

  -- `DaemonRuntime::handle`; `now` and `token` are the time and the identifier drawn on the way.
  unfoldable pub handle : ℕ → Uuid → Request → Runtime Url → Response × Runtime Url
  handle now token (Request.route_evaluate id context) rt =
      (Response.route_decision id (evaluate host.urls rt.config.state.doc context), rt)
  handle now token (Request.route_open id context) rt =
      let (found, rt') = evaluate_and_log now context rt in
      carry_out id context.url found.0.decision rt'
  handle now token (Request.config_get id) rt =
      (Response.config_snapshot id rt.config.state.doc, rt)
  handle now token (Request.config_replace id doc writer) rt =
      let (result, config) = replace host.json host.path token doc writer rt.config in
      (replaced id result, record rt { config = config })
  handle now token (Request.doctor id) rt = (Response.doctor_report id (doctor_report rt), rt)
  handle now token (Request.state_ping id) rt = (Response.pong id rt.version, rt)
  handle now token (Request.route_history id limit) rt =
      (Response.route_history_snapshot id (recent (unwrap_or limit 100) rt.history), rt)
