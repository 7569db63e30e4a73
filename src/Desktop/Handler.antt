-- ===== src/Desktop/Handler.antt =====
-- The ways into the app from outside: apps/desktop/src-tauri/src/ipc_host.rs, the handler of the
-- daemon's socket, and apps/desktop/src-tauri/src/url_handler.rs, the system's event. `Agreement` has
-- theorems.
pub mod Agreement
use link_pilot.Prelude.{
  ℕ, String, Bool, false, Option, none, some, List, [], ◌∷◌, Result, ok, err, ◌⧺◌,
}
use link_pilot.Core.Platform.{OpenerApp}
use link_pilot.Core.Rules.{Uuid}
use link_pilot.Core.Routing.Context.{RoutingContext, RoutingDecision, SourceKind}
use link_pilot.Core.Routing.Evaluate.{evaluate_explained_with_ask_shortcut}
use link_pilot.Core.History.{RouteRecord, with_explanation, log}
use link_pilot.Core.Protocol.{Request, Response}
use link_pilot.Core.Daemon.{Host, Runtime, evaluate_and_log_with_ask_shortcut, handle}
use link_pilot.Desktop.Commands.Base.{App, Shell}
use link_pilot.Desktop.Commands.Calls.{ask_shortcut_pressed, dispatch}

-- `opener.as_ref().map(|o| o.name.clone())` and the like.
abbrev opener_name : Option OpenerApp → Option String
opener_name none = none
opener_name (some o) = some o.name

abbrev opener_bundle : Option OpenerApp → Option String
opener_bundle none = none
opener_bundle (some o) = o.bundle_id

unfoldable pub system_context : Option OpenerApp → String → RoutingContext
system_context opener url = record {
  url = url;
  source = record {
    kind = SourceKind.system;
    app_name = opener_name opener;
    bundle_id = opener_bundle opener;
    browser = none;
    profile = none;
  };
  navigation = none;
  environment = none;
}

abbrev pub emit_route : {Url : Type 0} → RouteRecord → App Url → App Url
emit_route entry app = record app { emitted = entry ∷ app.emitted }

module _ {Url Value : Type 0} (shell : Shell Url Value) where
  -- The runtime shares the configuration and the history of the app.
  abbrev pub runtime_of : App Url → Runtime Url
  runtime_of app = record {
    config = app.config;
    history = app.history;
    version = shell.version;
    launches = app.desk.launches;
  }

  abbrev pub with_runtime : Runtime Url → App Url → App Url
  with_runtime rt app = record app { config = rt.config; history = rt.history }

  -- What the runtime is made of; `open_url` is called in the arm that `handle_request` replaces.
  abbrev pub shared_host : (endpoint_text : String) → Host Url Value
  shared_host endpoint_text = record {
    urls = shell.urls;
    json = shell.json;
    platform = record {
      is_linkpilot_default = shell.is_linkpilot_default;
      installed_browsers = shell.installed_browsers;
      open_url = shell.launcher [];
    };
    path = shell.path;
    path_text = shell.show_path shell.path;
    endpoint_text = endpoint_text;
    show_error = shell.show_error;
  }

  unfoldable pub launch_reply :
      String → Result RoutingDecision String × App Url → Response × App Url
  launch_reply id (ok decision, app) = (Response.route_decision id decision, app)
  launch_reply id (err e, app) = (Response.error id "launch-failed" e, app)

  unfoldable pub handle_shared : String → ℕ → Uuid → Request → App Url → Response × App Url
  handle_shared endpoint_text now token request app =
      let (response, rt) = handle (shared_host endpoint_text) now token request (runtime_of app) in
      (response, with_runtime rt app)

  unfoldable pub handle_route_open :
      String → ℕ → String → RoutingContext → App Url → Response × App Url
  handle_route_open endpoint_text now id context app =
      let pressed = ask_shortcut_pressed shell app.config.state.doc in
      let (found, rt) =
        evaluate_and_log_with_ask_shortcut (shared_host endpoint_text) now context pressed
          (runtime_of app) in
      launch_reply id
        (dispatch shell found.0.decision context.url (emit_route found.1 (with_runtime rt app)))

  -- `DaemonHandler::handle`
  unfoldable pub handle_request : String → ℕ → Uuid → Request → App Url → Response × App Url
  handle_request endpoint_text now token (Request.route_open id context) app =
      handle_route_open endpoint_text now id context app
  handle_request endpoint_text now token request app =
      handle_shared endpoint_text now token request app

  -- The message of the event `route-failed`, where it is emitted.
  unfoldable pub route_failed :
      String → Result RoutingDecision String × App Url → Option String × App Url
  route_failed url (ok decision, app) = (none, app)
  route_failed url (err e, app) = (some ("launch failed for " ⧺ (url ⧺ (": " ⧺ e))), app)

  unfoldable pub dispatch_system_url :
      ℕ → Option OpenerApp → String → App Url → Option String × App Url
  dispatch_system_url now opener url app =
      let doc = app.config.state.doc in
      let context = system_context opener url in
      let explained =
        evaluate_explained_with_ask_shortcut shell.urls doc context
          (ask_shortcut_pressed shell doc) in
      let entry = with_explanation now context explained.decision explained.explanation in
      route_failed url (
        dispatch shell explained.decision url
          (emit_route entry (record app { history = log entry app.history })))
