-- ===== src/Desktop/Commands/Calls.antt =====
-- The commands of apps/desktop/src-tauri/src/commands/mod.rs on the configuration, the browsers and
-- the routes. The first argument of a command that saves is the fresh token of the save.
use link_pilot.Prelude.{
  ℕ, String, Bool, false, Option, none, some, List, [], ◌∷◌, Result, ok, err, if◌then◌else◌,
  unwrap_or, is_some, length, ◌⧺◌,
}
use link_pilot.Prelude.Tasks.{pure, fail, lift, gets, modify, within, ◌>>=◌, ◌>>◌}
use link_pilot.Core.Browser.{BrowserId, InstalledBrowser}
use link_pilot.Core.Rules.{Uuid, Rule, RuleId}
use link_pilot.Core.Config.{ConfigDocument, Workspace, LanguagePref, PickerStyle}
use link_pilot.Core.Files.{FilePath, Io, read_to_string, write}
use link_pilot.Core.Routing.Context.{RoutingContext, RoutingDecision, Explained, SourceKind}
use link_pilot.Core.Routing.Evaluate.{evaluate_explained, evaluate_explained_with_ask_shortcut}
use link_pilot.Core.History.{RouteRecord, with_explanation, log, recent}
use link_pilot.Core.Protocol.{DoctorReport}
use link_pilot.Core.Daemon.{or_default}
use link_pilot.Desktop.Dispatch.{ClickModifiers, is_pressed, LaunchOutcome, failed, execute}
use link_pilot.Desktop.Distribution.{require_direct, validate_document}
use link_pilot.Desktop.Commands.Base.{App, Shell, Command, document, replace_config, edit}
use link_pilot.Desktop.Commands.Edits.{
  put_rule, drop_rule, put_workspace, drop_workspace, switch_workspace, has_workspace,
  put_smart_routing, put_launch_at_login, put_language, put_picker_style, put_profile_order,
  put_custom_browser, drop_custom_browser, switch_browser, merge_custom,
}

pub record RouteRequest : Type 0 where
  pub url : String
  pub from_app : Option String
  pub from_app_bundle_id : Option String
  pub from_browser : Option String
  pub from_profile : Option String

unfoldable pub build_context : RouteRequest → RoutingContext
build_context req = record {
  url = req.url;
  source = record {
    kind = if is_some req.from_browser then SourceKind.browser_extension else SourceKind.system;
    app_name = req.from_app;
    bundle_id = req.from_app_bundle_id;
    browser = req.from_browser;
    profile = req.from_profile;
  };
  navigation = none;
  environment = none;
}

module _ {Url Value : Type 0} (shell : Shell Url Value) where
  unfoldable pub config_get : Command Url ConfigDocument
  config_get = document

  unfoldable pub config_replace : Uuid → ConfigDocument → Command Url (Unit {0})
  config_replace token doc = replace_config shell token doc

  unfoldable pub rule_upsert : Uuid → Rule → Command Url (Unit {0})
  rule_upsert token rule = edit shell token (put_rule rule)

  unfoldable pub rule_delete : Uuid → RuleId → Command Url (Unit {0})
  rule_delete token id = edit shell token (drop_rule id)

  unfoldable pub workspace_upsert : Uuid → Workspace → Command Url (Unit {0})
  workspace_upsert token workspace = edit shell token (put_workspace workspace)

  unfoldable pub workspace_delete : Uuid → String → Command Url (Unit {0})
  workspace_delete token id = edit shell token (drop_workspace id)

  unfoldable pub workspace_set_enabled : Uuid → String → Bool → Command Url (Unit {0})
  workspace_set_enabled token id enabled = do
    doc ← document
    if has_workspace id doc then pure tt else fail ("workspace not found: " ⧺ id)
    replace_config shell token (switch_workspace id enabled doc)

  unfoldable pub set_smart_routing : Uuid → Bool → Command Url (Unit {0})
  set_smart_routing token enabled = edit shell token (put_smart_routing enabled)

  -- The call of `autostart().set_enabled`.
  unfoldable pub set_autostart : Bool → Command Url (Unit {0})
  set_autostart enabled app = elim (shell.set_autostart enabled) [
    | ok _ ↦ (ok tt, record app { autostart = enabled ∷ app.autostart })
    | err e ↦ (err e, app)
  ]

  unfoldable pub set_launch_at_login : Uuid → Bool → Command Url (Unit {0})
  set_launch_at_login token enabled = do
    lift (require_direct shell.edition "Launch at login")
    set_autostart enabled
    edit shell token (put_launch_at_login enabled)

  unfoldable pub set_language : Uuid → LanguagePref → Command Url (Unit {0})
  set_language token language = do
    edit shell token (put_language language)
    modify (λ app. record app { menu = language ∷ app.menu })

  unfoldable pub set_picker_style : Uuid → PickerStyle → Command Url (Unit {0})
  set_picker_style token style = edit shell token (put_picker_style style)

  unfoldable pub set_profile_order : Uuid → String → List String → Command Url (Unit {0})
  set_profile_order token browser profile_ids = do
    lift (require_direct shell.edition "Profile ordering")
    edit shell token (put_profile_order browser profile_ids)

  unfoldable pub merged_browsers : App Url → List InstalledBrowser
  merged_browsers app =
      merge_custom (or_default shell.installed_browsers []) app.config.state.doc.custom_browsers

  unfoldable pub list_browsers : Command Url (List InstalledBrowser)
  list_browsers = gets merged_browsers

  unfoldable pub add_custom_browser : Uuid → InstalledBrowser → Command Url (Unit {0})
  add_custom_browser token browser = do
    lift (require_direct shell.edition "Custom browsers")
    edit shell token (put_custom_browser browser)

  unfoldable pub remove_custom_browser : Uuid → BrowserId → Command Url (Unit {0})
  remove_custom_browser token id = edit shell token (drop_custom_browser id)

  unfoldable pub browser_set_enabled : Uuid → String → Bool → Command Url (Unit {0})
  browser_set_enabled token id enabled = edit shell token (switch_browser id enabled)

  unfoldable pub route_evaluate : RouteRequest → Command Url Explained
  route_evaluate request =
      gets λ app. evaluate_explained shell.urls app.config.state.doc (build_context request)

  -- `None` and the outcomes without an error give the decision.
  unfoldable pub decided : RoutingDecision → LaunchOutcome → Result RoutingDecision String
  decided decision (failed e) = err e
  decided decision _ = ok decision

  -- The call of `dispatch::execute`, with the targets and the browsers of the state.
  unfoldable pub dispatch : RoutingDecision → String → Command Url RoutingDecision
  dispatch decision url app = elim (validate_document shell.edition app.config.state.doc) [
    | err e ↦ (err e, app)
    | ok _ ↦
        let (outcome, desk) =
          execute shell.launcher shell.urls shell.installed_browsers
            app.config.state.doc.default_target decision url app.desk in
        (decided decision outcome, record app { desk = desk })
  ]

  -- `dispatch::ask_shortcut_pressed` on macOS.
  unfoldable pub ask_shortcut_pressed : ConfigDocument → Bool
  ask_shortcut_pressed doc = shell.is_modifier_pressed doc.settings.ask_quick_open_modifier

  -- The keys of the click, or those that are held now.
  unfoldable pub shortcut_pressed : ConfigDocument → Option ClickModifiers → Bool
  shortcut_pressed doc (some keys) = is_pressed keys doc.settings.ask_quick_open_modifier
  shortcut_pressed doc none = ask_shortcut_pressed doc

  -- `now` is what `now_ms` answers.
  unfoldable pub route_open : ℕ → RouteRequest → Option ClickModifiers → Command Url RoutingDecision
  route_open now request modifiers = do
    doc ← document
    let explained =
        evaluate_explained_with_ask_shortcut shell.urls doc (build_context request)
          (shortcut_pressed doc modifiers)
    let entry =
        with_explanation now (build_context request) explained.decision explained.explanation
    modify (λ app. record app { history = log entry app.history; emitted = entry ∷ app.emitted })
    dispatch explained.decision request.url

  unfoldable pub route_history : Option ℕ → Command Url (List RouteRecord)
  route_history limit = gets λ app. recent (unwrap_or limit 100) app.history

  unfoldable pub is_default_browser : Bool
  is_default_browser = or_default shell.is_linkpilot_default false

  unfoldable pub doctor : Command Url DoctorReport
  doctor = gets λ app. record {
    daemon_version = shell.version;
    is_default_browser = is_default_browser;
    config_path = some (shell.show_path shell.path);
    installed_browser_count = length (merged_browsers app);
    ipc_socket_path = none;
  }

  -- A file operation in a command.
  abbrev on_files : {A : Type 0} → Io A → Command Url A
  on_files op =
      within (λ app. app.config.disk)
        (λ d app. record app { config = record app.config { disk = d } }) shell.show_io op

  -- The document in a file, in `import_config`.
  unfoldable pub read_config : FilePath → Command Url ConfigDocument
  read_config path = do raw ← on_files (read_to_string path); lift (shell.read_document raw)

  unfoldable pub import_config : Uuid → FilePath → Command Url (Unit {0})
  import_config token path = do
    lift (require_direct shell.edition "Path-based configuration import")
    doc ← read_config path
    replace_config shell token doc

  unfoldable pub export_config : FilePath → Command Url (Unit {0})
  export_config path = do
    lift (require_direct shell.edition "Path-based configuration export")
    doc ← document
    text ← lift (shell.json.to_string_pretty doc)
    on_files (write path text)
