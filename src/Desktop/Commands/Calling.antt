-- ===== src/Desktop/Commands/Calling.antt =====
-- The calls of the front end that change the configuration, as the handler that
-- apps/desktop/src-tauri/src/lib.rs registers dispatches them.
use link_pilot.Prelude.{String, Bool, List, [], ◌∷◌}
use link_pilot.Core.Browser.{BrowserId, InstalledBrowser}
use link_pilot.Core.Rules.{Uuid, Rule, RuleId}
use link_pilot.Core.Config.{ConfigDocument, Workspace, LanguagePref, PickerStyle}
use link_pilot.Core.Files.{FilePath}
use link_pilot.Desktop.Commands.Base.{App, Shell, Command}
use link_pilot.Desktop.Commands.Calls

-- The dialogs of the edition for the App Store are not among them.
pub data Call : Type 0 where
  config_replace : ConfigDocument → Call
  import_config : FilePath → Call
  rule_upsert : Rule → Call
  rule_delete : RuleId → Call
  workspace_upsert : Workspace → Call
  workspace_delete : String → Call
  workspace_set_enabled : String → Bool → Call
  set_smart_routing set_launch_at_login : Bool → Call
  set_language : LanguagePref → Call
  set_picker_style : PickerStyle → Call
  set_profile_order : String → List String → Call
  add_custom_browser : InstalledBrowser → Call
  remove_custom_browser : BrowserId → Call
  browser_set_enabled : String → Bool → Call

module _ {Url Value : Type 0} (shell : Shell Url Value) where
  unfoldable pub invoke : Uuid → Call → Command Url (Unit {0})
  invoke token (config_replace doc) = Calls.config_replace shell token doc
  invoke token (import_config path) = Calls.import_config shell token path
  invoke token (rule_upsert rule) = Calls.rule_upsert shell token rule
  invoke token (rule_delete id) = Calls.rule_delete shell token id
  invoke token (workspace_upsert workspace) = Calls.workspace_upsert shell token workspace
  invoke token (workspace_delete id) = Calls.workspace_delete shell token id
  invoke token (workspace_set_enabled id enabled) =
      Calls.workspace_set_enabled shell token id enabled
  invoke token (set_smart_routing enabled) = Calls.set_smart_routing shell token enabled
  invoke token (set_launch_at_login enabled) = Calls.set_launch_at_login shell token enabled
  invoke token (set_language language) = Calls.set_language shell token language
  invoke token (set_picker_style style) = Calls.set_picker_style shell token style
  invoke token (set_profile_order browser ids) = Calls.set_profile_order shell token browser ids
  invoke token (add_custom_browser browser) = Calls.add_custom_browser shell token browser
  invoke token (remove_custom_browser id) = Calls.remove_custom_browser shell token id
  invoke token (browser_set_enabled id enabled) = Calls.browser_set_enabled shell token id enabled

  -- Calls one after the other, each with its fresh token, whatever their results.
  unfoldable pub invoke_all : List (Uuid × Call) → App Url → App Url
  invoke_all [] app = app
  invoke_all ((token, call) ∷ calls) app = invoke_all calls (invoke token call app).1
