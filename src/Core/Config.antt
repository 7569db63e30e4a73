-- ===== src/Core/Config.antt =====
-- crates/core/src/config/mod.rs: the configuration document.
use link_pilot.Prelude.{ℕ, String, Bool, true, false, Option, none, some, List, [], ◌∷◌}
use link_pilot.Core.Browser.{BrowserTarget, InstalledBrowser, target_of, with_profile}
use link_pilot.Core.Rules.{Uuid, RuleId, Rule, RuleSource, MatcherTree, Action}

abbrev pub schema_version : ℕ
schema_version = 1

pub record Workspace : Type 0 where
  pub id : String
  pub display_name : String
  pub description : Option String
  pub enabled : Bool

pub data PickerStyle : Type 0 where
  frosted bezel crown : PickerStyle

pub data AskQuickOpenModifier : Type 0 where
  off command option control shift : AskQuickOpenModifier

pub data LanguagePref : Type 0 where
  system en zh_cn zh_tw ja_jp : LanguagePref

-- `profile_orders` is a map from browser ids, as an association list with the first entry of a
-- key in force.
pub record Settings : Type 0 where
  pub launch_at_login : Bool
  pub history_retention_days : Option ℕ
  pub record_query_strings : Bool
  pub auto_check_updates : Bool
  pub smart_routing_enabled : Bool
  pub picker_style : PickerStyle
  pub ask_quick_open_modifier : AskQuickOpenModifier
  pub profile_orders : List (String × List String)
  pub disabled_browsers : List String
  pub language : LanguagePref
  pub behavior_log_enabled : Bool
  pub behavior_log_retention_days : Option ℕ

-- `Settings::default`
abbrev pub default_settings : Settings
default_settings = record {
  launch_at_login = false;
  history_retention_days = none;
  record_query_strings = false;
  auto_check_updates = true;
  smart_routing_enabled = true;
  picker_style = frosted;
  ask_quick_open_modifier = command;
  profile_orders = [];
  disabled_browsers = [];
  language = system;
  behavior_log_enabled = true;
  behavior_log_retention_days = some 90;
}

pub data WriterId : Type 0 where
  gui file cli ts_compiled : WriterId

pub record Meta : Type 0 where
  pub last_writer_token : Option Uuid
  pub last_writer : Option WriterId

pub record ConfigDocument : Type 0 where
  pub version : ℕ
  pub default_target : BrowserTarget
  pub rules : List Rule
  pub workspaces : List Workspace
  pub custom_browsers : List InstalledBrowser
  pub settings : Settings
  pub meta : Meta

-- `ConfigDocument::with_default`
abbrev pub document_with : BrowserTarget → ConfigDocument
document_with target = record {
  version = schema_version;
  default_target = target;
  rules = [];
  workspaces = [];
  custom_browsers = [];
  settings = default_settings;
  meta = record { last_writer_token = none; last_writer = none };
}

-- `ConfigDocument::default`
abbrev pub default_document : ConfigDocument
default_document = document_with (target_of "system")

-- The closure `mk` of `demo`; the identifier is the fresh one of `RuleId::default`.
abbrev pub demo_rule : RuleId → String → BrowserTarget → Rule
demo_rule id host target = record {
  id = id;
  enabled = true;
  when = MatcherTree.url_host host;
  then = Action.open_in target;
  source = RuleSource.gui;
  note = none;
  workspace_id = none;
}

-- `ConfigDocument::demo`; `i`, `j`, `k`, `l` are the four fresh identifiers.
abbrev pub demo : (i j k l : RuleId) → ConfigDocument
demo i j k l =
    let chrome_work = with_profile (target_of "chrome") "Default" in
    let arc = target_of "arc" in
    record (document_with (target_of "system")) {
      rules =
          demo_rule i "github.com" chrome_work
          ∷ demo_rule j "notion.so" chrome_work
          ∷ demo_rule k "figma.com" arc
          ∷ demo_rule l "youtube.com" arc
          ∷ [];
    }
