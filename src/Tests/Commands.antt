-- ===== src/Tests/Commands.antt =====
-- The commands of the app at concrete data.
use link_pilot.Prelude.{String, ◌≡◌, ◌≢◌, ◌↔◌, refl, true, false, none, List, [], ◌∷◌, ok}
use link_pilot.Core.Config.{default_document, Workspace}
use link_pilot.Core.Files.{with_extension, file_stem, before_dot}
use link_pilot.Core.Rules.{MatcherTree, Action, Uuid}
use link_pilot.Core.Store.Stores.{tmp_path}
use link_pilot.Core.History.{new_history}
use link_pilot.Desktop.Distribution.{Edition, direct, app_store, validate_document}
use link_pilot.Desktop.Distribution.Compatible.{IsCompatible, validate_document-IsCompatible_iff}
use link_pilot.Desktop.Commands.Base.{App, Shell, replace_config}
use link_pilot.Desktop.Commands.Saving.{Saved, replace_config-Saved}
use link_pilot.Desktop.Commands.Edits.{put_profile_order}
use link_pilot.Desktop.Commands.Orders.{Ordered, put_profile_order-Ordered}
use link_pilot.Desktop.Commands.Calling.{
  Call, config_replace, rule_upsert, workspace_upsert, workspace_delete, set_profile_order,
  browser_set_enabled, invoke_all,
}
use link_pilot.Desktop.Commands.Identifiers.{IsKeyed, invoke_all-IsKeyed}
use link_pilot.Desktop.Commands.Groups.{IsGrouped, invoke_all-IsGrouped}
use link_pilot.Tests.Data.{web, config, json, path, world, rule, Value}

abbrev pub shell : Edition → Shell String Value
shell edition = record {
  edition = edition;
  urls = web;
  json = json config;
  read_document = λ text. ok config;
  path = path;
  show_path = λ p. "path";
  show_error = λ e. "config error";
  show_io = λ e. "io error";
  version = "0.2.0";
  installed_browsers = ok [];
  is_linkpilot_default = ok true;
  set_autostart = λ on. ok tt;
  is_modifier_pressed = λ modifier. false;
  launcher = λ calls target url. ok tt;
}

abbrev pub app : App String
app = record {
  config = world;
  history = new_history;
  autostart = [];
  menu = [];
  emitted = [];
  desk = record { launches = []; asks = [] };
}

abbrev work : Workspace
work = record { id = "work"; display_name = "Work"; description = none; enabled = true }

abbrev calls : List (Uuid × Call)
calls =
    (1, workspace_upsert work)
    ∷ (2, rule_upsert (rule 3 MatcherTree.always Action.ask))
    ∷ (3, workspace_delete "work")
    ∷ (4, set_profile_order "chrome" ("Work" ∷ "Home" ∷ "Work" ∷ []))
    ∷ (5, browser_set_enabled "arc" false)
    ∷ (6, config_replace config)
    ∷ []

validate_document-IsCompatible_iff_example :
    (validate_document app_store default_document ≡ ok tt) ↔ IsCompatible default_document
validate_document-IsCompatible_iff_example = validate_document-IsCompatible_iff default_document

tmp_apart : tmp_path path ≢ path
unfolding with_extension file_stem before_dot
tmp_apart h = cc

replace_config-Saved_example :
    Saved
      (shell app_store)
      7
      config
      app
      (replace_config (shell app_store) 7 config app).0
      (replace_config (shell app_store) 7 config app).1
replace_config-Saved_example = replace_config-Saved (shell app_store) 7 config app tmp_apart

config-IsKeyed : IsKeyed config
config-IsKeyed = record {
  rules = (refl, (refl, tt));
  workspaces = tt;
  custom_browsers = tt;
  hidden = tt;
  orders = tt;
}

invoke_all-IsKeyed_example : IsKeyed (invoke_all (shell direct) calls app).config.state.doc
invoke_all-IsKeyed_example =
    invoke_all-IsKeyed (shell direct) calls app (tt, (tt, (tt, (tt, (tt, (config-IsKeyed, tt))))))
      config-IsKeyed

invoke_all-IsGrouped_example : IsGrouped (invoke_all (shell direct) calls app).config.state.doc
invoke_all-IsGrouped_example =
    invoke_all-IsGrouped (shell direct) calls app (tt, (tt, (tt, (tt, (tt, ((tt, (tt, tt)), tt))))))
      (tt, (tt, tt))

put_profile_order-Ordered_example :
    Ordered "chrome"
      ("Work" ∷ "Home" ∷ "Work" ∷ [])
      config
      (put_profile_order "chrome" ("Work" ∷ "Home" ∷ "Work" ∷ []) config)
put_profile_order-Ordered_example =
    put_profile_order-Ordered "chrome" ("Work" ∷ "Home" ∷ "Work" ∷ []) config
