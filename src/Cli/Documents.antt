-- ===== src/Cli/Documents.antt =====
-- The commands of crates/cli/src/main.rs on workspaces, browsers, settings and the whole document.
use link_pilot.Prelude.{
  String, Bool, not, Option, none, List, [], ◌∷◌, ◌++◌, map, filter, any, Result, ok, err,
  if◌then◌else◌, map_err, eqb, ◌==◌, ◌⧺◌, length, is_some, find, is_some_and, is_empty,
}
use link_pilot.Prelude.Anyhow.{Anyhow, anyhow}
use link_pilot.Prelude.Tasks.{pure, lift, within, ◌>>=◌, ◌>>◌}
use link_pilot.Prelude.Updates.{upsert, update_first}
use link_pilot.Core.Files.{FilePath, Io, read_to_string, write, create_dir_all}
use link_pilot.Core.Browser.{BrowserKind, InstalledBrowser}
use link_pilot.Core.Rules.{Rule}
use link_pilot.Core.Config.{ConfigDocument, Workspace, Settings, WriterId}
use link_pilot.Cli.Stores.{Env, Fresh, Run, store_path, load_store, write_config, mutate_local}
use link_pilot.Cli.Rules.{target_with}

abbrev pub Mutator : Type 0
Mutator = ConfigDocument → Result ConfigDocument Anyhow

unfoldable pub add_workspace : Workspace → Mutator
add_workspace ws doc =
    ok (record doc { workspaces = upsert (λ w. w.id == ws.id) ws doc.workspaces })

-- The rule after its workspace was deleted.
unfoldable pub ungrouped : String → Rule → Rule
ungrouped id rule =
    if is_some_and (λ w. w == id) rule.workspace_id
    then record rule { workspace_id = none }
    else rule

unfoldable pub delete_workspace : String → Mutator
delete_workspace id doc =
    let kept = filter (λ w. not (w.id == id)) doc.workspaces in
    if eqb (length kept) (length doc.workspaces)
    then err (anyhow ("workspace not found: " ⧺ id))
    else ok (record doc { workspaces = kept; rules = map (ungrouped id) doc.rules })

unfoldable pub enable_workspace : String → Bool → Mutator
enable_workspace id enabled doc =
    if is_some (find (λ w. w.id == id) doc.workspaces)
    then ok (record doc {
      workspaces =
          update_first (λ w. w.id == id) (λ w. record w { enabled = enabled }) doc.workspaces;
    })
    else err (anyhow ("workspace not found: " ⧺ id))

unfoldable pub set_default_target : String → Option String → Bool → Bool → Mutator
set_default_target browser profile incognito new_window doc =
    ok (record doc { default_target = target_with browser profile incognito new_window })

unfoldable pub set_settings : (Settings → Settings) → Mutator
set_settings mutator doc = ok (record doc { settings = mutator doc.settings })

-- The browser of `run_browsers_custom_add`.
unfoldable pub custom_browser :
    String → String → BrowserKind → FilePath → Option String → InstalledBrowser
custom_browser id name kind exec bundle_id = record {
  id = id;
  display_name = name;
  kind = kind;
  executable = exec;
  platform_app_id = bundle_id;
  profile_root = none;
}

unfoldable pub add_custom : InstalledBrowser → Mutator
add_custom browser doc =
    ok (record doc {
      custom_browsers = upsert (λ b. b.id == browser.id) browser doc.custom_browsers;
    })

unfoldable pub remove_custom : String → Mutator
remove_custom id doc =
    let kept = filter (λ b. not (b.id == id)) doc.custom_browsers in
    if eqb (length kept) (length doc.custom_browsers)
    then err (anyhow ("custom browser not found: " ⧺ id))
    else ok (record doc { custom_browsers = kept })

-- The list of hidden browsers of `run_browsers_set_enabled`.
unfoldable pub hidden_after : String → Bool → List String → List String
hidden_after id enabled hidden =
    if enabled
    then filter (λ existing. not (existing == id)) hidden
    else if any (λ existing. existing == id) hidden
    then hidden
    else hidden ++ id ∷ []

unfoldable pub enable_browser : String → Bool → Mutator
enable_browser id enabled doc = ok (record doc {
  settings = record doc.settings {
    disabled_browsers = hidden_after id enabled doc.settings.disabled_browsers;
  };
})

-- The merge of `run_browsers_list`.
unfoldable pub merged : List InstalledBrowser → List InstalledBrowser → List InstalledBrowser
merged detected [] = detected
merged detected (c ∷ custom) = merged (upsert (λ b. b.id == c.id) c detected) custom

module _ {Value : Type 0} (env : Env Value) (fresh : Fresh) (config : Option FilePath) where
  unfoldable pub run_workspaces_add : Workspace → Run (Unit {0})
  run_workspaces_add ws = mutate_local env fresh config (add_workspace ws)

  unfoldable pub run_workspaces_delete : String → Run (Unit {0})
  run_workspaces_delete id = mutate_local env fresh config (delete_workspace id)

  unfoldable pub run_workspaces_set_enabled : String → Bool → Run (Unit {0})
  run_workspaces_set_enabled id enabled =
      mutate_local env fresh config (enable_workspace id enabled)

  unfoldable pub run_config_set_default_target :
      String → Option String → Bool → Bool → Run (Unit {0})
  run_config_set_default_target browser profile incognito new_window =
      mutate_local env fresh config (set_default_target browser profile incognito new_window)

  unfoldable pub run_settings_set : (Settings → Settings) → Run (Unit {0})
  run_settings_set mutator = mutate_local env fresh config (set_settings mutator)

  unfoldable pub run_browsers_custom_add : InstalledBrowser → Run (Unit {0})
  run_browsers_custom_add browser = mutate_local env fresh config (add_custom browser)

  unfoldable pub run_browsers_custom_remove : String → Run (Unit {0})
  run_browsers_custom_remove id = mutate_local env fresh config (remove_custom id)

  unfoldable pub run_browsers_set_enabled : String → Bool → Run (Unit {0})
  run_browsers_set_enabled id enabled = mutate_local env fresh config (enable_browser id enabled)

  -- A file operation, with the context of its error.
  abbrev on_files : {A : Type 0} → String → Io A → Run A
  on_files message op =
      within (λ w. w.disk) (λ d w. record w { disk = d }) (λ e. message ∷ env.show_io e ∷ []) op

  unfoldable pub run_config_import : FilePath → Run (Unit {0})
  run_config_import src = do
    raw ← on_files ("reading " ⧺ env.show_path src) (read_to_string src)
    doc ← lift (map_err (λ e. ("parsing " ⧺ env.show_path src) ∷ e ∷ []) (env.read_document raw))
    path ← lift (store_path env fresh config)
    created ← load_store env fresh path
    write_config env fresh path doc WriterId.cli

  -- `if let Some(parent) = dest.parent() { if !parent.is_empty() { create_dir_all(parent)? } }`
  unfoldable pub create_parent_of : FilePath → Run (Unit {0})
  create_parent_of [] = pure tt
  create_parent_of (name ∷ dir) =
      if is_empty dir
      then pure tt
      else on_files ("creating " ⧺ env.show_path dir) (create_dir_all dir)

  -- `doc` is what `read_doc` gives.
  unfoldable pub export_to : ConfigDocument → FilePath → Run (Unit {0})
  export_to doc dest = do
    text ← lift (map_err (λ e. anyhow e) (env.json.to_string_pretty doc))
    create_parent_of dest
    on_files ("writing " ⧺ env.show_path dest) (write dest text)
