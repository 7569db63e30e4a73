-- ===== src/Desktop/Commands/Edits.antt =====
-- The changes that the commands of apps/desktop/src-tauri/src/commands/mod.rs make to a document.
use link_pilot.Prelude.{
  String, Bool, not, none, List, [], ◌∷◌, ◌++◌, map, filter, any, eqb, ◌==◌, if◌then◌else◌, is_some,
  find, is_some_and,
}
use link_pilot.Prelude.Updates.{upsert, update_first}
use link_pilot.Prelude.Maps.{insert, without}
use link_pilot.Core.Browser.{BrowserId, InstalledBrowser}
use link_pilot.Core.Rules.{Rule, RuleId}
use link_pilot.Core.Config.{ConfigDocument, Workspace, LanguagePref, PickerStyle}

-- The changes of `rule_upsert` and `rule_delete`.
unfoldable pub put_rule : Rule → ConfigDocument → ConfigDocument
put_rule rule doc = record doc { rules = upsert (λ r. eqb r.id rule.id) rule doc.rules }

unfoldable pub drop_rule : RuleId → ConfigDocument → ConfigDocument
drop_rule id doc = record doc { rules = filter (λ r. not (eqb r.id id)) doc.rules }

unfoldable pub put_workspace : Workspace → ConfigDocument → ConfigDocument
put_workspace workspace doc = record doc {
  workspaces = upsert (λ w. w.id == workspace.id) workspace doc.workspaces;
}

-- The rule after its workspace was deleted.
unfoldable pub ungroup : String → Rule → Rule
ungroup id rule =
    if is_some_and (λ w. w == id) rule.workspace_id
    then record rule { workspace_id = none }
    else rule

unfoldable pub drop_workspace : String → ConfigDocument → ConfigDocument
drop_workspace id doc = record doc {
  workspaces = filter (λ w. not (w.id == id)) doc.workspaces;
  rules = map (ungroup id) doc.rules;
}

-- The change of `workspace_set_enabled`, and its test.
unfoldable pub switch_workspace : String → Bool → ConfigDocument → ConfigDocument
switch_workspace id enabled doc = record doc {
  workspaces = update_first (λ w. w.id == id) (λ w. record w { enabled = enabled }) doc.workspaces;
}

unfoldable pub has_workspace : String → ConfigDocument → Bool
has_workspace id doc = is_some (find (λ w. w.id == id) doc.workspaces)

unfoldable pub put_smart_routing : Bool → ConfigDocument → ConfigDocument
put_smart_routing enabled doc = record doc {
  settings = record doc.settings { smart_routing_enabled = enabled };
}

unfoldable pub put_launch_at_login : Bool → ConfigDocument → ConfigDocument
put_launch_at_login enabled doc = record doc {
  settings = record doc.settings { launch_at_login = enabled };
}

unfoldable pub put_language : LanguagePref → ConfigDocument → ConfigDocument
put_language language doc = record doc { settings = record doc.settings { language = language } }

unfoldable pub put_picker_style : PickerStyle → ConfigDocument → ConfigDocument
put_picker_style style doc = record doc { settings = record doc.settings { picker_style = style } }

-- `profile_ids.iter().filter(|id| seen.insert(id))`; `seen` has what was inserted.
unfoldable pub unseen : List String → List String → List String
unseen seen [] = []
unseen seen (id ∷ ids) =
    let rest = unseen (id ∷ seen) ids in
    let skipped = unseen seen ids in if any (λ s. s == id) seen then skipped else id ∷ rest

unfoldable pub put_profile_order : String → List String → ConfigDocument → ConfigDocument
put_profile_order browser [] doc = record doc {
  settings = record doc.settings {
    profile_orders = without ◌==◌ browser doc.settings.profile_orders;
  };
}
put_profile_order browser (id ∷ ids) doc = record doc {
  settings = record doc.settings {
    profile_orders = insert ◌==◌ browser (unseen [] (id ∷ ids)) doc.settings.profile_orders;
  };
}

unfoldable pub put_custom_browser : InstalledBrowser → ConfigDocument → ConfigDocument
put_custom_browser browser doc = record doc {
  custom_browsers = upsert (λ b. b.id == browser.id) browser doc.custom_browsers;
}

unfoldable pub drop_custom_browser : BrowserId → ConfigDocument → ConfigDocument
drop_custom_browser id doc = record doc {
  custom_browsers = filter (λ b. not (b.id == id)) doc.custom_browsers;
}

-- The list of hidden browsers after `browser_set_enabled`.
unfoldable pub shown_or_hidden : String → Bool → List String → List String
shown_or_hidden id enabled hidden =
    if enabled
    then filter (λ existing. not (existing == id)) hidden
    else if any (λ existing. existing == id) hidden
    then hidden
    else hidden ++ id ∷ []

unfoldable pub switch_browser : String → Bool → ConfigDocument → ConfigDocument
switch_browser id enabled doc = record doc {
  settings = record doc.settings {
    disabled_browsers = shown_or_hidden id enabled doc.settings.disabled_browsers;
  };
}

-- The loop of `merged_browsers`.
unfoldable pub merge_custom : List InstalledBrowser → List InstalledBrowser → List InstalledBrowser
merge_custom detected [] = detected
merge_custom detected (custom ∷ rest) =
    merge_custom (upsert (λ b. b.id == custom.id) custom detected) rest
