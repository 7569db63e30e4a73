-- ===== src/Cli/Agreement.antt =====
-- `lpt` (crates/cli/src/main.rs) and the app (apps/desktop/src-tauri/src/commands/mod.rs) make the same
-- changes.
use link_pilot.Prelude.{
  String, ◌≡◌, refl, Bool, not, List, [], ◌∷◌, map, filter, length, eqb, ◌==◌, arith, is_some, find,
  ok, err, if◌then◌else◌, ap, length-filter-le, ◌⧺◌,
}
use link_pilot.Prelude.Anyhow.{anyhow}
use link_pilot.Prelude.Updates.{upsert}
use link_pilot.Core.Browser.{InstalledBrowser}
use link_pilot.Core.Rules.{Rule}
use link_pilot.Core.Config.{ConfigDocument, Workspace}
use link_pilot.Desktop.Commands.Edits.{
  put_workspace, drop_workspace, switch_workspace, has_workspace, put_custom_browser,
  drop_custom_browser, switch_browser, ungroup, shown_or_hidden, merge_custom,
}
use link_pilot.Cli.Documents.{
  add_workspace, delete_workspace, enable_workspace, add_custom, remove_custom, enable_browser,
  ungrouped, hidden_after, merged,
}

-- A retain that keeps the length keeps the list, and finds nothing to remove.
retained_cases :
    {A : Type 0} (p : A → Bool) (xs : List A)
    → eqb (length (filter (λ x. not (p x)) xs)) (length xs) ≡ not (is_some (find p xs))
retained_cases p [] = refl
retained_cases p (x ∷ xs) =
    ground (arith, retained_cases p xs, length-filter-le (λ y. not (p y)) xs)

ungrouped-ungroup :
    (id : String) (rules : List Rule) → map (ungrouped id) rules ≡ map (ungroup id) rules
unfolding ungrouped ungroup
ungrouped-ungroup id [] = refl
ungrouped-ungroup id (r ∷ rules) = ap (λ l. ungroup id r ∷ l) (ungrouped-ungroup id rules)

merged-merge_custom :
    (detected custom : List InstalledBrowser)
    → merged detected custom ≡ merge_custom detected custom
unfolding merged merge_custom
merged-merge_custom detected [] = refl
merged-merge_custom detected (c ∷ custom) =
    merged-merge_custom (upsert (λ b. b.id == c.id) c detected) custom

-- `lpt` changes a document as the app does; where the workspace or the browser to delete or to
-- switch is not there, `lpt` gives an error instead.
pub record Agree (doc : ConfigDocument) : Type 0 where
  pub adds_workspace : (ws : Workspace) → add_workspace ws doc ≡ ok (put_workspace ws doc)
  pub deletes_workspace :
      (id : String)
      → delete_workspace id doc ≡ (
          if has_workspace id doc
          then ok (drop_workspace id doc)
          else err (anyhow ("workspace not found: " ⧺ id)))
  pub enables_workspace :
      (id : String) (enabled : Bool)
      → enable_workspace id enabled doc ≡ (
          if has_workspace id doc
          then ok (switch_workspace id enabled doc)
          else err (anyhow ("workspace not found: " ⧺ id)))
  pub adds_browser : (b : InstalledBrowser) → add_custom b doc ≡ ok (put_custom_browser b doc)
  pub removes_browser :
      (id : String)
      → remove_custom id doc ≡ (
          if is_some (find (λ b. b.id == id) doc.custom_browsers)
          then ok (drop_custom_browser id doc)
          else err (anyhow ("custom browser not found: " ⧺ id)))
  pub enables_browser :
      (id : String) (enabled : Bool)
      → enable_browser id enabled doc ≡ ok (switch_browser id enabled doc)
  pub merges :
      (detected : List InstalledBrowser)
      → merged detected doc.custom_browsers ≡ merge_custom detected doc.custom_browsers

-- The changes of `lpt` and of the app to workspaces, custom browsers and hidden browsers are the
-- same, and so is the merge of the lists of browsers; where a workspace or a custom browser to
-- delete or to switch is not there, `lpt` gives an error.
pub edits-Agree : (doc : ConfigDocument) → Agree doc
unfolding add_workspace put_workspace delete_workspace drop_workspace has_workspace enable_workspace
    switch_workspace add_custom put_custom_browser remove_custom drop_custom_browser enable_browser
    switch_browser hidden_after shown_or_hidden
edits-Agree doc = record {
  adds_workspace = λ ws. refl;
  deletes_workspace = λ id. ground (
    arith,
    retained_cases (λ (w : Workspace). w.id == id) doc.workspaces,
    ungrouped-ungroup id doc.rules,
  );
  enables_workspace = λ id enabled. refl;
  adds_browser = λ b. refl;
  removes_browser = λ id.
      ground (arith, retained_cases (λ (b : InstalledBrowser). b.id == id) doc.custom_browsers);
  enables_browser = λ id enabled. refl;
  merges = λ detected. merged-merge_custom detected doc.custom_browsers;
}
