-- ===== src/Desktop/Commands/Identifiers.antt =====
-- No identifier stands twice in a configuration that the front end edits
-- (apps/desktop/src-tauri/src/commands/mod.rs).
use link_pilot.Prelude.{
  ℕ, String, ◌≡◌, refl, Bool, true, false, none, List, [], ◌∷◌, eqb, ◌==◌, eq_iff, arith, any, find,
  Bool-cases, inl, inr,
}
use link_pilot.Prelude.Maps.{Uniq, Uniq-insert, Uniq-without}
use link_pilot.Prelude.Updates.{
  Distinct, Distinct-upsert, Distinct-retain, Distinct-update_first, Distinct-map, Distinct-push,
}
use link_pilot.Core.Rules.{Uuid, Rule}
use link_pilot.Core.Config.{ConfigDocument, Meta}
use link_pilot.Desktop.Commands.Base.{App, Shell}
use link_pilot.Desktop.Commands.Edits.{
  put_rule, drop_rule, put_workspace, drop_workspace, switch_workspace, ungroup, put_smart_routing,
  put_launch_at_login, put_language, put_picker_style, put_profile_order, put_custom_browser,
  drop_custom_browser, switch_browser, shown_or_hidden, unseen,
}
use link_pilot.Desktop.Commands.Calls
use link_pilot.Desktop.Commands.Calling.{
  Call, config_replace, import_config, rule_upsert, rule_delete, workspace_upsert, workspace_delete,
  workspace_set_enabled, set_smart_routing, set_launch_at_login, set_language, set_picker_style,
  set_profile_order, add_custom_browser, remove_custom_browser, browser_set_enabled, invoke_all,
}
use link_pilot.Desktop.Commands.Keeping.{change_of, IsEdit, AllOk, AllFit, Comes, invoke_all-keeps}

eqb_to : (j k : ℕ) → j ≡ k → eqb j k ≡ true
eqb_to j k h = ground arith

eqb_from : (j k : ℕ) → eqb j k ≡ true → j ≡ k
eqb_from j k h = ground arith

pub text_to : (j k : String) → j ≡ k → (j == k) ≡ true
text_to j k = (eq_iff j k).1

pub text_from : (j k : String) → (j == k) ≡ true → j ≡ k
text_from j k = (eq_iff j k).0

-- Rules, workspaces, custom browsers, hidden browsers and saved orders, each once.
pub record IsKeyed (doc : ConfigDocument) : Type 0 where
  pub rules : Distinct eqb (λ r. r.id) doc.rules
  pub workspaces : Distinct ◌==◌ (λ w. w.id) doc.workspaces
  pub custom_browsers : Distinct ◌==◌ (λ b. b.id) doc.custom_browsers
  pub hidden : Distinct ◌==◌ (λ id. id) doc.settings.disabled_browsers
  pub orders : Uniq ◌==◌ text_to text_from doc.settings.profile_orders

id-ungroup : (id : String) (rule : Rule) → (ungroup id rule).id ≡ rule.id
unfolding ungroup
id-ungroup id rule = ground arith

absent-find :
    (id : String) (xs : List String) → any (λ x. x == id) xs ≡ false → find (λ x. x == id) xs ≡ none
absent-find id [] h = refl
absent-find id (x ∷ xs) h = ground (arith, absent-find id xs)

Distinct-shown_or_hidden :
    (id : String) (enabled : Bool) (xs : List String)
    → Distinct ◌==◌ (λ x. x) xs
    → Distinct ◌==◌ (λ x. x) (shown_or_hidden id enabled xs)
unfolding shown_or_hidden
Distinct-shown_or_hidden id true xs h = Distinct-retain ◌==◌ (λ x. x) text_to text_from id xs h
Distinct-shown_or_hidden id false xs h = elim (Bool-cases (any (λ x. x == id) xs)) [
  | inl there ↦ rw there h
  | inr absent ↦
      rw absent (Distinct-push ◌==◌ (λ x. x) text_to text_from id xs (absent-find id xs absent) h)
]

order-IsKeyed :
    (browser : String) (ids : List String) (doc : ConfigDocument)
    → IsKeyed doc
    → IsKeyed (put_profile_order browser ids doc)
unfolding put_profile_order
order-IsKeyed browser [] doc k = record {
  rules = k.rules;
  workspaces = k.workspaces;
  custom_browsers = k.custom_browsers;
  hidden = k.hidden;
  orders = Uniq-without ◌==◌ text_to text_from browser doc.settings.profile_orders k.orders;
}
order-IsKeyed browser (id ∷ ids) doc k = record {
  rules = k.rules;
  workspaces = k.workspaces;
  custom_browsers = k.custom_browsers;
  hidden = k.hidden;
  orders =
      Uniq-insert ◌==◌ text_to text_from browser (unseen [] (id ∷ ids)) doc.settings.profile_orders
        k.orders;
}

change_of-IsKeyed :
    (call : Call) (doc : ConfigDocument) → IsEdit call → IsKeyed doc → IsKeyed (change_of call doc)
unfolding put_rule drop_rule put_workspace drop_workspace switch_workspace put_smart_routing
    put_launch_at_login put_language put_picker_style put_profile_order put_custom_browser
    drop_custom_browser switch_browser
change_of-IsKeyed (config_replace new) doc edits k = elim edits [ ]
change_of-IsKeyed (import_config path) doc edits k = elim edits [ ]
change_of-IsKeyed (rule_upsert rule) doc edits k = record {
  rules = Distinct-upsert eqb (λ r. r.id) eqb_to eqb_from rule doc.rules k.rules;
  workspaces = k.workspaces;
  custom_browsers = k.custom_browsers;
  hidden = k.hidden;
  orders = k.orders;
}
change_of-IsKeyed (rule_delete id) doc edits k = record {
  rules = Distinct-retain eqb (λ r. r.id) eqb_to eqb_from id doc.rules k.rules;
  workspaces = k.workspaces;
  custom_browsers = k.custom_browsers;
  hidden = k.hidden;
  orders = k.orders;
}
change_of-IsKeyed (workspace_upsert workspace) doc edits k = record {
  rules = k.rules;
  workspaces =
      Distinct-upsert ◌==◌ (λ w. w.id) text_to text_from workspace doc.workspaces k.workspaces;
  custom_browsers = k.custom_browsers;
  hidden = k.hidden;
  orders = k.orders;
}
change_of-IsKeyed (workspace_delete id) doc edits k = record {
  rules = Distinct-map eqb (λ r. r.id) (ungroup id) doc.rules (id-ungroup id) k.rules;
  workspaces = Distinct-retain ◌==◌ (λ w. w.id) text_to text_from id doc.workspaces k.workspaces;
  custom_browsers = k.custom_browsers;
  hidden = k.hidden;
  orders = k.orders;
}
change_of-IsKeyed (workspace_set_enabled id enabled) doc edits k = record {
  rules = k.rules;
  workspaces =
      Distinct-update_first ◌==◌ (λ w. w.id) text_to text_from id
        (λ w. record w { enabled = enabled }) doc.workspaces (λ w. refl) k.workspaces;
  custom_browsers = k.custom_browsers;
  hidden = k.hidden;
  orders = k.orders;
}
change_of-IsKeyed (set_profile_order browser ids) doc edits k = order-IsKeyed browser ids doc k
change_of-IsKeyed (add_custom_browser browser) doc edits k = record {
  rules = k.rules;
  workspaces = k.workspaces;
  custom_browsers =
      Distinct-upsert ◌==◌ (λ b. b.id) text_to text_from browser doc.custom_browsers
        k.custom_browsers;
  hidden = k.hidden;
  orders = k.orders;
}
change_of-IsKeyed (remove_custom_browser id) doc edits k = record {
  rules = k.rules;
  workspaces = k.workspaces;
  custom_browsers =
      Distinct-retain ◌==◌ (λ b. b.id) text_to text_from id doc.custom_browsers k.custom_browsers;
  hidden = k.hidden;
  orders = k.orders;
}
change_of-IsKeyed (browser_set_enabled id enabled) doc edits k = record {
  rules = k.rules;
  workspaces = k.workspaces;
  custom_browsers = k.custom_browsers;
  hidden = Distinct-shown_or_hidden id enabled doc.settings.disabled_browsers k.hidden;
  orders = k.orders;
}
change_of-IsKeyed (set_smart_routing enabled) doc edits k = record {
  rules = k.rules;
  workspaces = k.workspaces;
  custom_browsers = k.custom_browsers;
  hidden = k.hidden;
  orders = k.orders;
}
change_of-IsKeyed (set_launch_at_login enabled) doc edits k = record {
  rules = k.rules;
  workspaces = k.workspaces;
  custom_browsers = k.custom_browsers;
  hidden = k.hidden;
  orders = k.orders;
}
change_of-IsKeyed (set_language language) doc edits k = record {
  rules = k.rules;
  workspaces = k.workspaces;
  custom_browsers = k.custom_browsers;
  hidden = k.hidden;
  orders = k.orders;
}
change_of-IsKeyed (set_picker_style style) doc edits k = record {
  rules = k.rules;
  workspaces = k.workspaces;
  custom_browsers = k.custom_browsers;
  hidden = k.hidden;
  orders = k.orders;
}

-- The metadata has no identifiers.
marked-IsKeyed : (doc : ConfigDocument) (m : Meta) → IsKeyed doc → IsKeyed (record doc { meta = m })
marked-IsKeyed doc m k = record {
  rules = k.rules;
  workspaces = k.workspaces;
  custom_browsers = k.custom_browsers;
  hidden = k.hidden;
  orders = k.orders;
}

module _ {Url Value : Type 0} (shell : Shell Url Value) where
  -- A whole document that a call brings, as an argument or from the file that it reads, has no
  -- identifier twice.
  abbrev pub BringsKeyed : Call → App Url → Type 0
  BringsKeyed (config_replace doc) app = IsKeyed doc
  BringsKeyed (import_config path) app = AllOk IsKeyed (Calls.read_config shell path app).0
  BringsKeyed _ app = Unit {0}

  IsKeyed-Comes :
      (call : Call) (app : App Url)
      → BringsKeyed call app
      → IsKeyed app.config.state.doc
      → Comes shell IsKeyed call app
  IsKeyed-Comes (config_replace doc) app brings k = brings
  IsKeyed-Comes (import_config path) app brings k = brings
  IsKeyed-Comes (rule_upsert rule) app brings k =
      change_of-IsKeyed (rule_upsert rule) app.config.state.doc tt k
  IsKeyed-Comes (rule_delete id) app brings k =
      change_of-IsKeyed (rule_delete id) app.config.state.doc tt k
  IsKeyed-Comes (workspace_upsert workspace) app brings k =
      change_of-IsKeyed (workspace_upsert workspace) app.config.state.doc tt k
  IsKeyed-Comes (workspace_delete id) app brings k =
      change_of-IsKeyed (workspace_delete id) app.config.state.doc tt k
  IsKeyed-Comes (workspace_set_enabled id enabled) app brings k =
      change_of-IsKeyed (workspace_set_enabled id enabled) app.config.state.doc tt k
  IsKeyed-Comes (set_smart_routing enabled) app brings k =
      change_of-IsKeyed (set_smart_routing enabled) app.config.state.doc tt k
  IsKeyed-Comes (set_launch_at_login enabled) app brings k =
      change_of-IsKeyed (set_launch_at_login enabled) app.config.state.doc tt k
  IsKeyed-Comes (set_language language) app brings k =
      change_of-IsKeyed (set_language language) app.config.state.doc tt k
  IsKeyed-Comes (set_picker_style style) app brings k =
      change_of-IsKeyed (set_picker_style style) app.config.state.doc tt k
  IsKeyed-Comes (set_profile_order browser ids) app brings k =
      change_of-IsKeyed (set_profile_order browser ids) app.config.state.doc tt k
  IsKeyed-Comes (add_custom_browser browser) app brings k =
      change_of-IsKeyed (add_custom_browser browser) app.config.state.doc tt k
  IsKeyed-Comes (remove_custom_browser id) app brings k =
      change_of-IsKeyed (remove_custom_browser id) app.config.state.doc tt k
  IsKeyed-Comes (browser_set_enabled id enabled) app brings k =
      change_of-IsKeyed (browser_set_enabled id enabled) app.config.state.doc tt k

  -- Over any list of calls that change the configuration, whatever becomes of each, no identifier of a
  -- rule, a workspace, a custom browser, a hidden browser or a saved order stands twice in it, if none
  -- did before and in none of the whole documents that `config_replace` and `import_config` bring.
  pub invoke_all-IsKeyed :
      (calls : List (Uuid × Call)) (app : App Url)
      → AllFit shell BringsKeyed calls app
      → IsKeyed app.config.state.doc
      → IsKeyed (invoke_all shell calls app).config.state.doc
  invoke_all-IsKeyed calls app =
      invoke_all-keeps shell IsKeyed marked-IsKeyed BringsKeyed IsKeyed-Comes calls app
