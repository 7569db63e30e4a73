-- ===== src/Desktop/Commands/Groups.antt =====
-- No rule is left in a workspace that is gone (apps/desktop/src-tauri/src/commands/mod.rs).
use link_pilot.Prelude.{
  String, ◌≡◌, refl, Bool, true, not, Option, none, some, List, [], ◌∷◌, map, filter, All, eqb,
  ◌==◌, eq_iff, arith, is_some, find, All-weaken, Bool-cases, inl, inr, if◌then◌else◌,
}
use link_pilot.Prelude.Updates.{
  upsert, update_first, with_key-upsert, with_key-retain, with_key-update_first,
}
use link_pilot.Core.Rules.{Uuid, Rule}
use link_pilot.Core.Config.{ConfigDocument, Workspace}
use link_pilot.Desktop.Commands.Base.{App, Shell}
use link_pilot.Desktop.Commands.Edits.{
  put_rule, drop_rule, put_workspace, drop_workspace, switch_workspace, ungroup, put_smart_routing,
  put_launch_at_login, put_language, put_picker_style, put_profile_order, put_custom_browser,
  drop_custom_browser, switch_browser,
}
use link_pilot.Desktop.Commands.Calls
use link_pilot.Desktop.Commands.Calling.{
  Call, config_replace, import_config, rule_upsert, rule_delete, workspace_upsert, workspace_delete,
  workspace_set_enabled, set_smart_routing, set_launch_at_login, set_language, set_picker_style,
  set_profile_order, add_custom_browser, remove_custom_browser, browser_set_enabled, invoke_all,
}
use link_pilot.Desktop.Commands.Identifiers.{text_to, text_from}
use link_pilot.Desktop.Commands.Keeping.{change_of, AllOk, AllFit, Comes, invoke_all-keeps}

-- There is a workspace of the name.
abbrev pub IsKnown : List Workspace → Option String → Type 0
IsKnown workspaces none = Unit {0}
IsKnown workspaces (some id) = is_some (find (λ w. w.id == id) workspaces) ≡ true

-- Every rule is in no workspace or in one that there is.
abbrev pub IsGrouped : ConfigDocument → Type 0
IsGrouped doc = All (λ r. IsKnown doc.workspaces r.workspace_id) doc.rules

-- A rule that comes in is in no workspace or in one that there is; whole documents do not come in here.
abbrev pub KnownEdit : Call → ConfigDocument → Type 0
KnownEdit (rule_upsert rule) doc = IsKnown doc.workspaces rule.workspace_id
KnownEdit (config_replace new) doc = ⊥
KnownEdit (import_config path) doc = ⊥
KnownEdit _ doc = Unit {0}

module _ (P : Rule → Type 0) where
  All-upsert :
      (p : Rule → Bool) (rule : Rule) (rules : List Rule)
      → P rule
      → All P rules
      → All P (upsert p rule rules)
  unfolding upsert
  All-upsert p rule [] h hs = (h, tt)
  All-upsert p rule (r ∷ rules) h hs = ground (arith, All-upsert p rule rules h hs.1)

  All-retain : (p : Rule → Bool) (rules : List Rule) → All P rules → All P (filter p rules)
  All-retain p [] hs = tt
  All-retain p (r ∷ rules) hs = ground (arith, All-retain p rules hs.1)

-- The workspaces change from one list to another that knows all the names that are left.
All-IsKnown :
    (before after : List Workspace) (f : Rule → Rule) (rules : List Rule)
    → ((r : Rule) → IsKnown before r.workspace_id → IsKnown after (f r).workspace_id)
    → All (λ r. IsKnown before r.workspace_id) rules
    → All (λ r. IsKnown after r.workspace_id) (map f rules)
All-IsKnown before after f [] h hs = tt
All-IsKnown before after f (r ∷ rules) h hs = (h r hs.0, All-IsKnown before after f rules h hs.1)

upsert-IsKnown :
    (workspace : Workspace) (ws : List Workspace) (g : Option String)
    → IsKnown ws g
    → IsKnown (upsert (λ w. w.id == workspace.id) workspace ws) g
upsert-IsKnown workspace ws none h = tt
upsert-IsKnown workspace ws (some id) h =
    ground (arith, with_key-upsert ◌==◌ (λ (w : Workspace). w.id) text_to text_from id workspace ws)

switch-IsKnown :
    (k : String) (enabled : Bool) (ws : List Workspace) (g : Option String)
    → IsKnown ws g
    → IsKnown (update_first (λ w. w.id == k) (λ w. record w { enabled = enabled }) ws) g
switch-IsKnown k enabled ws none h = tt
switch-IsKnown k enabled ws (some id) h = ground (
  arith,
  with_key-update_first ◌==◌ (λ (w : Workspace). w.id) text_to text_from k id
      (λ w. record w { enabled = enabled }) ws (λ w. refl),
)

-- The workspace of a rule after one was deleted.
abbrev left : String → Option String → Option String
left id none = none
left id (some w) = if w == id then none else some w

ungroup-left : (id : String) (r : Rule) → (ungroup id r).workspace_id ≡ left id r.workspace_id
unfolding ungroup
ungroup-left id r = ground arith

left-IsKnown :
    (id : String) (ws : List Workspace) (g : Option String)
    → IsKnown ws g
    → IsKnown (filter (λ w. not (w.id == id)) ws) (left id g)
left-IsKnown id ws none h = tt
left-IsKnown id ws (some w) h = elim (Bool-cases (w == id)) [
  | inl same ↦ rw same tt
  | inr other ↦ rw other (
      ground (
        arith,
        with_key-retain ◌==◌ (λ (w : Workspace). w.id) text_to text_from id w ws,
        eq_iff id w,
        eq_iff w id,
      ))
]

change_of-IsGrouped :
    (call : Call) (doc : ConfigDocument)
    → KnownEdit call doc
    → IsGrouped doc
    → IsGrouped (change_of call doc)
unfolding put_rule drop_rule put_workspace drop_workspace switch_workspace put_smart_routing
    put_launch_at_login put_language put_picker_style put_custom_browser drop_custom_browser
    switch_browser
change_of-IsGrouped (config_replace new) doc u h = elim u [ ]
change_of-IsGrouped (import_config path) doc u h = elim u [ ]
change_of-IsGrouped (rule_upsert rule) doc u h =
    All-upsert (λ r. IsKnown doc.workspaces r.workspace_id) (λ r. eqb r.id rule.id) rule doc.rules u
      h
change_of-IsGrouped (rule_delete id) doc u h =
    All-retain (λ r. IsKnown doc.workspaces r.workspace_id) (λ r. not (eqb r.id id)) doc.rules h
change_of-IsGrouped (workspace_upsert workspace) doc u h =
    All-weaken (λ r. upsert-IsKnown workspace doc.workspaces r.workspace_id) doc.rules h
change_of-IsGrouped (workspace_delete id) doc u h =
    All-IsKnown doc.workspaces (filter (λ w. not (w.id == id)) doc.workspaces) (ungroup id)
      doc.rules
      (λ r known. rw (ungroup-left id r) (left-IsKnown id doc.workspaces r.workspace_id known)) h
change_of-IsGrouped (workspace_set_enabled id enabled) doc u h =
    All-weaken (λ r. switch-IsKnown id enabled doc.workspaces r.workspace_id) doc.rules h
change_of-IsGrouped (set_smart_routing enabled) doc u h = h
change_of-IsGrouped (set_launch_at_login enabled) doc u h = h
change_of-IsGrouped (set_language language) doc u h = h
change_of-IsGrouped (set_picker_style style) doc u h = h
change_of-IsGrouped (set_profile_order browser []) doc u h = unfold put_profile_order in h
change_of-IsGrouped (set_profile_order browser (id ∷ ids)) doc u h = unfold put_profile_order in h
change_of-IsGrouped (add_custom_browser browser) doc u h = h
change_of-IsGrouped (remove_custom_browser id) doc u h = h
change_of-IsGrouped (browser_set_enabled id enabled) doc u h = h

module _ {Url Value : Type 0} (shell : Shell Url Value) where
  -- A rule that comes in is in no workspace or in one that the configuration has by then, and so are
  -- the rules of a whole document, in those of the document.
  abbrev pub NamesKnown : Call → App Url → Type 0
  NamesKnown (config_replace doc) app = IsGrouped doc
  NamesKnown (import_config path) app = AllOk IsGrouped (Calls.read_config shell path app).0
  NamesKnown (rule_upsert rule) app = IsKnown app.config.state.doc.workspaces rule.workspace_id
  NamesKnown _ app = Unit {0}

  IsGrouped-Comes :
      (call : Call) (app : App Url)
      → NamesKnown call app
      → IsGrouped app.config.state.doc
      → Comes shell IsGrouped call app
  IsGrouped-Comes (config_replace doc) app brings h = brings
  IsGrouped-Comes (import_config path) app brings h = brings
  IsGrouped-Comes (rule_upsert rule) app brings h =
      change_of-IsGrouped (rule_upsert rule) app.config.state.doc brings h
  IsGrouped-Comes (rule_delete id) app brings h =
      change_of-IsGrouped (rule_delete id) app.config.state.doc tt h
  IsGrouped-Comes (workspace_upsert workspace) app brings h =
      change_of-IsGrouped (workspace_upsert workspace) app.config.state.doc tt h
  IsGrouped-Comes (workspace_delete id) app brings h =
      change_of-IsGrouped (workspace_delete id) app.config.state.doc tt h
  IsGrouped-Comes (workspace_set_enabled id enabled) app brings h =
      change_of-IsGrouped (workspace_set_enabled id enabled) app.config.state.doc tt h
  IsGrouped-Comes (set_smart_routing enabled) app brings h =
      change_of-IsGrouped (set_smart_routing enabled) app.config.state.doc tt h
  IsGrouped-Comes (set_launch_at_login enabled) app brings h =
      change_of-IsGrouped (set_launch_at_login enabled) app.config.state.doc tt h
  IsGrouped-Comes (set_language language) app brings h =
      change_of-IsGrouped (set_language language) app.config.state.doc tt h
  IsGrouped-Comes (set_picker_style style) app brings h =
      change_of-IsGrouped (set_picker_style style) app.config.state.doc tt h
  IsGrouped-Comes (set_profile_order browser ids) app brings h =
      change_of-IsGrouped (set_profile_order browser ids) app.config.state.doc tt h
  IsGrouped-Comes (add_custom_browser browser) app brings h =
      change_of-IsGrouped (add_custom_browser browser) app.config.state.doc tt h
  IsGrouped-Comes (remove_custom_browser id) app brings h =
      change_of-IsGrouped (remove_custom_browser id) app.config.state.doc tt h
  IsGrouped-Comes (browser_set_enabled id enabled) app brings h =
      change_of-IsGrouped (browser_set_enabled id enabled) app.config.state.doc tt h

  -- Over any list of calls that change the configuration, whatever becomes of each, every rule is in no
  -- workspace or in one that the configuration has, if that was so before, each rule that comes in is in
  -- no workspace or in one that the configuration has by then, and each whole document that
  -- `config_replace` and `import_config` bring has the workspaces of its rules.
  pub invoke_all-IsGrouped :
      (calls : List (Uuid × Call)) (app : App Url)
      → AllFit shell NamesKnown calls app
      → IsGrouped app.config.state.doc
      → IsGrouped (invoke_all shell calls app).config.state.doc
  invoke_all-IsGrouped calls app =
      invoke_all-keeps shell IsGrouped (λ doc m h. h) NamesKnown IsGrouped-Comes calls app
