-- ===== src/Desktop/Commands/Keeping.antt =====
-- What the calls of the front end (apps/desktop/src-tauri/src/commands/mod.rs) keep true of the
-- configuration, from what their changes keep true of a document.
use link_pilot.Prelude.{
  String, ◌≡◌, subst, sym, inl, inr, refl, Bool, List, [], ◌∷◌, Result, ok, err, Result-cases,
  Bool-cases,
}
use link_pilot.Prelude.Tasks.{lift, ◌>>◌, ◌>>=◌}
use link_pilot.Core.Rules.{Uuid}
use link_pilot.Core.Config.{ConfigDocument, Meta, LanguagePref}
use link_pilot.Core.Files.{FilePath, read_to_string}
use link_pilot.Desktop.Distribution.{require_direct}
use link_pilot.Desktop.Commands.Base.{App, Shell, Command, edit, replace_config}
use link_pilot.Desktop.Commands.Edits.{
  put_rule, drop_rule, put_workspace, drop_workspace, switch_workspace, has_workspace,
  put_smart_routing, put_launch_at_login, put_language, put_picker_style, put_profile_order,
  put_custom_browser, drop_custom_browser, switch_browser,
}
use link_pilot.Desktop.Commands.Calls
use link_pilot.Desktop.Commands.Calling.{
  Call, config_replace, import_config, rule_upsert, rule_delete, workspace_upsert, workspace_delete,
  workspace_set_enabled, set_smart_routing, set_launch_at_login, set_language, set_picker_style,
  set_profile_order, add_custom_browser, remove_custom_browser, browser_set_enabled, invoke,
  invoke_all,
}
use link_pilot.Desktop.Commands.Saving.{edit-keeps, replace_config-keeps}

-- The change of the document that a call is for; what an import brings is in a file.
abbrev pub change_of : Call → ConfigDocument → ConfigDocument
change_of (config_replace new) = λ doc. new
change_of (import_config path) = λ doc. doc
change_of (rule_upsert rule) = put_rule rule
change_of (rule_delete id) = drop_rule id
change_of (workspace_upsert workspace) = put_workspace workspace
change_of (workspace_delete id) = drop_workspace id
change_of (workspace_set_enabled id enabled) = switch_workspace id enabled
change_of (set_smart_routing enabled) = put_smart_routing enabled
change_of (set_launch_at_login enabled) = put_launch_at_login enabled
change_of (set_language language) = put_language language
change_of (set_picker_style style) = put_picker_style style
change_of (set_profile_order browser ids) = put_profile_order browser ids
change_of (add_custom_browser browser) = put_custom_browser browser
change_of (remove_custom_browser id) = drop_custom_browser id
change_of (browser_set_enabled id enabled) = switch_browser id enabled

-- The call changes the document that is there.
abbrev pub IsEdit : Call → Type 0
IsEdit (config_replace new) = ⊥
IsEdit (import_config path) = ⊥
IsEdit _ = Unit {0}

-- The predicate of what an answer gives.
abbrev pub AllOk : (ConfigDocument → Type 0) → Result ConfigDocument String → Type 0
AllOk P (ok doc) = P doc
AllOk P (err e) = Unit {0}

-- The predicate of what a call is to save.
abbrev pub Comes :
    {Url Value : Type 0} → Shell Url Value → (ConfigDocument → Type 0) → Call → App Url → Type 0
Comes shell P (import_config path) app = AllOk P (Calls.read_config shell path app).0
Comes shell P call app = P (change_of call app.config.state.doc)

module _ {Url Value : Type 0} (shell : Shell Url Value) (Fits : Call → App Url → Type 0) where
  -- Each call fits the app that it finds.
  abbrev pub AllFit : List (Uuid × Call) → App Url → Type 0
  AllFit [] app = Unit {0}
  AllFit ((token, call) ∷ calls) app = Fits call app × AllFit calls (invoke shell token call app).1

module _ {Url Value : Type 0} (shell : Shell Url Value) (P : ConfigDocument → Type 0)
    (marked : (doc : ConfigDocument) (m : Meta) → P doc → P (record doc { meta = m })) where
  abbrev Holds : App Url → Type 0
  Holds app = P app.config.state.doc

  state-read_config :
      (path : FilePath) (app : App Url)
      → (Calls.read_config shell path app).1.config.state ≡ app.config.state
  unfolding Calls.read_config
  state-read_config path app = elim (Result-cases (read_to_string path app.config.disk).0) [
    | inl (raw, found) ↦ rw found refl
    | inr (e, failed) ↦ rw failed refl
  ]

  lift-keeps :
      (r : Result (Unit {0}) String) (m : Command Url (Unit {0})) (app : App Url)
      → Holds app
      → Holds (m app).1
      → Holds ((lift r >> m) app).1
  lift-keeps (ok u) m app h k = k
  lift-keeps (err e) m app h k = h

  module _ (token : Uuid) (app : App Url) (holds : Holds app) where
    autostart-keeps :
        (enabled : Bool)
        → P (put_launch_at_login enabled app.config.state.doc)
        → Holds
            ((Calls.set_autostart shell enabled >> edit shell token (put_launch_at_login enabled))
              app).1
    unfolding Calls.set_autostart
    autostart-keeps enabled keeps = elim (Result-cases (shell.set_autostart enabled)) [
      | inl (u, done) ↦
          rw (done, Calls.set_autostart)
            (edit-keeps shell token P marked (put_launch_at_login enabled)
              (record app { autostart = enabled ∷ app.autostart }) keeps holds)
      | inr (e, failed) ↦ rw (failed, Calls.set_autostart) holds
    ]

    switch-keeps :
        (id : String) (enabled : Bool)
        → P (switch_workspace id enabled app.config.state.doc)
        → Holds (Calls.workspace_set_enabled shell token id enabled app).1
    unfolding Calls.workspace_set_enabled
    switch-keeps id enabled keeps = elim (Bool-cases (has_workspace id app.config.state.doc)) [
      | inl known ↦ rw known (
          unfold edit in
          edit-keeps shell token P marked (switch_workspace id enabled) app keeps holds)
      | inr unknown ↦ rw unknown holds
    ]

    language-keeps :
        (language : LanguagePref)
        → P (put_language language app.config.state.doc)
        → Holds (Calls.set_language shell token language app).1
    unfolding Calls.set_language
    language-keeps language keeps =
        let kept = edit-keeps shell token P marked (put_language language) app keeps holds in
        elim (Result-cases (edit shell token (put_language language) app).0) [
          | inl (u, done) ↦ rw done kept
          | inr (e, failed) ↦ rw failed kept
        ]

    import-keeps :
        (path : FilePath)
        → AllOk P (Calls.read_config shell path app).0
        → Holds ((Calls.read_config shell path >>= λ doc. replace_config shell token doc) app).1
    import-keeps path keeps =
        let same = state-read_config path app in
        let still : Holds (Calls.read_config shell path app).1 =
          subst (λ s. P s.doc) (sym same) holds in
        elim (Result-cases (Calls.read_config shell path app).0) [
          | inl (doc, found) ↦ rw found (
              replace_config-keeps shell token P marked doc (Calls.read_config shell path app).1
                (rw found at keeps) still)
          | inr (e, failed) ↦ rw failed still
        ]

    pub invoke-keeps :
        (call : Call) → Comes shell P call app → Holds (invoke shell token call app).1
    unfolding invoke Calls.config_replace Calls.import_config Calls.rule_upsert Calls.rule_delete
        Calls.workspace_upsert Calls.workspace_delete Calls.set_smart_routing
        Calls.set_launch_at_login Calls.set_picker_style Calls.set_profile_order
        Calls.add_custom_browser Calls.remove_custom_browser Calls.browser_set_enabled
    invoke-keeps (config_replace new) keeps =
        replace_config-keeps shell token P marked new app keeps holds
    invoke-keeps (import_config path) keeps =
        lift-keeps (require_direct shell.edition "Path-based configuration import")
          (Calls.read_config shell path >>= λ doc. replace_config shell token doc) app holds
          (import-keeps path keeps)
    invoke-keeps (rule_upsert rule) keeps =
        edit-keeps shell token P marked (put_rule rule) app keeps holds
    invoke-keeps (rule_delete id) keeps =
        edit-keeps shell token P marked (drop_rule id) app keeps holds
    invoke-keeps (workspace_upsert workspace) keeps =
        edit-keeps shell token P marked (put_workspace workspace) app keeps holds
    invoke-keeps (workspace_delete id) keeps =
        edit-keeps shell token P marked (drop_workspace id) app keeps holds
    invoke-keeps (workspace_set_enabled id enabled) keeps = switch-keeps id enabled keeps
    invoke-keeps (set_smart_routing enabled) keeps =
        edit-keeps shell token P marked (put_smart_routing enabled) app keeps holds
    invoke-keeps (set_launch_at_login enabled) keeps =
        lift-keeps (require_direct shell.edition "Launch at login")
          (Calls.set_autostart shell enabled >> edit shell token (put_launch_at_login enabled)) app
          holds (autostart-keeps enabled keeps)
    invoke-keeps (set_language language) keeps = language-keeps language keeps
    invoke-keeps (set_picker_style style) keeps =
        edit-keeps shell token P marked (put_picker_style style) app keeps holds
    invoke-keeps (set_profile_order browser ids) keeps =
        lift-keeps (require_direct shell.edition "Profile ordering")
          (edit shell token (put_profile_order browser ids)) app holds
          (edit-keeps shell token P marked (put_profile_order browser ids) app keeps holds)
    invoke-keeps (add_custom_browser browser) keeps =
        lift-keeps (require_direct shell.edition "Custom browsers")
          (edit shell token (put_custom_browser browser)) app holds
          (edit-keeps shell token P marked (put_custom_browser browser) app keeps holds)
    invoke-keeps (remove_custom_browser id) keeps =
        edit-keeps shell token P marked (drop_custom_browser id) app keeps holds
    invoke-keeps (browser_set_enabled id enabled) keeps =
        edit-keeps shell token P marked (switch_browser id enabled) app keeps holds

  -- So it is with calls each of which would save a document with the predicate, given that it holds
  -- before.
  pub invoke_all-keeps :
      (Fits : Call → App Url → Type 0)
      → ((call : Call) (app : App Url) → Fits call app → Holds app → Comes shell P call app)
      → (calls : List (Uuid × Call)) (app : App Url) → AllFit shell Fits calls app
      → Holds app
      → Holds (invoke_all shell calls app)
  unfolding invoke_all
  invoke_all-keeps Fits keeps [] app fit h = h
  invoke_all-keeps Fits keeps ((token, call) ∷ calls) app fit h =
      invoke_all-keeps Fits keeps calls (invoke shell token call app).1 fit.1
        (invoke-keeps token app h call (keeps call app fit.0 h))
