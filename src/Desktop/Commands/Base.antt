-- ===== src/Desktop/Commands/Base.antt =====
-- The state that the commands work on and `replace_config`
-- (apps/desktop/src-tauri/src/commands/mod.rs).
use link_pilot.Prelude.{String, Bool, List, Result}
use link_pilot.Prelude.Tasks.{Task, lift, within, ◌>>=◌, ◌>>◌, gets}
use link_pilot.Core.Browser.{InstalledBrowser}
use link_pilot.Core.Rules.{Uuid}
use link_pilot.Core.Config.{ConfigDocument, WriterId, LanguagePref, AskQuickOpenModifier}
use link_pilot.Core.Files.{FilePath, IoError}
use link_pilot.Core.Store.Documents.{ConfigError, SerdeJson}
use link_pilot.Core.Store.Stores.{World, replace}
use link_pilot.Core.Routing.Context.{UrlCrate}
use link_pilot.Core.History.{RouteHistory, RouteRecord}
use link_pilot.Desktop.Dispatch.{Desk, Launcher}
use link_pilot.Desktop.Distribution.{Edition, validate_document}

-- The configuration and the history of `AppState`, and what the commands did outside of them: the
-- settings of the login item, the languages of the tray's menu and the records emitted to the front
-- end, each with the last one first, and the calls of the launcher with the pickers.
pub record App (Url : Type 0) : Type 0 where
  pub config : World
  pub history : RouteHistory
  pub autostart : List Bool
  pub menu : List LanguagePref
  pub emitted : List RouteRecord
  pub desk : Desk Url

-- The crates, the platform's answers, the path of the configuration and how it and an error are
-- displayed.
pub record Shell (Url Value : Type 0) : Type 0 where
  pub edition : Edition
  pub urls : UrlCrate Url
  pub json : SerdeJson Value
  pub read_document : String → Result ConfigDocument String
  pub path : FilePath
  pub show_path : FilePath → String
  pub show_error : ConfigError → String
  pub show_io : IoError → String
  pub version : String
  pub installed_browsers : Result (List InstalledBrowser) String
  pub is_linkpilot_default : Result Bool String
  pub set_autostart : Bool → Result (Unit {0}) String
  pub is_modifier_pressed : AskQuickOpenModifier → Bool
  pub launcher : Launcher Url

abbrev pub Command : Type 0 → Type 0 → Type 0
Command Url A = Task (App Url) String A

-- `state.config.document()`
abbrev pub document : {Url : Type 0} → Command Url ConfigDocument
document = gets (λ app. app.config.state.doc)

module _ {Url Value : Type 0} (shell : Shell Url Value) where
  -- `state.config.replace(doc, WriterId::Gui).map_err(|e| e.to_string())`
  unfoldable pub save : Uuid → ConfigDocument → Command Url (Unit {0})
  save token doc =
      within (λ app. app.config) (λ w app. record app { config = w }) shell.show_error
        (replace shell.json shell.path token doc WriterId.gui)

  -- `token` is the fresh one of `persist`.
  unfoldable pub replace_config : Uuid → ConfigDocument → Command Url (Unit {0})
  replace_config token doc = do lift (validate_document shell.edition doc); save token doc

  -- A command that changes the document and does nothing else.
  unfoldable pub edit : Uuid → (ConfigDocument → ConfigDocument) → Command Url (Unit {0})
  edit token change = do doc ← document; replace_config token (change doc)
