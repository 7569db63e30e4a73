-- ===== src/Desktop/Commands/Suggestions.antt =====
-- apps/desktop/src-tauri/src/suggestions.rs: the commands on the log of observations.
use link_pilot.Prelude.{ℕ, String, Option, List}
use link_pilot.Prelude.Tasks.{within}
use link_pilot.Core.Files.{FilePath, Io}
use link_pilot.Core.Observations.Entries.{Suggestion}
use link_pilot.Core.Observations.Aggregate.{Floats, Picks}
use link_pilot.Core.Observations.Logs.{
  LogJson, list_suggestions, dismiss, clear_observations, export_log,
}
use link_pilot.Desktop.Commands.Base.{Shell, Command}

-- The store of the app: the crate `serde_json`, the two paths, and the order in which a `HashMap`
-- yields its entries.
pub record Log (F : Type 0) : Type 0 where
  pub json : LogJson
  pub observations_path : FilePath
  pub dismissed_path : FilePath
  pub floats : Floats F
  pub iterate : Picks → Picks

module _ {Url Value F : Type 0} (shell : Shell Url Value) (store : Log F) where
  -- `….map_err(|e| e.to_string())`
  abbrev on_store : {A : Type 0} → Io A → Command Url A
  on_store op =
      within (λ app. app.config.disk)
        (λ d app. record app { config = record app.config { disk = d } }) shell.show_io op

  -- `now` and `later` are the readings of the clock.
  unfoldable pub suggestions_list : (now : ℕ) → Command Url (List (Suggestion F))
  suggestions_list now = on_store (
      list_suggestions store.json store.observations_path store.dismissed_path store.floats
        store.iterate now)

  unfoldable pub suggestions_dismiss :
      (host browser_id : String) → Option String → (now later : ℕ) → Command Url (Unit {0})
  suggestions_dismiss host browser_id profile_id now later = on_store (
      dismiss store.json store.observations_path store.dismissed_path
        (record { host = host; browser_id = browser_id; profile_id = profile_id }) now later)

  unfoldable pub observations_clear : Command Url (Unit {0})
  observations_clear =
      on_store (clear_observations store.json store.observations_path store.dismissed_path)

  unfoldable pub observations_export : FilePath → Command Url (Unit {0})
  observations_export dest =
      on_store (export_log store.json store.observations_path store.dismissed_path dest)
