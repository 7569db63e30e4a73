-- ===== src/Desktop/Commands/Merging.antt =====
-- The list of browsers with the user's own (`merged_browsers`,
-- apps/desktop/src-tauri/src/commands/mod.rs).
use link_pilot.Prelude.{
  String, ◌≡◌, refl, Option, none, some, List, [], ◌∷◌, ◌==◌, arith, if◌then◌else◌,
}
use link_pilot.Prelude.Updates.{with_key, with_key-upsert, upsert}
use link_pilot.Core.Browser.{InstalledBrowser}
use link_pilot.Core.Daemon.{or_default}
use link_pilot.Desktop.Commands.Base.{App, Shell}
use link_pilot.Desktop.Commands.Edits.{merge_custom}
use link_pilot.Desktop.Commands.Calls.{merged_browsers}
use link_pilot.Desktop.Commands.Identifiers.{text_to, text_from}

abbrev pub browser_in : List InstalledBrowser → String → Option InstalledBrowser
browser_in browsers id = with_key ◌==◌ (λ b. b.id) id browsers

-- The last of the browsers with the identifier.
abbrev pub last_in : List InstalledBrowser → String → Option InstalledBrowser
last_in [] id = none
last_in (c ∷ customs) id = elim (last_in customs id) [
  | some b ↦ some b
  | none ↦ if c.id == id then some c else none
]

abbrev pub or_else : Option InstalledBrowser → Option InstalledBrowser → Option InstalledBrowser
or_else (some b) other = some b
or_else none other = other

merge_custom_lem :
    (id : String) (customs detected : List InstalledBrowser)
    → browser_in (merge_custom detected customs) id
      ≡ or_else (last_in customs id) (browser_in detected id)
unfolding merge_custom
merge_custom_lem id [] detected = refl
merge_custom_lem id (c ∷ customs) detected = ground (
  arith,
  merge_custom_lem id customs (upsert (λ b. b.id == c.id) c detected),
  with_key-upsert ◌==◌ (λ (b : InstalledBrowser). b.id) text_to text_from id c detected,
)

-- In the list of browsers an identifier stands for the user's last browser of that identifier, or,
-- where the user has none, for the first that was detected.
pub merged_browsers-last_in :
    {Url Value : Type 0} (shell : Shell Url Value) (app : App Url) (id : String)
    → browser_in (merged_browsers shell app) id
      ≡ or_else
          (last_in app.config.state.doc.custom_browsers id)
          (browser_in (or_default shell.installed_browsers []) id)
unfolding merged_browsers
merged_browsers-last_in shell app id =
    merge_custom_lem id app.config.state.doc.custom_browsers
      (or_default shell.installed_browsers [])
