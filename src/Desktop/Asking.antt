-- ===== src/Desktop/Asking.antt =====
-- apps/desktop/src-tauri/src/dispatch.rs: the thread of an ask, which offers browsers in the picker,
-- records what was picked and opens it. `Offers` has what is offered, `Sources` and
-- `Chosen` the theorems.
pub mod Offers
pub mod Preview
pub mod Sources
pub mod Chosen
use link_pilot.Prelude.{
  ℕ, String, Bool, Option, none, some, List, [], ◌∷◌, Result, ok, err, if◌then◌else◌,
}
use link_pilot.Core.Browser.{BrowserTarget, InstalledBrowser, with_profile}
use link_pilot.Core.Config.{ConfigDocument}
use link_pilot.Core.Files.{FilePath, Disk}
use link_pilot.Core.Routing.Context.{UrlCrate}
use link_pilot.Core.Observations.Entries.{Observation}
use link_pilot.Core.Observations.Logs.{LogJson, append_observation}
use link_pilot.Desktop.Dispatch.{Desk, Launcher, open_with_default_fallback}
use link_pilot.Desktop.Picker.{PickerSession, PickerPick}
use link_pilot.Desktop.Asking.Offers.{Browsers, choices_of, target_for, raw_source, ask_source}

-- `show_picker` for an ask: the session it is called with gives what it returns.
abbrev pub ShowPicker : Type 0
ShowPicker = PickerSession → Option PickerPick

-- What the recording of an ask works with: the crate `serde_json`, the path of the log, and the clock.
pub record Recorder : Type 0 where
  pub json : LogJson
  pub observations_path : FilePath
  pub now : ℕ

abbrev pub observation_of : ℕ → String → BrowserTarget → Observation
observation_of now host target = record {
  timestamp_ms = now;
  host = host;
  source_app = none;
  browser_id = target.browser;
  profile_id = target.profile;
}

-- The profile of the pick, where it has one.
abbrev pub picked_target : PickerPick → BrowserTarget → BrowserTarget
picked_target pick target = elim pick.profile_id [
  | none ↦ target
  | some profile ↦ with_profile target profile
]

module _ {Url : Type 0} (urls : UrlCrate Url) where
  abbrev host_of : String → Option String
  host_of url = elim (urls.parse url) [ err e ↦ none | ok parsed ↦ urls.host_str parsed ]

  -- An error is logged and left.
  unfoldable pub record_ask_observation :
      Recorder → ConfigDocument → String → BrowserTarget → Disk → Disk
  record_ask_observation recorder doc url target d =
      if doc.settings.behavior_log_enabled
      then (elim (host_of url) [
        | none ↦ d
        | some host ↦
            (append_observation recorder.json recorder.observations_path recorder.observations_path
              (observation_of recorder.now host target) d).1
      ])
      else d

  module _ (browsers : Browsers) (recorder : Recorder) (show_picker : ShowPicker) where
    -- The session that the picker is shown with.
    abbrev pub session_of :
        ConfigDocument → List InstalledBrowser → List BrowserTarget → String → PickerSession
    session_of doc installed source url = record {
      url = url;
      choices = choices_of browsers installed doc.settings.profile_orders source;
      style = doc.settings.picker_style;
    }

    -- What the map has for the pick.
    unfoldable pub found_for :
        ConfigDocument
        → String
        → PickerPick
        → Option BrowserTarget
        → Disk
        → Option BrowserTarget × Disk
    found_for doc url pick none d = (none, d)
    found_for doc url pick (some target) d = (
      some (picked_target pick target),
      record_ask_observation recorder doc url (picked_target pick target) d,
    )

    -- From the pick on.
    unfoldable pub picked_among :
        ConfigDocument
        → List BrowserTarget
        → String
        → Option PickerPick
        → Disk
        → Option BrowserTarget × Disk
    picked_among doc source url none d = (none, d)
    picked_among doc source url (some pick) d =
        found_for doc url pick (target_for source pick.browser_id) d

    unfoldable pub offered :
        ConfigDocument
        → List InstalledBrowser
        → List BrowserTarget
        → String
        → Disk
        → Option BrowserTarget × Disk
    offered doc installed [] url d = (none, d)
    offered doc installed (target ∷ source) url d =
        picked_among doc (target ∷ source) url
          (show_picker (session_of doc installed (target ∷ source) url)) d

    unfoldable pub resolve_ask :
        ConfigDocument → List BrowserTarget → String → Disk → Option BrowserTarget × Disk
    resolve_ask doc candidates url d = elim browsers.installed [
      | err e ↦ (none, d)
      | ok installed ↦
          offered doc installed
            (ask_source doc.settings.disabled_browsers (raw_source installed candidates)) url d
    ]

    -- The end of the thread: the target is opened where the URL parses.
    unfoldable pub open_chosen :
        Launcher Url → String → BrowserTarget → Option BrowserTarget → Desk Url → Desk Url
    open_chosen launcher url default_target none desk = desk
    open_chosen launcher url default_target (some target) desk = elim (urls.parse url) [
      | err e ↦ desk
      | ok parsed ↦ (open_with_default_fallback launcher target default_target parsed desk).1
    ]

    -- The closure of `spawn_ask`.
    unfoldable pub run_ask :
        Launcher Url
        → ConfigDocument
        → List BrowserTarget
        → String
        → BrowserTarget
        → Desk Url × Disk
        → Desk Url × Disk
    run_ask launcher doc candidates url default_target (desk, d) =
        let (chosen, d') = resolve_ask doc candidates url d in
        (open_chosen launcher url default_target chosen desk, d')
