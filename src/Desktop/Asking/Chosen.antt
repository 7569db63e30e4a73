-- ===== src/Desktop/Asking/Chosen.antt =====
-- What an ask gives (apps/desktop/src-tauri/src/dispatch.rs).
use mathlib.Core.List.{Memᴰ}
use link_pilot.Prelude.{String, ◌≡◌, ap, ◌∙◌, true, Option, none, some, List, [], ◌∷◌, ok, All}
use link_pilot.Core.Browser.{BrowserTarget, InstalledBrowser}
use link_pilot.Core.Config.{ConfigDocument}
use link_pilot.Core.Files.{Disk}
use link_pilot.Core.Routing.Context.{UrlCrate}
use link_pilot.Desktop.Picker.{PickerPick, PickerSession}
use link_pilot.Desktop.Asking.Offers.{Browsers, raw_source, ask_source, hidden, target_for}
use link_pilot.Desktop.Asking.{
  Recorder, ShowPicker, picked_target, session_of, picked_among, found_for, offered, resolve_ask,
  record_ask_observation,
}
use link_pilot.Desktop.Asking.Sources.{target_for-mem}

module _ {Url : Type 0} (urls : UrlCrate Url) (browsers : Browsers) (recorder : Recorder)
    (show_picker : ShowPicker) where
  -- The session of an ask.
  abbrev pub ask_session :
      ConfigDocument → List InstalledBrowser → List BrowserTarget → String → PickerSession
  ask_session doc installed candidates url =
      session_of urls browsers recorder show_picker doc installed
        (ask_source doc.settings.disabled_browsers (raw_source installed candidates)) url

  pub record Chosen (doc : ConfigDocument) (installed : List InstalledBrowser)
      (candidates : List BrowserTarget) (url : String) (target : BrowserTarget) : Type 0 where
    pub pick : PickerPick
    pub origin : BrowserTarget
    pub shown : show_picker (ask_session doc installed candidates url) ≡ some pick
    pub of_browser : origin.browser ≡ pick.browser_id
    pub as_picked : target ≡ picked_target pick origin
    pub there : Memᴰ origin (raw_source installed candidates)
    pub visible :
        hidden doc.settings.disabled_browsers origin ≡ true
        → All
            (λ s. hidden doc.settings.disabled_browsers s ≡ true)
            (raw_source installed candidates)

  abbrev pub Answer : Type 0
  Answer = Option BrowserTarget × Disk

  -- Where a part of the ask has no target it leaves the disk, and where it has one the observation is
  -- made of it.
  abbrev pub Recorded : ConfigDocument → String → Disk → Answer → Type 0
  Recorded doc url d (none, d') = d' ≡ d
  Recorded doc url d (some target, d') = d' ≡ record_ask_observation urls recorder doc url target d

  module _ (doc : ConfigDocument) (candidates : List BrowserTarget) (url : String) (d : Disk) where
    abbrev source_of : List InstalledBrowser → List BrowserTarget
    source_of installed =
        ask_source doc.settings.disabled_browsers (raw_source installed candidates)

    abbrev Shown : Answer → Type 0
    Shown a =
        ((target : BrowserTarget)
          → a.0 ≡ some target
          → (installed : List InstalledBrowser) × (browsers.installed ≡ ok installed)
            × Chosen doc installed candidates url target)
        × Recorded doc url d a

    resolve_ask_ok :
        (installed : List InstalledBrowser)
        → browsers.installed ≡ ok installed
        → resolve_ask urls browsers recorder show_picker doc candidates url d
          ≡ offered urls browsers recorder show_picker doc installed (source_of installed) url d
    unfolding resolve_ask
    resolve_ask_ok installed h = rw h

    answered_by :
        (installed : List InstalledBrowser) (source : List BrowserTarget) (t : BrowserTarget)
        (pick : PickerPick) (candidate : BrowserTarget)
        → Memᴰ t source
        → show_picker (session_of urls browsers recorder show_picker doc installed source url)
          ≡ some pick
        → target_for source pick.browser_id ≡ some candidate
        → (offered urls browsers recorder show_picker doc installed source url d).0
          ≡ some (picked_target pick candidate)
    unfolding offered picked_among found_for
    answered_by installed [] t pick candidate m shown found = elim m [ ]
    answered_by installed (s ∷ source) t pick candidate m shown found =
        rw (shown, picked_among, found)

    -- A pick of a browser that is offered gives a target.
    pub resolve_ask_answered :
        {installed : List InstalledBrowser} {pick : PickerPick} (t : BrowserTarget)
        → browsers.installed ≡ ok installed
        → Memᴰ t (ask_source doc.settings.disabled_browsers (raw_source installed candidates))
        → show_picker (ask_session doc installed candidates url) ≡ some pick
        → t.browser ≡ pick.browser_id
        → (target : BrowserTarget) × ((resolve_ask urls browsers recorder show_picker doc candidates
              url d).0
            ≡ some target)
    resolve_ask_answered {installed} {pick} t there m shown same =
        let (candidate, found) = target_for-mem t (source_of installed) [] m in
        (
          picked_target pick candidate,
          ap (λ a. a.0) (resolve_ask_ok installed there)
              ∙ answered_by installed (source_of installed) t pick candidate m shown
                  (rw same at found),
        )
