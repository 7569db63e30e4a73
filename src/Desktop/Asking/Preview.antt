-- ===== src/Desktop/Asking/Preview.antt =====
-- apps/desktop/src-tauri/src/picker.rs: the preview of the picker, which offers the installed browsers
-- for a test URL.
use link_pilot.Prelude.{
  String, Bool, not, ◌||◌, Option, none, some, List, [], ◌∷◌, map, filter, any, is_empty, is_some,
  Result, ok, err, if◌then◌else◌, ◌==◌, ◌⧺◌, eqb, starts_with,
}
use link_pilot.Prelude.Parsing.{trim, split_on}
use link_pilot.Core.Browser.{BrowserTarget, InstalledBrowser, target_of}
use link_pilot.Core.Config.{ConfigDocument}
use link_pilot.Core.Routing.Context.{UrlCrate}
use link_pilot.Desktop.Dispatch.{Desk, Launcher, open_target}
use link_pilot.Desktop.Picker.{PickerChoice, PickerSession, PickerPick, PickerState}
use link_pilot.Desktop.Asking.{picked_target}
use link_pilot.Desktop.Asking.Offers.{
  Browsers, app_path_from_executable, picker_profiles, default_profile, target_for, and_then,
}

abbrev pub default_preview_url : String
default_preview_url = "https://example.com/"

-- `s.contains(p)`
unfoldable pub contains_text : String → String → Bool
contains_text p String.[] = starts_with "" p
contains_text p (String.◌∷◌ c s) = starts_with (String.◌∷◌ c s) p || contains_text p s

-- `s.trim_start_matches('[')`
unfoldable pub trim_brackets : String → String
trim_brackets String.[] = ""
trim_brackets (String.◌∷◌ c s) =
    let rest = trim_brackets s in if starts_with (String.◌∷◌ c s) "[" then rest else String.◌∷◌ c s

abbrev first_part : List String → String → String
first_part [] raw = raw
first_part (part ∷ parts) raw = part

unfoldable pub is_local_preview_host : String → Bool
unfolding trim_brackets
is_local_preview_host raw =
    let host =
      trim_brackets
        (first_part (split_on (λ c. eqb c b'/' || (eqb c b'?' || eqb c b'#')) raw) raw) in
    host == "localhost"
    || starts_with host "localhost:"
    || starts_with host "127."
    || starts_with host "0.0.0.0"
    || starts_with host "::1"

-- What is asked for, or the default where it is blank.
abbrev raw_url : Option String → String
raw_url none = default_preview_url
raw_url (some url) =
    let trimmed = trim url in if trimmed == "" then default_preview_url else trimmed

unfoldable pub candidate_url : String → String
unfolding contains_text is_local_preview_host
candidate_url raw =
    if contains_text "://" raw
    then raw
    else if is_local_preview_host raw
    then "http://" ⧺ raw
    else "https://" ⧺ raw

module _ {Url : Type 0} (urls : UrlCrate Url) (scheme to_string : Url → String) where
  unfoldable pub normalize_preview_url : Option String → Result Url String
  normalize_preview_url test_url =
      let raw = raw_url test_url in
      elim (urls.parse (candidate_url raw)) [
        | err e ↦ err ("Invalid test URL '" ⧺ (raw ⧺ ("': " ⧺ e)))
        | ok parsed ↦
            if scheme parsed == "http" || scheme parsed == "https"
            then ok parsed
            else err
                ("Invalid test URL '" ⧺ (raw ⧺ ("': unsupported scheme '" ⧺ (scheme parsed ⧺ "'"))))
      ]

  module _ (browsers : Browsers) where
    unfoldable pub preview_choice : ConfigDocument → InstalledBrowser → PickerChoice
    preview_choice doc b =
        let profiles = picker_profiles browsers doc.settings.profile_orders b.id in
        record {
          id = b.id;
          name = b.display_name;
          bundle_id = b.platform_app_id;
          app_path = some (app_path_from_executable (browsers.to_string_lossy b.executable));
          icon_data_url = none;
          profiles = profiles;
          default_profile_id = and_then (default_profile profiles) (λ p. some p.id);
        }

    unfoldable pub preview_source : List String → List InstalledBrowser → List InstalledBrowser
    preview_source disabled installed =
        let visible = filter (λ b. not (any (λ id. id == b.id) disabled)) installed in
        if is_empty visible then installed else visible

    -- What the thread of a preview gets: the URL, the session, and the targets by their browsers.
    pub record Preview : Type 0 where
      pub parsed_url : Url
      pub session : PickerSession
      pub targets : List BrowserTarget

    unfoldable pub preview_of : ConfigDocument → List InstalledBrowser → Url → Preview
    preview_of doc installed parsed =
        let source = preview_source doc.settings.disabled_browsers installed in
        record {
          parsed_url = parsed;
          session = record {
            url = to_string parsed;
            choices = map (preview_choice doc) source;
            style = doc.settings.picker_style;
          };
          targets = map (λ b. target_of b.id) source;
        }

    -- The checks in front of the thread; the answer is what it starts with.
    unfoldable pub picker_preview :
        ConfigDocument → PickerState → Option String → Result Preview String
    picker_preview doc state test_url = elim browsers.installed [
      | err e ↦ err e
      | ok installed ↦
          if is_empty installed
          then err "No browsers detected — install at least one to preview the picker."
          else if is_some state.pending
          then err "Another picker is already open — finish the current ask first."
          else elim (normalize_preview_url test_url) [
            | err e ↦ err e
            | ok parsed ↦ ok (preview_of doc installed parsed)
          ]
    ]

    -- The target of a pick, where the map has one.
    abbrev preview_target : List BrowserTarget → Option PickerPick → Option BrowserTarget
    preview_target targets none = none
    preview_target targets (some pick) =
        and_then (target_for targets pick.browser_id) (λ target. some (picked_target pick target))

    abbrev launched_preview : Launcher Url → Url → Option BrowserTarget → Desk Url → Desk Url
    launched_preview launcher url none desk = desk
    launched_preview launcher url (some target) desk = (open_target launcher target url desk).1

    -- The thread, with what `show_picker` returned.
    unfoldable pub run_preview : Launcher Url → Preview → Option PickerPick → Desk Url → Desk Url
    run_preview launcher preview picked desk =
        launched_preview launcher preview.parsed_url (preview_target preview.targets picked) desk
