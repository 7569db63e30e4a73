-- ===== src/Tests/Entries.antt =====
-- The picker, the asks, the ways into the app, Firefox's profiles and the opener at concrete data.
use link_pilot.Prelude.{
  ℕ, String, ◌==◌, map, ◌≡◌, inl, refl, true, false, Option, none, some, List, [], ◌∷◌, ok, err,
  arith, if◌then◌else◌,
}
use link_pilot.Core.Browser.{BrowserKind, InstalledBrowser}
use link_pilot.Core.Config.{frosted}
use link_pilot.Prelude.Parsing.{trim}
use link_pilot.Core.Files.{Disk, path_eq}
use link_pilot.Core.Inventory.{firefox_profile, parse_firefox_profiles}
use link_pilot.Core.Inventory.RoundTrip.{
  unlines, sections, Numbered, IsPlain, parse_firefox_profiles-sections,
}
use link_pilot.Desktop.Picker.{
  PickerSession, PickerPick, Event, show, built, failed, resolve, deliver, receive, expire,
  clear_session, clear_pending, run, empty_room,
}
use link_pilot.Desktop.Picker.Blocked.{run-failed}
use link_pilot.Desktop.Asking.{Recorder}
use link_pilot.Desktop.Asking.Offers.{Browsers}
use link_pilot.Desktop.Asking.Chosen.{Chosen}
use link_pilot.Desktop.Commands.Calls.{RouteRequest}
use link_pilot.Desktop.Dispatch.{ClickModifiers}
use link_pilot.Core.Platform.{OpenerApp}
use link_pilot.Core.Routing.Context.{RoutingContext}
use link_pilot.Prelude.Int.{ℤ}
use link_pilot.Desktop.Handler.{system_context}
use link_pilot.Mac.Opener.{RecentApp, detect, poll_loop}
use link_pilot.Mac.Opener.Detection.{seen_lately, latest, detect-poll_loop}

abbrev session : PickerSession
session = record { url = "https://example.com/"; choices = []; style = frosted }

abbrev pick : PickerPick
pick = record { browser_id = "chrome"; profile_id = some "Work" }

abbrev events : List Event
events =
    show session
    ∷ built 0
    ∷ resolve (some pick)
    ∷ deliver 0
    ∷ receive 0
    ∷ clear_session 0
    ∷ clear_pending 0
    ∷ []

run-failed_example :
    ((run
        (show session ∷ failed 0 ∷ show session ∷ expire 0 ∷ deliver 0 ∷ [])
        empty_room).slot.pending
      ≡ some 0)
    × (run (show session ∷ failed 0 ∷ show session ∷ expire 0 ∷ deliver 0 ∷ []) empty_room
        ≡ run (show session ∷ failed 0 ∷ []) empty_room)
run-failed_example =
    run-failed empty_room session (show session ∷ expire 0 ∷ deliver 0 ∷ []) refl (λ m. inl refl)
      (λ m. refl) tt

abbrev chrome : InstalledBrowser
chrome = record {
  id = "chrome";
  display_name = "Google Chrome";
  kind = BrowserKind.chromium;
  executable = [];
  platform_app_id = none;
  profile_root = none;
}

abbrev browsers : Browsers
browsers = record {
  installed = ok (chrome ∷ []);
  profiles = λ id. err "no profiles";
  to_string_lossy = λ path. "/Applications/Google Chrome.app/Contents/MacOS/Google Chrome";
}

abbrev recorder : Recorder
recorder = record {
  json = record {
    to_string = λ o. ok o.host;
    from_str = λ text. err "no observation";
    dismissed_to_string_pretty = λ entries. ok "";
    dismissed_from_str = λ text. err "no dismissals";
  };
  observations_path = "observations.ndjson" ∷ [];
  now = 1700000000000;
}

abbrev empty_disk : Disk
empty_disk = record { files = λ path. none; outcomes = [] }

abbrev request : RouteRequest
request = record {
  url = "https://github.com";
  from_app = some "Slack";
  from_app_bundle_id = none;
  from_browser = none;
  from_profile = none;
}

abbrev opener : OpenerApp
opener = record { name = "Slack"; bundle_id = some "com.slack"; executable = none; pid = none }

abbrev click : ClickModifiers
click = record { command = true; option = false; control = false; shift = false }

abbrev now : ℕ
now = 1700000000000

abbrev sent_context : RoutingContext
sent_context = system_context (some opener) "https://example.com/"

abbrev profiles : List Numbered
profiles =
    ("0", firefox_profile "default-release" "Profiles/ab12.default-release" true)
    ∷ ("1", firefox_profile "Work" "Profiles/cd34.work" false)
    ∷ []

profile_fits : IsPlain ("0", firefox_profile "default-release" "Profiles/ab12.default-release" true)
unfolding trim
profile_fits = record {
  header_trimmed = refl;
  header_unbroken = refl;
  name_trimmed = refl;
  path_trimmed = refl;
  name_unbroken = refl;
  path_unbroken = refl;
  of_firefox = refl;
}

work_fits : IsPlain ("1", firefox_profile "Work" "Profiles/cd34.work" false)
unfolding trim
work_fits = record {
  header_trimmed = refl;
  header_unbroken = refl;
  name_trimmed = refl;
  path_trimmed = refl;
  name_unbroken = refl;
  path_unbroken = refl;
  of_firefox = refl;
}

abbrev firefox_disk : Disk
firefox_disk = record {
  files = λ path.
      if path_eq path ("profiles.ini" ∷ []) then some (unlines (sections profiles)) else none;
  outcomes = [];
}

ini_there : firefox_disk.files ("profiles.ini" ∷ []) ≡ some (unlines (sections profiles))
unfolding path_eq
ini_there = refl

parse_firefox_profiles-sections_example :
    (parse_firefox_profiles ("profiles.ini" ∷ []) firefox_disk).0 ≡ ok (map (λ n. n.1) profiles)
parse_firefox_profiles-sections_example =
    parse_firefox_profiles-sections profiles ("profiles.ini" ∷ []) firefox_disk
      (profile_fits, (work_fits, tt)) ini_there refl

abbrev slack : ℕ → RecentApp
slack seen = record { seen = seen; name = "Slack"; bundle_id = some "com.slack"; pid = none }

abbrev own_window : RecentApp
own_window = record {
  seen = 1500;
  name = "LinkPilot";
  bundle_id = some "app.linkpilot.desktop";
  pid = none;
}

abbrev name_of : Option String → Option ℤ → String
name_of (some bundle) pid = if bundle == "com.slack" then "Slack" else "LinkPilot"
name_of none pid = ""

detect-poll_loop_example :
    detect 2000
      (poll_loop "app.linkpilot.desktop" (some (slack 750) ∷ none ∷ some own_window ∷ []) [])
    ≡ seen_lately 2000
        (latest "app.linkpilot.desktop" (some (slack 750) ∷ none ∷ some own_window ∷ []) none)
detect-poll_loop_example =
    detect-poll_loop name_of "app.linkpilot.desktop"
      (some (slack 750) ∷ none ∷ some own_window ∷ []) 2000 (omega arith) (refl, (refl, tt))
