-- ===== src/Mac/Launcher.antt =====
-- crates/platform-mac/src/launcher.rs: how a browser is started with a URL.
use link_pilot.Prelude.{
  String, Bool, Option, none, some, List, [], ◌∷◌, ◌++◌, find, Result, ok, err, if◌then◌else◌, ◌==◌,
  ◌⧺◌,
}
use link_pilot.Core.Browser.{BrowserKind, BrowserTarget, InstalledBrowser}
use link_pilot.Core.Files.{FilePath, IoError}
use link_pilot.Core.Platform.{PlatformError}

-- A `Command`: the program and its arguments.
pub record Command : Type 0 where
  pub program : FilePath
  pub args : List String

abbrev pub usr_bin_open : FilePath
usr_bin_open = "open" ∷ "bin" ∷ "usr" ∷ []

-- `if let Some(profile) = …`
abbrev with_option : Option String → (String → List String) → List String
with_option none f = []
with_option (some profile) f = f profile

abbrev when : Bool → String → List String
when test arg = if test then arg ∷ [] else []

unfoldable pub chromium_args : BrowserTarget → String → List String
chromium_args target url =
    with_option target.profile (λ profile. ("--profile-directory=" ⧺ profile) ∷ [])
    ++ (when target.new_window "--new-window" ++ (when target.incognito "--incognito" ++ url ∷ []))

unfoldable pub firefox_args : BrowserTarget → String → List String
firefox_args target url =
    with_option target.profile (λ profile. "-P" ∷ profile ∷ [])
    ++ ((if target.incognito
          then "-private-window"
          else if target.new_window
          then "-new-window"
          else "-url")
        ∷ url
        ∷ [])

abbrev pub open_app : InstalledBrowser → String → Command
open_app browser url = record {
  program = usr_bin_open;
  args = "-a" ∷ browser.display_name ∷ url ∷ [];
}

unfoldable pub command_for : BrowserKind → InstalledBrowser → BrowserTarget → String → Command
command_for BrowserKind.chromium browser target url = record {
  program = browser.executable;
  args = chromium_args target url;
}
command_for BrowserKind.firefox browser target url = record {
  program = browser.executable;
  args = firefox_args target url;
}
command_for _ browser target url = open_app browser url

-- `activate_by_bundle_id`, where there is one.
abbrev activation : Option String → List Command
activation none = []
activation (some bundle) = record { program = usr_bin_open; args = "-b" ∷ bundle ∷ [] } ∷ []

-- What follows the spawn of the command: the result, and the commands tried, the first one first.
unfoldable pub launched :
    Option String
    → Command
    → Result (Unit {0}) IoError
    → Result (Unit {0}) PlatformError × List Command
launched bundle_id cmd (ok _) = (ok tt, cmd ∷ activation bundle_id)
launched bundle_id cmd (err e) = (err (PlatformError.io e), cmd ∷ [])

-- `UrlLauncher::open`; `spawn` is the outcome of a spawn.
unfoldable pub open_browser :
    Result (List InstalledBrowser) PlatformError
    → (spawn : Command → Result (Unit {0}) IoError) → BrowserTarget
    → (url_str : String) → Result (Unit {0}) PlatformError × List Command
open_browser (err e) spawn target url = (err e, [])
open_browser (ok browsers) spawn target url = elim (find (λ b. b.id == target.browser) browsers) [
  | none ↦ (
    err (PlatformError.other ("browser '" ⧺ (target.browser ⧺ "' is not installed on this Mac"))),
    [],
  )
  | some browser ↦
      let cmd = command_for browser.kind browser target url in
      launched browser.platform_app_id cmd (spawn cmd)
]
