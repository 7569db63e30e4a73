-- ===== src/Mac/Inventory.antt =====
-- crates/platform-mac/src/inventory.rs: the browsers that are installed, and their profiles. `Registry`
-- is the table of the known ones; `Lookups` has theorems.
pub mod Registry
pub mod Lookups
use link_pilot.Prelude.{
  String, Bool, Option, none, some, List, [], ◌∷◌, ◌++◌, map, find, Result, ok, err, map_err,
  if◌then◌else◌, not, ◌==◌, unwrap_or,
}
use link_pilot.Prelude.Tasks.{Task, pure, within}
use link_pilot.Core.Browser.{BrowserId, BrowserKind, BrowserProfile, InstalledBrowser}
use link_pilot.Core.Platform.{PlatformError}
use link_pilot.Core.Files.{FilePath, Disk, IoError, join}
use link_pilot.Core.Inventory.{
  ChromiumProfileEntry, parse_chromium_profiles, parse_firefox_profiles,
}
use link_pilot.Mac.Inventory.Registry.{KnownBrowser, registry}

-- The variable `HOME`, `Path::exists`, and what `plutil` extracts of an app's property list for a key,
-- where it succeeds and the trimmed output is not empty.
pub record System : Type 0 where
  pub home : Option FilePath
  pub exists : FilePath → Bool
  pub info_plist_key : FilePath → String → Option String

abbrev map_option : {A B : Type 0} → Option A → (A → B) → Option B
map_option none f = none
map_option (some a) f = some (f a)

-- The first of the paths that is there.
abbrev first_path : Option FilePath → List FilePath → Option FilePath
first_path (some path) _ = some path
first_path none [] = none
first_path none (path ∷ paths) = some path

module _ (mac : System) where
  unfoldable pub search_dirs : List FilePath
  search_dirs =
      ("Applications" ∷ [])
      ∷ elim mac.home [ none ↦ [] | some home ↦ join home "Applications" ∷ [] ]

  unfoldable pub application_support_root : Option FilePath
  application_support_root =
      map_option mac.home (λ home. join (join home "Library") "Application Support")

  abbrev or_path : Option FilePath → Option FilePath → Option FilePath
  or_path none later = later
  or_path (some path) later = some path

  -- The loop over the directories.
  unfoldable pub find_in : List String → List FilePath → Option FilePath
  find_in names [] = none
  find_in names (base ∷ bases) =
      or_path (find mac.exists (map (join base) names)) (find_in names bases)

  unfoldable pub find_app_path : KnownBrowser → Option FilePath
  find_app_path entry = find_in entry.app_dir_names search_dirs

  unfoldable pub executable_path : FilePath → KnownBrowser → FilePath
  executable_path app_path entry =
      join (join (join app_path "Contents") "MacOS")
        (unwrap_or (mac.info_plist_key app_path "CFBundleExecutable") entry.binary)

  unfoldable pub bundle_id : FilePath → KnownBrowser → String
  bundle_id app_path entry =
      unwrap_or (mac.info_plist_key app_path "CFBundleIdentifier") entry.bundle_id

  -- The first candidate that is there, or the first one.
  unfoldable pub profile_root : KnownBrowser → Option FilePath → Option FilePath
  profile_root entry none = none
  profile_root entry (some asroot) =
      let candidates = map (λ rel. rel ++ asroot) entry.profile_roots_rel in
      first_path (find mac.exists candidates) candidates

  unfoldable pub installed_at : KnownBrowser → FilePath → InstalledBrowser
  installed_at entry app_path = record {
    id = entry.id;
    display_name = entry.display_name;
    kind = entry.kind;
    executable = executable_path app_path entry;
    platform_app_id = some (bundle_id app_path entry);
    profile_root = profile_root entry application_support_root;
  }

  -- A turn of the loop.
  unfoldable pub with_installed :
      KnownBrowser → Option FilePath → List InstalledBrowser → List InstalledBrowser
  with_installed entry none rest = rest
  with_installed entry (some app_path) rest = installed_at entry app_path ∷ rest

  unfoldable pub installed_among : List KnownBrowser → List InstalledBrowser
  installed_among [] = []
  installed_among (entry ∷ entries) =
      with_installed entry (find_app_path entry) (installed_among entries)

  unfoldable pub installed_browsers : List InstalledBrowser
  installed_browsers = installed_among registry

  module _ (parse : String → Result (List (String × ChromiumProfileEntry)) String) where
    abbrev on_disk : {A : Type 0} → Task Disk IoError A → Task Disk PlatformError A
    on_disk = within (λ d. d) (λ d _. d) PlatformError.io

    -- The `match` on the kind.
    unfoldable pub profiles_at :
        BrowserKind → FilePath → Task Disk PlatformError (List BrowserProfile)
    profiles_at BrowserKind.firefox root =
        if mac.exists (join root "profiles.ini")
        then on_disk (parse_firefox_profiles (join root "profiles.ini"))
        else pure []
    profiles_at BrowserKind.chromium root = on_disk (parse_chromium_profiles parse root)
    profiles_at BrowserKind.arc root = on_disk (parse_chromium_profiles parse root)
    profiles_at BrowserKind.safari root = pure []
    profiles_at BrowserKind.unknown root = pure []

    unfoldable pub profiles_under :
        BrowserKind → Option FilePath → Task Disk PlatformError (List BrowserProfile)
    profiles_under kind none = pure []
    profiles_under kind (some root) = if mac.exists root then profiles_at kind root else pure []

    unfoldable pub profiles_of : Option KnownBrowser → Task Disk PlatformError (List BrowserProfile)
    profiles_of none = pure []
    profiles_of (some entry) =
        profiles_under entry.kind (profile_root entry application_support_root)

    -- `BrowserInventory::profiles`
    unfoldable pub profiles : BrowserId → Task Disk PlatformError (List BrowserProfile)
    profiles browser = profiles_of (find (λ e. e.id == browser) registry)
