-- ===== src/Core/Browser.antt =====
-- crates/core/src/browser.rs: browsers, profiles and routing targets.
use link_pilot.Prelude.{String, Bool, false, Option, none, some}
use link_pilot.Core.Files.{FilePath}

-- The stable identifier of a browser product; the newtype is transparent.
abbrev pub BrowserId : Type 0
BrowserId = String

pub data BrowserKind : Type 0 where
  chromium firefox safari arc unknown : BrowserKind

pub record InstalledBrowser : Type 0 where
  pub id : BrowserId
  pub display_name : String
  pub kind : BrowserKind
  pub executable : FilePath
  pub platform_app_id : Option String
  pub profile_root : Option FilePath

pub record BrowserProfile : Type 0 where
  pub id : String
  pub display_name : String
  pub avatar_url : Option String
  pub email : Option String
  pub accent_color : Option String
  pub is_default : Bool

pub record BrowserTarget : Type 0 where
  pub browser : BrowserId
  pub profile : Option String
  pub workspace : Option String
  pub incognito : Bool
  pub new_window : Bool

-- `BrowserTarget::new`
abbrev pub target_of : BrowserId → BrowserTarget
target_of browser = record {
  browser = browser;
  profile = none;
  workspace = none;
  incognito = false;
  new_window = false;
}

abbrev pub with_profile : BrowserTarget → String → BrowserTarget
with_profile target profile = record target { profile = some profile }
