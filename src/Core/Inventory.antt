-- ===== src/Core/Inventory.antt =====
-- crates/core/src/inventory.rs: the profiles of a browser, read from its own files. `Accents` has the
-- colour of a profile, `RoundTrip` the theorem on Firefox's file.
pub mod Accents
pub mod RoundTrip
use link_pilot.Prelude.{
  String, Bool, true, false, ◌&&◌, Option, none, some, List, [], ◌∷◌, ◌++◌, map, Result, ok, err,
  map_err, if◌then◌else◌, ◌==◌, unwrap_or, starts_with, ends_with, strip_prefix,
}
use link_pilot.Prelude.Parsing.{trim}
use link_pilot.Prelude.Tasks.{pure, lift, ◌>>=◌}
use link_pilot.Core.Browser.{BrowserProfile}
use link_pilot.Core.Files.{FilePath, Io, IoError, other, read_to_string}
use link_pilot.Core.Observations.Logs.{lines}
use link_pilot.Core.Inventory.Accents.{accent_for}

pub record ChromiumProfileEntry : Type 0 where
  pub name : Option String
  pub gaia_name : Option String
  pub user_name : Option String
  pub avatar_icon : Option String

-- `a.or(b)`
abbrev or_else : Option String → Option String → Option String
or_else none b = b
or_else (some a) b = some a

-- The closure of `parse_chromium_profiles`.
unfoldable pub chromium_profile : String × ChromiumProfileEntry → BrowserProfile
chromium_profile (id, entry) = record {
  id = id;
  display_name = unwrap_or (or_else entry.name entry.gaia_name) "Profile";
  avatar_url = entry.avatar_icon;
  email = or_else entry.user_name entry.gaia_name;
  accent_color = some (accent_for id);
  is_default = id == "Default";
}

-- `parse` is `serde_json` on a `ChromiumLocalState`, of which only the map `info_cache` is read, in
-- the order of its keys.
unfoldable pub parse_chromium_profiles :
    (parse : String → Result (List (String × ChromiumProfileEntry)) String)
    → FilePath
    → Io (List BrowserProfile)
parse_chromium_profiles parse user_data_root = do
  raw ← read_to_string ("Local State" ∷ user_data_root)
  entries ← lift (map_err other (parse raw))
  pure (map chromium_profile entries)

-- The variables of the loop over the lines.
pub record Reading : Type 0 where
  pub found : List BrowserProfile
  pub current_name : Option String
  pub current_path : Option String
  pub current_default : Bool

abbrev pub firefox_profile : String → String → Bool → BrowserProfile
firefox_profile name path default = record {
  id = path;
  display_name = name;
  avatar_url = none;
  email = none;
  accent_color = some (accent_for path);
  is_default = default;
}

-- The closure `flush`.
unfoldable pub flush :
    List BrowserProfile → Option String → Option String → Bool → List BrowserProfile
flush found (some name) (some path) default = found ++ firefox_profile name path default ∷ []
flush found _ _ default = found

abbrev pub start : Reading
start = record { found = []; current_name = none; current_path = none; current_default = false }

-- The keys of a line, each tried where the ones in front of it fail.
unfoldable pub read_default : Option String → Reading → Reading
read_default none r = r
read_default (some rest) r = record r { current_default = trim rest == "1" }

unfoldable pub read_path : Option String → String → Reading → Reading
read_path none line r = read_default (strip_prefix line "Default=") r
read_path (some rest) line r = record r { current_path = some rest }

unfoldable pub read_name : Option String → String → Reading → Reading
read_name none line r = read_path (strip_prefix line "Path=") line r
read_name (some rest) line r = record r { current_name = some rest }

-- One turn, on the trimmed line.
unfoldable pub read_line : String → Reading → Reading
read_line line r =
    if starts_with line "[" && ends_with line "]"
    then record start { found = flush r.found r.current_name r.current_path r.current_default }
    else read_name (strip_prefix line "Name=") line r

unfoldable pub read_lines : List String → Reading → List BrowserProfile
read_lines [] r = flush r.found r.current_name r.current_path r.current_default
read_lines (line ∷ rest) r = read_lines rest (read_line (trim line) r)

unfoldable pub parse_firefox_profiles : FilePath → Io (List BrowserProfile)
parse_firefox_profiles profiles_ini = do
  raw ← read_to_string profiles_ini
  pure (read_lines (lines raw) start)
