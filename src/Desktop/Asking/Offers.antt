-- ===== src/Desktop/Asking/Offers.antt =====
-- What a picker offers (apps/desktop/src-tauri/src/dispatch.rs): the browsers, their profiles, and the
-- way back from a choice to its target.
use link_pilot.Prelude.{
  String, Bool, not, Option, none, some, List, [], ◌∷◌, map, filter, find, any, Result, is_empty,
  if◌then◌else◌, ◌==◌, unwrap_or, starts_with,
}
use link_pilot.Prelude.Maps.{get, insert}
use link_pilot.Core.Browser.{BrowserId, BrowserProfile, BrowserTarget, InstalledBrowser, target_of}
use link_pilot.Core.Files.{FilePath}
use link_pilot.Core.Daemon.{or_default}
use link_pilot.Core.Profiles.{apply_profile_order}
use link_pilot.Desktop.Picker.{PickerProfile, PickerChoice}

-- The inventory of the platform, and the text of a path.
pub record Browsers : Type 0 where
  pub installed : Result (List InstalledBrowser) String
  pub profiles : BrowserId → Result (List BrowserProfile) String
  pub to_string_lossy : FilePath → String

-- The text up to the last `.app` with a slash behind it.
unfoldable pub app_prefix : String → Option String
app_prefix String.[] = none
app_prefix (String.◌∷◌ c s) =
    let here = if starts_with (String.◌∷◌ c s) ".app/" then some ".app" else none in
    elim (app_prefix s) [ some later ↦ some (String.◌∷◌ c later) | none ↦ here ]

unfoldable pub app_path_from_executable : String → String
unfolding app_prefix
app_path_from_executable s = unwrap_or (app_prefix s) s

abbrev pub picker_profile : BrowserProfile → PickerProfile
picker_profile p = record {
  id = p.id;
  name = p.display_name;
  email = p.email;
  accent_color = p.accent_color;
  is_default = p.is_default;
}

-- The one marked as the default, or the first.
unfoldable pub default_profile : List PickerProfile → Option PickerProfile
default_profile [] = none
default_profile (p ∷ profiles) = elim (find (λ q. q.is_default) (p ∷ profiles)) [
  | some q ↦ some q
  | none ↦ some p
]

-- `o.and_then(f)`, and `o.map(f)` where `f` ends in `some`.
abbrev pub and_then : {A B : Type 0} → Option A → (A → Option B) → Option B
and_then none f = none
and_then (some a) f = f a

module _ (browsers : Browsers) where
  -- A browser whose profiles cannot be read has none.
  unfoldable pub picker_profiles : List (String × List String) → BrowserId → List PickerProfile
  picker_profiles orders browser =
      map picker_profile
        (apply_profile_order (or_default (browsers.profiles browser) []) (get ◌==◌ browser orders))

  unfoldable pub choice_of :
      List InstalledBrowser → List (String × List String) → BrowserTarget → PickerChoice
  choice_of installed orders target =
      let info = find (λ b. b.id == target.browser) installed in
      let profiles = picker_profiles orders target.browser in
      record {
        id = target.browser;
        name = elim info [ some b ↦ b.display_name | none ↦ target.browser ];
        bundle_id = and_then info (λ b. b.platform_app_id);
        app_path =
            and_then info
              (λ b. some (app_path_from_executable (browsers.to_string_lossy b.executable)));
        icon_data_url = none;
        profiles = profiles;
        default_profile_id = and_then (default_profile profiles) (λ p. some p.id);
      }

  unfoldable pub choices_of :
      List InstalledBrowser → List (String × List String) → List BrowserTarget → List PickerChoice
  choices_of installed orders source = map (choice_of installed orders) source

-- The map `target_by_id`, as the loop fills it.
unfoldable pub targets_by_id :
    List BrowserTarget → List (String × BrowserTarget) → List (String × BrowserTarget)
targets_by_id [] by_id = by_id
targets_by_id (target ∷ source) by_id =
    targets_by_id source (insert ◌==◌ target.browser target by_id)

-- What `target_by_id.remove` answers.
abbrev pub target_for : List BrowserTarget → String → Option BrowserTarget
target_for source id = get ◌==◌ id (targets_by_id source [])

-- The candidates, or every installed browser where there are none.
unfoldable pub raw_source : List InstalledBrowser → List BrowserTarget → List BrowserTarget
raw_source installed [] = map (λ b. target_of b.id) installed
raw_source installed (c ∷ candidates) = c ∷ candidates

abbrev pub hidden : List String → BrowserTarget → Bool
hidden disabled target = any (λ id. id == target.browser) disabled

-- Those that are not hidden, or all where all are hidden.
unfoldable pub ask_source : List String → List BrowserTarget → List BrowserTarget
ask_source disabled raw =
    let filtered = filter (λ t. not (hidden disabled t)) raw in
    if is_empty filtered then raw else filtered
