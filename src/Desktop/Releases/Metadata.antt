-- ===== src/Desktop/Releases/Metadata.antt =====
-- apps/desktop/src-tauri/src/commands/mod.rs, `update_fetch_metadata`: what is known of the latest
-- release. `curl` is a parameter. `Metadata.Checked` has a theorem.
use Prim.Native.Nat.{Ordering}
use link_pilot.Prelude.{
  ℕ, String, Bool, true, false, Option, none, some, List, Result, ok, err, map_err, ◌>>=◌, ◌>>◌,
  if◌then◌else◌, ◌==◌, ◌⧺◌,
}
use link_pilot.Prelude.Parsing.{trim}
use link_pilot.Core.Files.{FilePath, join, parent}
use link_pilot.Updater.Jobs.{Machine, last_failure}
use link_pilot.Desktop.Distribution.{Edition, require_direct}
use link_pilot.Desktop.Releases.{normalize_version, compare_versions, parse_tag_from_release_url}
use link_pilot.Desktop.Releases.Checksums.{parse_checksum_for_asset}
use link_pilot.Desktop.Releases.Feed.{ReleaseMeta, parse_release_atom_meta}
pub mod Checked

abbrev release_base : String
release_base = "https://github.com/jackerjay/LinkPilot/releases"

abbrev pub latest_redirect_url : String
latest_redirect_url = release_base ⧺ "/latest"

abbrev pub release_download_base : String
release_download_base = release_base ⧺ "/download"

abbrev pub release_tag_base : String
release_tag_base = release_base ⧺ "/tag"

abbrev pub releases_atom_url : String
releases_atom_url = release_base ⧺ ".atom"

-- What `curl` leaves, with its output decoded as UTF-8 or the error of that.
pub record CurlOutput : Type 0 where
  pub success : Bool
  pub status : String
  pub stdout : Result String String
  pub stderr : String

-- `curl` with `--head` and with the text of a page, each with an error where it does not start; the
-- architecture, the path of the configuration, the files of the updater, and the clock.
pub record ReleaseHost : Type 0 where
  pub curl_head : String → Result CurlOutput String
  pub curl_text : (url accept : String) → Result CurlOutput String
  pub arch : String
  pub config_file : Result FilePath String
  pub machine : Machine
  pub now_ms : ℕ

-- The output of a run that went well.
unfoldable pub read_output : Result CurlOutput String → Result String String
read_output (err e) = err ("starting curl: " ⧺ e)
read_output (ok output) =
    if output.success
    then map_err (λ e. "decoding curl stdout: " ⧺ e) output.stdout
    else err ("curl exited with " ⧺ (output.status ⧺ (": " ⧺ trim output.stderr)))

unfoldable pub not_blank : String → Result String String
not_blank resolved =
    let trimmed = trim resolved in
    if trimmed == "" then err "curl returned empty effective URL" else ok trimmed

unfoldable pub curl_resolve_redirect : ReleaseHost → String → Result String String
curl_resolve_redirect host url = read_output (host.curl_head url) >>= not_blank

unfoldable pub curl_get_text : ReleaseHost → (url accept : String) → Result String String
curl_get_text host url accept = read_output (host.curl_text url accept)

pub record UpdateAssetMeta : Type 0 where
  pub name : String
  pub download_url : String
  pub size : Option ℕ
  pub sha256 : Option String

pub record UpdateCheckResult : Type 0 where
  pub current_version : String
  pub latest_version : String
  pub release_url : String
  pub asset : UpdateAssetMeta
  pub release_name : Option String
  pub published_at : Option String
  pub available : Bool
  pub checked_at : ℕ
  pub install_error : Option String

abbrev is_gt : Ordering → Bool
is_gt Ordering.gt = true
is_gt Ordering.eq = false
is_gt Ordering.lt = false

-- `.ok().and_then(..)` of the page with the digests.
unfoldable pub sha256_in : Result String String → (asset_name : String) → Option String
sha256_in (err e) asset_name = none
sha256_in (ok text) asset_name = parse_checksum_for_asset text asset_name

abbrev meta_or_none : Option (Option ReleaseMeta) → ReleaseMeta
meta_or_none (some (some meta)) = meta
meta_or_none (some none) = (none, none)
meta_or_none none = (none, none)

-- The same of the feed; its search always ends.
unfoldable pub meta_in : Result String String → (tag : String) → ReleaseMeta
meta_in (err e) tag = (none, none)
meta_in (ok atom) tag = meta_or_none (parse_release_atom_meta atom tag)

abbrev updates_failure : Machine → Option FilePath → String → Option String
updates_failure machine none version = none
updates_failure machine (some dir) version = last_failure machine (join dir "updates") version

-- The error of the last attempt to install this version.
unfoldable pub install_failure : Edition → ReleaseHost → String → Option String
install_failure Edition.app_store host version = none
install_failure Edition.direct host version = elim host.config_file [
  | err e ↦ none
  | ok path ↦ updates_failure host.machine (parent path) version
]

abbrev pub dmg_name : ReleaseHost → String → String
dmg_name host version = "LinkPilot_" ⧺ (version ⧺ ("_" ⧺ (host.arch ⧺ ".dmg")))

abbrev pub download_of : (tag name : String) → String
download_of tag name = release_download_base ⧺ ("/" ⧺ (tag ⧺ ("/" ⧺ name)))

-- From the tag on.
unfoldable pub describe_release :
    Edition → ReleaseHost → (current_version tag_name : String) → UpdateCheckResult
describe_release edition host current_version tag_name =
    let latest_version = normalize_version tag_name in
    let dmg = dmg_name host latest_version in
    let normalized_current = normalize_version current_version in
    let meta = meta_in (curl_get_text host releases_atom_url "application/atom+xml") tag_name in
    record {
      current_version = normalized_current;
      latest_version = latest_version;
      release_url = release_tag_base ⧺ ("/" ⧺ tag_name);
      asset = record {
        name = dmg;
        download_url = download_of tag_name dmg;
        size = none;
        sha256 =
            sha256_in (curl_get_text host (download_of tag_name "checksums.txt") "text/plain") dmg;
      };
      release_name = meta.0;
      published_at = meta.1;
      available = is_gt (compare_versions latest_version normalized_current);
      checked_at = host.now_ms;
      install_error = install_failure edition host latest_version;
    }

unfoldable pub describe_tag :
    Edition
    → ReleaseHost
    → (current_version final_url : String) → Option String
    → Result UpdateCheckResult String
describe_tag edition host current_version final_url none =
    err ("could not parse tag from redirect target: " ⧺ final_url)
describe_tag edition host current_version final_url (some tag_name) =
    ok (describe_release edition host current_version tag_name)

unfoldable pub fetch_update_metadata_blocking :
    Edition → ReleaseHost → (current_version : String) → Result UpdateCheckResult String
fetch_update_metadata_blocking edition host current_version =
    map_err (λ e. "GitHub Releases redirect: " ⧺ e) (curl_resolve_redirect host latest_redirect_url)
    >>= λ final_url.
        describe_tag edition host current_version final_url (parse_tag_from_release_url final_url)

unfoldable pub update_fetch_metadata :
    Edition → ReleaseHost → (current_version : String) → Result UpdateCheckResult String
update_fetch_metadata edition host current_version =
    require_direct edition "External updates"
    >> fetch_update_metadata_blocking edition host current_version
