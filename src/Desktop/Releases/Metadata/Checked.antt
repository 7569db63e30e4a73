-- ===== src/Desktop/Releases/Metadata/Checked.antt =====
-- What the check for an update says (apps/desktop/src-tauri/src/commands/mod.rs,
-- `update_fetch_metadata`).
use Prim.Native.Nat.{Ordering}
use link_pilot.Prelude.{
  String, ◌≡◌, refl, ◌↔◌, ◌⊎◌, inl, inr, true, Option, none, some, Option-cases, Result, ok, err,
  Result-cases,
}
use link_pilot.Prelude.Parsing.{to_ascii_lowercase}
use link_pilot.Core.Observations.Logs.{lines}
use link_pilot.Desktop.Distribution.{Edition, require_direct}
use link_pilot.Desktop.Releases.{
  normalize_version, compare_versions, version_parts, parse_tag_from_release_url,
}
use link_pilot.Desktop.Releases.Versions.{IsLater, compare_versions_iff}
use link_pilot.Desktop.Releases.Checksums.{
  AnyLists, parse_checksum_for_asset, parse_checksum_for_asset-Lists,
}
use link_pilot.Desktop.Releases.Feed.{ReleaseMeta, href_marker}
use link_pilot.Desktop.Releases.Feed.Entries.{OfFeed, parse_release_atom_meta-OfFeed}
use link_pilot.Desktop.Releases.Metadata.{
  latest_redirect_url, releases_atom_url, ReleaseHost, curl_resolve_redirect, curl_get_text,
  UpdateCheckResult, is_gt, sha256_in, meta_or_none, meta_in, dmg_name, download_of,
  describe_release, describe_tag, fetch_update_metadata_blocking, update_fetch_metadata,
}

-- A digest comes from a line of the page that has it for the file.
abbrev pub IsListed : Result String String → (asset_name : String) → Option String → Type 0
IsListed page asset_name none = Unit {0}
IsListed (err e) asset_name (some digest) = ⊥
IsListed (ok text) asset_name (some digest) =
    AnyLists (to_ascii_lowercase asset_name) digest (lines text)

sha256_in-IsListed :
    (page : Result String String) (asset_name : String)
    → IsListed page asset_name (sha256_in page asset_name)
unfolding sha256_in
sha256_in-IsListed (err e) asset_name = tt
sha256_in-IsListed (ok text) asset_name =
    elim (Option-cases (parse_checksum_for_asset text asset_name)) [
      | inl missing ↦ rw missing tt
      | inr (digest, found) ↦ rw found (parse_checksum_for_asset-Lists text asset_name digest found)
    ]

-- The name and the time are those of an entry of the feed with a link to the tag, and there are none
-- where the feed has none or cannot be had.
abbrev pub IsFromFeed : Result String String → (tag : String) → ReleaseMeta → Type 0
IsFromFeed (err e) tag meta = meta ≡ (none, none)
IsFromFeed (ok atom) tag meta =
    (r : Option ReleaseMeta) × (meta ≡ meta_or_none (some r)) × OfFeed (href_marker tag) atom r

meta_in-IsFromFeed :
    (page : Result String String) (tag : String) → IsFromFeed page tag (meta_in page tag)
unfolding meta_in
meta_in-IsFromFeed (err e) tag = refl
meta_in-IsFromFeed (ok atom) tag =
    let (r, found, ofs) = parse_release_atom_meta-OfFeed atom tag in (r, rw found refl, ofs)

-- The answer for a tag.
pub record Described (host : ReleaseHost) (current_version tag : String) (r : UpdateCheckResult)
    : Type 0 where
  pub latest : r.latest_version ≡ normalize_version tag
  pub newer :
      (r.available ≡ true)
      ↔ IsLater
          (version_parts (normalize_version tag))
          (version_parts (normalize_version current_version))
  pub of_arch : r.asset.name ≡ dmg_name host r.latest_version
  pub beside : r.asset.download_url ≡ download_of tag r.asset.name
  pub listed :
      IsListed
        (curl_get_text host (download_of tag "checksums.txt") "text/plain")
        r.asset.name
        r.asset.sha256
  pub from_feed :
      IsFromFeed
        (curl_get_text host releases_atom_url "application/atom+xml")
        tag
        (r.release_name, r.published_at)

is_gt_iff : (o : Ordering) → (is_gt o ≡ true) ↔ (o ≡ Ordering.gt)
is_gt_iff Ordering.gt = (λ h. refl, λ h. refl)
is_gt_iff Ordering.eq = (λ h. cc, λ h. cc)
is_gt_iff Ordering.lt = (λ h. cc, λ h. cc)

describe_release-Described :
    (edition : Edition) (host : ReleaseHost) (current_version tag : String)
    → Described host current_version tag (describe_release edition host current_version tag)
unfolding describe_release
describe_release-Described edition host current_version tag =
    let latest = normalize_version tag in
    let current = normalize_version current_version in
    let gt = is_gt_iff (compare_versions latest current) in
    let later = compare_versions_iff latest current in
    record {
      latest = refl;
      newer = (λ h. later.0 (gt.0 h), λ h. gt.1 (later.1 h));
      of_arch = refl;
      beside = refl;
      listed = sha256_in-IsListed _ (dmg_name host latest);
      from_feed = meta_in-IsFromFeed _ tag;
    }

-- How the check ends: without an answer, in the edition of the App Store or where the redirect or its
-- tag cannot be had, and else with the answer for that tag.
abbrev pub ChecksOut :
    Edition → ReleaseHost → (current_version : String) → Result UpdateCheckResult String → Type 0
ChecksOut edition host current_version (err e) =
    (edition ≡ Edition.app_store)
    ⊎ (((e' : String) × (curl_resolve_redirect host latest_redirect_url ≡ err e'))
        ⊎ ((url : String) × (curl_resolve_redirect host latest_redirect_url ≡ ok url)
            × (parse_tag_from_release_url url ≡ none)))
ChecksOut edition host current_version (ok r) =
    (edition ≡ Edition.direct)
    × (url : String) × (tag : String) × (curl_resolve_redirect host latest_redirect_url ≡ ok url)
    × (parse_tag_from_release_url url ≡ some tag)
    × Described host current_version tag r

fetch_update_metadata_blocking-ChecksOut :
    (host : ReleaseHost) (current_version : String)
    → ChecksOut Edition.direct host current_version
        (fetch_update_metadata_blocking Edition.direct host current_version)
unfolding fetch_update_metadata_blocking describe_tag
fetch_update_metadata_blocking-ChecksOut host current_version =
    elim (Result-cases (curl_resolve_redirect host latest_redirect_url)) [
      | inr (e, failed) ↦ rw failed (inr (inl (e, failed)))
      | inl (url, resolved) ↦ elim (Option-cases (parse_tag_from_release_url url)) [
        | inl missing ↦ rw (resolved, missing) (inr (inr (url, resolved, missing)))
        | inr (tag, found) ↦
            rw (resolved, found)
              (
                refl,
                url,
                tag,
                resolved,
                found,
                describe_release-Described Edition.direct host current_version tag,
              )
      ]
    ]

-- The check for an update ends with an error in the edition for the App Store, and where the redirect
-- or a tag in it cannot be had. Else it names the file of this machine's architecture beside that tag,
-- takes the release for available exactly when its version is later than the current one, gives a
-- digest only if the page of digests has it for that file, and the name and the time that an entry of
-- the feed has for the tag.
pub update_fetch_metadata-ChecksOut :
    (edition : Edition) (host : ReleaseHost) (current_version : String)
    → ChecksOut edition host current_version (update_fetch_metadata edition host current_version)
unfolding update_fetch_metadata require_direct
update_fetch_metadata-ChecksOut Edition.app_store host current_version = inl refl
update_fetch_metadata-ChecksOut Edition.direct host current_version =
    fetch_update_metadata_blocking-ChecksOut host current_version
