-- ===== src/Tests/Releases.antt =====
-- The check for an update at concrete data.
use link_pilot.Prelude.{
  String, ◌≡◌, refl, true, some, ok, err, ◌⧺◌, if◌then◌else◌, ◌==◌, starts_with, strip_prefix,
}
use link_pilot.Prelude.Parsing.{
  trim, trim_start, is_whitespace, split_on, is_digest, all_hexdigits, to_ascii_lowercase,
  contains_char,
}
use link_pilot.Prelude.Splits.{cut_at}
use link_pilot.Core.Observations.Logs.{lines}
use link_pilot.Desktop.Distribution.{Edition}
use link_pilot.Desktop.Releases.Checksums.{
  split_space, trim_stars, base_name, read_parts, read_checksum, first_checksum,
  parse_checksum_for_asset,
}
use link_pilot.Desktop.Releases.Feed.{
  replace_from, decode_xml_entities, in_front, extract_xml_text, meta_of, find_entry, href_marker,
  parse_release_atom_meta,
}
use link_pilot.Desktop.Releases.Metadata.{
  CurlOutput, ReleaseHost, releases_atom_url, update_fetch_metadata,
}
use link_pilot.Desktop.Releases.Metadata.Checked.{ChecksOut, update_fetch_metadata-ChecksOut}
use link_pilot.Tests.Updates.{machine, digest}

-- The list of the digests of a release.
abbrev checksums : String
checksums = "# sums\n" ⧺ (digest ⧺ "  *dist/LinkPilot_0.5.0_aarch64.dmg\n")

checksum_read : parse_checksum_for_asset checksums "linkpilot_0.5.0_aarch64.DMG" ≡ some digest
unfolding parse_checksum_for_asset first_checksum read_checksum read_parts split_space base_name
    trim_stars trim trim_start is_whitespace is_digest all_hexdigits to_ascii_lowercase starts_with
    strip_prefix split_on lines
checksum_read = refl

abbrev feed : String
feed =
    "<feed><entry><link href=\"/releases/tag/v0.5.0-rc\"/><title>Soon</title></entry>"
    ⧺ ("<entry><link href=\"/releases/tag/v0.5.0\"/><title>Fast &amp; small</title>"
        ⧺ "<updated>2026-05-01</updated></entry></feed>")

entry_read :
    parse_release_atom_meta feed "v0.5.0" ≡ some (some (some "Fast & small", some "2026-05-01"))
unfolding parse_release_atom_meta find_entry href_marker meta_of extract_xml_text in_front
    decode_xml_entities replace_from contains_char cut_at starts_with strip_prefix
entry_read = refl

-- An entity behind an escaped ampersand is decoded, too.
decoded_twice : decode_xml_entities "&amp;lt;" ≡ "<"
unfolding decode_xml_entities replace_from contains_char starts_with strip_prefix
decoded_twice = refl

abbrev ran : String → CurlOutput
ran text = record { success = true; status = "exit status: 0"; stdout = ok text; stderr = "" }

abbrev release_host : ReleaseHost
release_host = record {
  curl_head = λ url. ok (ran "https://github.com/jackerjay/LinkPilot/releases/tag/v0.5.0");
  curl_text = λ url accept. ok (ran (if url == releases_atom_url then feed else checksums));
  arch = "aarch64";
  config_file = err "no home";
  machine = machine;
  now_ms = 1700;
}

update_fetch_metadata-ChecksOut_example :
    ChecksOut Edition.direct release_host "v0.4.0"
      (update_fetch_metadata Edition.direct release_host "v0.4.0")
update_fetch_metadata-ChecksOut_example =
    update_fetch_metadata-ChecksOut Edition.direct release_host "v0.4.0"
