-- ===== src/Desktop/Downloads.antt =====
-- apps/desktop/src-tauri/src/commands/mod.rs: the download of an update. `Verified` has its theorems.
use link_pilot.Prelude.{
  ℕ, String, Bool, true, false, not, ◌&&◌, ◌||◌, Option, none, some, Result, ok, err, map_err,
  if◌then◌else◌, ◌==◌, ◌⧺◌, eqb, ltb, starts_with, ends_with, is_some, unwrap_or,
}
use link_pilot.Prelude.Parsing.{trim, first_word, contains_char, is_digest, to_ascii_lowercase}
use link_pilot.Prelude.Tasks.{Task, pure, fail, lift, gets, within, ◌>>=◌, ◌>>◌}
use link_pilot.Core.Files.{
  FilePath, Disk, IoError, Io, stored, exists, remove_file, rename, create_dir_all, join, parent,
  with_extension,
}
use link_pilot.Core.Routing.Context.{UrlCrate}
use link_pilot.Desktop.Distribution.{Edition, require_direct}
pub mod Verified

abbrev pub Download : Type 0 → Type 0
Download A = Task Disk String A

-- What a program that ran leaves, as text: `std::process::Output`.
pub record Output : Type 0 where
  pub success : Bool
  pub status : String
  pub stdout : String
  pub stderr : String

-- What is outside: `curl` with the file that it leaves, `shasum` on the content of a file, each with an
-- error where it does not start, the size of a content, the scheme of a URL, and how errors, paths and
-- texts are displayed.
pub record Net (Url : Type 0) : Type 0 where
  pub urls : UrlCrate Url
  pub scheme : Url → String
  pub curl : String → Result (Output × Option String) String
  pub shasum : Option String → Result Output String
  pub size : String → ℕ
  pub show_io : IoError → String
  pub show_path : FilePath → String
  pub show_text : String → String

unfoldable pub normalize_expected_sha256 : Option String → Result (Option String) String
normalize_expected_sha256 none = ok none
normalize_expected_sha256 (some raw) =
    let trimmed = trim raw in
    if trimmed == ""
    then ok none
    else if is_digest trimmed
    then ok (some (to_ascii_lowercase trimmed))
    else err "expected_sha256 must be a 64-character hex string"

unfoldable pub safe_update_asset_name : String → Result String String
safe_update_asset_name name =
    let file_name = trim name in
    if contains_char b'/' name || contains_char 92 name
    then err "update asset name must be a plain filename"
    else if file_name == ""
    then err "update asset name is empty"
    else if ends_with file_name ".dmg"
    then ok file_name
    else err "LinkPilot can only auto-download macOS DMG assets"

abbrev pub trusted_repo_path_prefix : String
trusted_repo_path_prefix = "/jackerjay/LinkPilot/releases/download/"

abbrev is_github : Option String → Bool
is_github none = false
is_github (some host) = host == "github.com"

-- The digest that `update_download` asks for.
unfoldable pub required_sha256 : Option String → Result String String
required_sha256 raw = elim (normalize_expected_sha256 raw) [
  | err e ↦ err e
  | ok none ↦ err "Release checksum is required before downloading an update"
  | ok (some expected) ↦ ok expected
]

pub record UpdateDownloadRequest : Type 0 where
  pub url : String
  pub version : String
  pub asset_name : String
  pub expected_bytes : Option ℕ
  pub expected_sha256 : Option String

module _ {Url : Type 0} (net : Net Url) where
  -- A file operation, with what its error's text begins with.
  abbrev on_disk : {A : Type 0} → String → Io A → Download A
  on_disk doing op = within (λ d. d) (λ d _. d) (λ e. doing ⧺ (": " ⧺ net.show_io e)) op

  -- `let _ = std::fs::remove_file(tmp)`
  unfoldable pub discard : FilePath → Download (Unit {0})
  discard tmp d = (ok tt, (remove_file tmp d).1)

  -- The digest in what `shasum` printed.
  unfoldable pub digest_in : Output → Result String String
  digest_in output = elim (first_word output.stdout) [
    | none ↦ err "shasum produced no output"
    | some hex ↦
        if is_digest hex
        then ok (to_ascii_lowercase hex)
        else err ("unexpected shasum output: " ⧺ net.show_text output.stdout)
  ]

  -- The digest of a file with this content, `none` for a file that is not there.
  unfoldable pub sha256_of_file : Option String → Result String String
  sha256_of_file content = elim (net.shasum content) [
    | err e ↦ err ("starting shasum: " ⧺ e)
    | ok output ↦
        if output.success
        then digest_in output
        else err ("shasum exited with " ⧺ (output.status ⧺ (": " ⧺ trim output.stderr)))
  ]

  -- The run of `curl`, with its status.
  unfoldable pub fetch : String → FilePath → Download Output
  fetch url tmp d = elim (net.curl url) [
    | err e ↦ (err ("starting curl: " ⧺ e), d)
    | ok (output, content) ↦ (ok output, record d { files = stored d.files tmp content })
  ]

  unfoldable pub clear : FilePath → Download (Unit {0})
  clear tmp = do
    there ← gets (exists tmp)
    if there then on_disk ("removing " ⧺ net.show_path tmp) (remove_file tmp) else pure tt

  unfoldable pub check_status : FilePath → Output → Download (Unit {0})
  check_status tmp output =
      if output.success then pure tt else discard tmp >> fail ("curl exited with " ⧺ output.status)

  -- The comparison of the digest with that of the file.
  unfoldable pub compare_digest : FilePath → String → Result String String → Download (Unit {0})
  compare_digest tmp expected (ok actual) =
      if actual == expected
      then pure tt
      else discard tmp >> fail ("checksum mismatch: expected " ⧺ (expected ⧺ (", got " ⧺ actual)))
  compare_digest tmp expected (err e) = discard tmp >> fail ("hashing downloaded file failed: " ⧺ e)

  unfoldable pub verify : FilePath → Option String → Download (Unit {0})
  verify tmp none d = (ok tt, d)
  verify tmp (some expected) d = compare_digest tmp expected (sha256_of_file (d.files tmp)) d

  unfoldable pub download_update_asset :
      String → (tmp destination : FilePath) → Option String → Download (Unit {0})
  download_update_asset url tmp destination expected_sha256 = do
    clear tmp
    output ← fetch url tmp
    check_status tmp output
    verify tmp expected_sha256
    on_disk ("moving update to " ⧺ net.show_path destination) (rename tmp destination)

  -- The checks of the URL in `update_download`.
  unfoldable pub check_url : String → Result (Unit {0}) String
  check_url raw = elim (net.urls.parse raw) [
    | err e ↦ err ("invalid update URL: " ⧺ e)
    | ok url ↦
        if not (net.scheme url == "https") || not (is_github (net.urls.host_str url))
        then err "update downloads must come from GitHub release assets"
        else if starts_with (net.urls.path url) trusted_repo_path_prefix
        then ok tt
        else err "update downloads must come from the official LinkPilot release path"
  ]

  -- The file of an earlier download can be used again.
  unfoldable pub is_reusable : Option ℕ → String → String → Bool
  is_reusable expected_bytes expected content =
      let hash_match = elim (sha256_of_file (some content)) as (λ _. Bool) [
        | ok actual ↦ actual == expected
        | err e ↦ false
      ] in
      let size_match = elim expected_bytes as (λ _. Bool) [
        | none ↦ true
        | some n ↦ eqb n (net.size content)
      ] in
      ltb 0 (net.size content) && (size_match && hash_match)

  -- The size of the file that is there, by its content.
  abbrev size_at : FilePath → Disk → Result (Bool × ℕ) String
  size_at path d = elim (d.files path) [
    | none ↦ err ("reading " ⧺ (net.show_path path ⧺ ": No such file or directory"))
    | some content ↦ ok (false, net.size content)
  ]

  unfoldable pub fresh_download : String → String → FilePath → Download (Bool × ℕ)
  fresh_download url expected destination = do
    download_update_asset url (with_extension destination "download") destination (some expected)
    λ d. (size_at destination d, d)

  -- The part of `update_download` behind the checks: `false` for a file downloaded now.
  unfoldable pub obtain : String → Option ℕ → String → FilePath → Download (Bool × ℕ)
  obtain url expected_bytes expected destination d =
      let again = fresh_download url expected destination d in
      elim (d.files destination) [
        | none ↦ again
        | some content ↦
            if is_reusable expected_bytes expected content
            then (ok (true, net.size content), d)
            else again
      ]

  -- `update_download`, with the directory of the configuration; the answer is whether the file was
  -- already there, and its size.
  unfoldable pub update_download : Edition → FilePath → UpdateDownloadRequest → Download (Bool × ℕ)
  update_download edition config_dir request = do
    lift (require_direct edition "External update downloads")
    lift (check_url request.url)
    asset_name ← lift (safe_update_asset_name request.asset_name)
    expected ← lift (required_sha256 request.expected_sha256)
    on_disk ("creating " ⧺ net.show_path (join config_dir "updates"))
        (create_dir_all (join config_dir "updates"))
    obtain request.url request.expected_bytes expected (join (join config_dir "updates") asset_name)
