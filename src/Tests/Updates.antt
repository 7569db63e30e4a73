-- ===== src/Tests/Updates.antt =====
-- The updater, the download and the versions at concrete data.
use Prim.Native.Nat.{Ordering}
use link_pilot.Prelude.{
  ◌⧺◌, String, ◌≡◌, ◌≢◌, refl, true, false, none, some, [], ◌∷◌, ok, err, if◌then◌else◌, ◌*◌, leb,
  starts_with, strip_prefix,
}
use link_pilot.Prelude.Anyhow.{Anyhow, anyhow}
use link_pilot.Prelude.Tasks.{Task}
use link_pilot.Prelude.Parsing.{
  trim, split_on, parse_u32, first_word, word_of, trim_start, is_whitespace, is_digest,
  all_hexdigits, to_ascii_lowercase,
}
use link_pilot.Core.Files.{FilePath, Disk, path_eq}
use link_pilot.Updater.Jobs.{
  Job, candidate, job_path, Machine, load_job, check_job, check_file, check_canonical,
}
use link_pilot.Updater.Machines.{Mac, exchanged, swap, start_app}
use link_pilot.Updater.Waits.{Watch, await_health}
use link_pilot.Updater.Transactions.{
  transact, install, settle, swapped, started_app, started_daemon, confirmed,
}
use link_pilot.Updater.Updates.{Transacted, transact-Transacted}
use link_pilot.Updater.Validity.{IsValid, load_job-IsValid}
use link_pilot.Desktop.Downloads.{Output, Net, digest_in, sha256_of_file, download_update_asset}
use link_pilot.Desktop.Downloads.Verified.{Downloaded, download_update_asset-Downloaded}
use link_pilot.Desktop.Releases.{
  compare_versions, compare_parts, compare_from, version_parts, normalize_version,
}
use link_pilot.Tests.Data.{web}

abbrev pub job : Job
job = record {
  target = "LinkPilot.app" ∷ "Applications" ∷ [];
  workspace = ".linkpilot-update-1" ∷ "Applications" ∷ [];
  updates = "updates" ∷ "home" ∷ [];
  version = "1.1.0";
  token = "t-1";
  old_pid = 41;
}

abbrev pub mac : Mac String (Unit {0})
mac = record {
  apps = λ p.
      if path_eq p job.target
      then some "1.0.0"
      else if path_eq p (candidate job)
      then some "1.1.0"
      else none;
  service = tt;
  started = [];
  killed = [];
  swaps = [];
  waits = [];
  spawns = ok 42 ∷ ok 43 ∷ [];
}

-- The health file is there from the second turn on.
abbrev pub watch : Watch
watch = record {
  exited = λ turn. ok false;
  health = λ turn.
      if leb 1 turn then some (record { token = "t-1"; version = "1.1.0"; pid = 42 }) else none;
  now = λ turn. turn * 100;
}

abbrev idle : Task (Unit {0}) Anyhow (Unit {0})
idle s = (ok tt, s)

abbrev pub shown : FilePath → String
shown path = "path"

abbrev pub updated : Mac String (Unit {0})
updated = record mac {
  apps = exchanged job.target (candidate job) mac.apps;
  started = record { app = some "1.1.0"; health = true; pid = 42 } ∷ [];
  spawns = ok 43 ∷ [];
}

update_runs : transact job shown idle idle 200 watch 3 mac ≡ some (ok tt, updated)
unfolding transact install settle swapped started_app started_daemon confirmed swap start_app
    await_health path_eq
update_runs = refl

transact-Transacted_example : Transacted job shown idle idle 200 watch 3 mac (ok tt) updated
transact-Transacted_example =
    transact-Transacted job shown idle idle 200 watch 3 mac updated (ok tt) update_runs

abbrev pub machine : Machine
machine = record {
  symlink_metadata = λ path. ok (record { is_file = true; uid = 501; mode = 0o600 });
  metadata = λ path. ok (record { is_file = false; uid = 501; mode = 0o700 });
  canonicalize = λ path. ok path;
  read = λ path. ok "job";
  job_of = λ text. ok job;
  outcome_of = λ text. err (anyhow "no outcome");
  uid = 501;
  is_uuid = λ token. true;
  extension = λ path. some "app";
}

job_loads : load_job machine (job_path job) "t-1" ≡ ok job
unfolding load_job check_job check_file check_canonical path_eq starts_with strip_prefix
job_loads = refl

load_job-IsValid_example : IsValid machine (job_path job) "t-1" job
load_job-IsValid_example = load_job-IsValid machine (job_path job) "t-1" job job_loads

abbrev pub digest : String
digest = "9f86d081884c7d659a2feaa0c55ad015a3bf4f1b2b0b822cd15d6c15b0f00a08"

abbrev ran : String → Output
ran stdout = record { success = true; status = "exit status: 0"; stdout = stdout; stderr = "" }

abbrev net : Net String
net = record {
  urls = web;
  scheme = λ url. "https";
  curl = λ url. ok (ran "", some "image");
  shasum = λ content. ok (ran (digest ⧺ "  LinkPilot.download"));
  size = λ content. 5;
  show_io = λ e. "io";
  show_path = shown;
  show_text = λ s. s;
}

digest_read : sha256_of_file net none ≡ ok digest
unfolding sha256_of_file digest_in first_word word_of trim_start is_whitespace is_digest
    all_hexdigits to_ascii_lowercase
digest_read = refl

abbrev image : FilePath
image = "LinkPilot.dmg" ∷ "updates" ∷ []

abbrev partial : FilePath
partial = "LinkPilot.download" ∷ "updates" ∷ []

abbrev updates_disk : Disk
updates_disk = record { files = λ path. none; outcomes = [] }

partial_apart : partial ≢ image
partial_apart h = cc

download_update_asset-Downloaded_example :
    Downloaded net partial image partial_apart digest updates_disk
      (download_update_asset net "https://github.com" partial image (some digest) updates_disk).0
      (download_update_asset net "https://github.com" partial image (some digest) updates_disk).1
download_update_asset-Downloaded_example =
    download_update_asset-Downloaded net partial image partial_apart "https://github.com" digest
      updates_disk

later_version : compare_versions "v1.10.0" "1.9.3" ≡ Ordering.gt
unfolding compare_versions compare_parts compare_from version_parts split_on normalize_version
    strip_prefix trim parse_u32
later_version = refl
