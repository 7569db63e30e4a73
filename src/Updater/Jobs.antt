-- ===== src/Updater/Jobs.antt =====
-- The job file of the updater and the checks before an update (crates/updater/src/lib.rs).
use mathlib.Core.Option
use link_pilot.Prelude.{
  ℕ, String, Bool, true, false, not, ◌&&◌, Option, none, some, Result, ok, err, ◌>>=◌, ◌>>◌,
  if◌then◌else◌, eqb, leb, ◌==◌, ◌%◌, starts_with,
}
use link_pilot.Prelude.Anyhow.{Anyhow, anyhow}
use link_pilot.Core.Files.{FilePath, path_eq, join, parent, file_name}

pub record Job : Type 0 where
  pub target : FilePath
  pub workspace : FilePath
  pub updates : FilePath
  pub version : String
  pub token : String
  pub old_pid : ℕ

abbrev pub candidate : Job → FilePath
candidate job = join job.workspace "candidate.app"

-- `Job::path`
abbrev pub job_path : Job → FilePath
job_path job = join job.workspace "job.json"

-- `Job::health`
abbrev pub health_path : Job → FilePath
health_path job = join job.workspace "health.json"

pub record Health : Type 0 where
  pub token : String
  pub version : String
  pub pid : ℕ

pub record Outcome : Type 0 where
  pub version : String
  pub error : Option String

pub record FileMeta : Type 0 where
  pub is_file : Bool
  pub uid : ℕ
  pub mode : ℕ

-- The answers of the system and of the crates: `symlink_metadata`, `metadata`, `canonicalize`, `read`
-- and `serde_json::from_slice`, the user, the parsing of a `Uuid` and of an extension.
pub record Machine : Type 0 where
  pub symlink_metadata : FilePath → Result FileMeta Anyhow
  pub metadata : FilePath → Result FileMeta Anyhow
  pub canonicalize : FilePath → Result FilePath Anyhow
  pub read : FilePath → Result String Anyhow
  pub job_of : String → Result Job Anyhow
  pub outcome_of : String → Result Outcome Anyhow
  pub uid : ℕ
  pub is_uuid : String → Bool
  pub extension : FilePath → Option String

abbrev pub update_prefix : String
update_prefix = ".linkpilot-update-"

-- `Some` of what a `Result` holds.
abbrev pub to_option : {A : Type 0} → Result A Anyhow → Option A
to_option (ok a) = some a
to_option (err e) = none

-- `x.is_some_and(|ext| ext == "app")`
abbrev pub is_app : Option String → Bool
is_app none = false
is_app (some ext) = ext == "app"

abbrev pub same_parent : Option FilePath → Option FilePath → Bool
same_parent none none = true
same_parent (some a) (some b) = path_eq a b
same_parent _ _ = false

-- No permission for the group and for others: `mode & 0o077 == 0`.
abbrev pub is_private : FileMeta → Bool
is_private meta = eqb (meta.mode % 64) 0

abbrev pub guard : Bool → String → Result (Unit {0}) Anyhow
guard true message = ok tt
guard false message = err (anyhow message)

abbrev pub invalid : String
invalid = "Invalid update job paths or token"

module _ (machine : Machine) where
  -- The error of the last attempt, if it was at this version.
  unfoldable pub last_failure : FilePath → String → Option String
  last_failure updates version =
      Option.bind (to_option (machine.read (join updates "outcome.json"))) (λ text.
        Option.bind (to_option (machine.outcome_of text))
          (λ outcome. if outcome.version == version then outcome.error else none))

  -- The third of the parents, where it is a bundle.
  unfoldable pub bundle_of : FilePath → Option FilePath
  bundle_of executable = Option.bind (parent executable) (λ macos.
      Option.bind (parent macos) (λ contents.
        Option.bind (parent contents)
          (λ root. if is_app (machine.extension root) then some root else none)))

  unfoldable pub app_root : FilePath → Result FilePath Anyhow
  app_root executable = elim (bundle_of executable) [
    | none ↦ err (anyhow "Silent updates require an installed LinkPilot.app")
    | some root ↦ machine.canonicalize root
  ]

  -- The file is private and of this user.
  unfoldable pub check_file : FilePath → Result (Unit {0}) Anyhow
  check_file path = do
    meta ← machine.symlink_metadata path
    guard (meta.is_file && (eqb meta.uid machine.uid && is_private meta))
        "Update job must be a private file owned by the current user"

  -- `canonicalize(path)? != path`
  unfoldable pub check_canonical : FilePath → Result (Unit {0}) Anyhow
  check_canonical path = do
    canonical ← machine.canonicalize path
    guard (path_eq canonical path) invalid

  -- The tests of `load_job` on the parsed job, in their order.
  unfoldable pub check_job : FilePath → String → Job → Result (Unit {0}) Anyhow
  check_job path token job = do
    guard (machine.is_uuid token && (token == job.token && path_eq path (job_path job))) invalid
    guard
        (starts_with (file_name job.workspace) update_prefix
          && same_parent (parent job.workspace) (parent job.target))
        invalid
    check_canonical job.workspace
    meta ← machine.metadata job.workspace
    guard (is_private meta) invalid
    guard (is_app (machine.extension job.target)) invalid
    check_canonical job.target
    check_canonical job.updates
    guard (not (leb job.old_pid 1)) invalid

  unfoldable pub load_job : FilePath → String → Result Job Anyhow
  load_job path token = do
    check_file path
    text ← machine.read path
    job ← machine.job_of text
    check_job path token job
    ok job
