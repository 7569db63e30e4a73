-- ===== src/Core/PidFile.antt =====
-- crates/core/src/daemon.rs: the file with the daemon's process number. `Lifecycle` has its theorems.
pub mod Lifecycle
use link_pilot.Prelude.{
  ℕ, String, Bool, true, false, ◌||◌, Option, none, some, Result, ok, err, if◌then◌else◌, eqb, ltb,
  ◌^◌, ◌-◌, ◌⧺◌,
}
use link_pilot.Prelude.Tasks.{pure, ◌>>=◌, ◌>>◌}
use link_pilot.Core.Files.{
  FilePath, Disk, IoError, not_found, Io, parent, join, file_name, with_file_name, read_to_string,
  remove_file, write_through,
}
use link_pilot.Core.Store.Documents.{ConfigError, no_default_dir, default_config_path}

-- Rust's and the system's part: a `u32` as a decimal text and `trim().parse::<u32>()` of one, and
-- `kill(pid, 0)`, with the error number where it fails.
pub record Processes : Type 0 where
  pub show : ℕ → String
  pub parse : String → Option ℕ
  pub kill : ℕ → Option ℕ

abbrev pub eperm : ℕ
eperm = 1

-- `pid_file_path`; the argument is the variable `HOME`.
unfoldable pub pid_file_path : Option FilePath → Result FilePath ConfigError
pid_file_path home = elim (default_config_path home) [
  | err e ↦ err e
  | ok config ↦ elim (parent config) [
    | none ↦ err no_default_dir
    | some dir ↦ ok (join dir "linkpilot-daemon.pid")
  ]
]

unfoldable pub pid_tmp_path : FilePath → FilePath
pid_tmp_path path = with_file_name path (file_name path ⧺ ".tmp")

module _ (processes : Processes) where
  -- `write_pid_file`; `pid` is the number of this process.
  unfoldable pub write_pid_file : FilePath → ℕ → Io (Unit {0})
  write_pid_file path pid = write_through (pid_tmp_path path) path (processes.show pid)

  abbrev pub pid_of : Result String IoError × Disk → Result (Option ℕ) IoError × Disk
  pid_of (ok text, d) = (ok (processes.parse text), d)
  pid_of (err not_found, d) = (ok none, d)
  pid_of (err e, d) = (err e, d)

  unfoldable pub read_pid_file : FilePath → Io (Option ℕ)
  read_pid_file path d = pid_of (read_to_string path d)

  -- `process_is_alive` on Unix.
  unfoldable pub process_is_alive : ℕ → Bool
  process_is_alive pid =
      if eqb pid 0 || ltb (2 ^ 31 - 1) pid
      then false
      else elim (processes.kill pid) [ none ↦ true | some errno ↦ eqb errno eperm ]

  abbrev pub or_gone : Result (Unit {0}) IoError × Disk → Result (Unit {0}) IoError × Disk
  or_gone (ok _, d) = (ok tt, d)
  or_gone (err not_found, d) = (ok tt, d)
  or_gone (err e, d) = (err e, d)

  unfoldable pub remove_pid_file : FilePath → Io (Unit {0})
  remove_pid_file path d = or_gone (remove_file path d)

  unfoldable pub remove_stale : FilePath → Option ℕ → Io Bool
  remove_stale path none = pure false
  remove_stale path (some pid) =
      let removed = remove_pid_file path >> pure true in
      if process_is_alive pid then pure false else removed

  unfoldable pub cleanup_stale_pid_file : FilePath → Io Bool
  cleanup_stale_pid_file path = do pid ← read_pid_file path; remove_stale path pid
