-- ===== src/Core/PidFile/Lifecycle.antt =====
-- What the operations on the PID file (crates/core/src/daemon.rs) show.
use link_pilot.Prelude.{
  ℕ, String, ◌≡◌, ◌≢◌, ◌⊎◌, inl, inr, ap, ◌∙◌, Bool, true, false, none, some, Result, ok, err,
}
use link_pilot.Core.Files.{
  FilePath, Disk, IoError, other, later, found, attempt-cases, read_to_string,
}
use link_pilot.Core.Files.Writing.{write_through-Whole}
use link_pilot.Core.PidFile.{
  Processes, pid_of, pid_tmp_path, write_pid_file, read_pid_file, process_is_alive,
}

module _ (processes : Processes) (path : FilePath) where
  read_back :
      (pid : ℕ) (d : Disk)
      → d.files path ≡ some (processes.show pid)
      → processes.parse (processes.show pid) ≡ some pid
      → ((read_pid_file processes path d).0 ≡ ok (some pid))
        ⊎ ((e : IoError) × ((read_pid_file processes path d).0 ≡ err e))
  unfolding read_pid_file read_to_string
  read_back pid d there parses = elim (attempt-cases (λ c. found (c.files path) c) d) [
    | inr fine ↦
        inl (
          ap (λ r. (pid_of processes r).0) (fine ∙ ap (λ c. found c (later d)) there)
          ∙ ap ok parses)
    | inl (e, failed) ↦ inr (other e, ap (λ r. (pid_of processes r).0) failed)
  ]

  -- Once the file is written, a reader gets the process number, or an error of the system, never
  -- another number or none; the number's text must read back, and the temporary name must differ.
  pub write_pid_file-read_pid_file :
      (pid : ℕ) (d : Disk)
      → pid_tmp_path path ≢ path
      → processes.parse (processes.show pid) ≡ some pid
      → (write_pid_file processes path pid d).0 ≡ ok tt
      → ((read_pid_file processes path (write_pid_file processes path pid d).1).0 ≡ ok (some pid))
        ⊎ ((e : IoError) × ((read_pid_file processes path (write_pid_file processes path pid d).1).0
              ≡ err e))
  unfolding write_pid_file
  write_pid_file-read_pid_file pid d apart parses done =
      read_back pid (write_pid_file processes path pid d).1
        ((write_through-Whole (pid_tmp_path path) path (processes.show pid) apart d).replaced done)
        parses

  -- What the clean-up does to a disk, by its result.
  pub record Cleaned (before : Disk) (r : Result Bool IoError) (after : Disk) : Type 0 where
    -- The answer `true` means that the file is gone, and that its number was of no live process.
    pub gone :
        r ≡ ok true
        → (after.files path ≡ none)
          × ((text : String) × (pid : ℕ) × (before.files path ≡ some text)
              × (processes.parse text ≡ some pid)
              × (process_is_alive processes pid ≡ false))
    -- Otherwise no file has changed.
    pub kept : r ≢ ok true → after.files ≡ before.files
