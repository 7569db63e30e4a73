-- ===== src/Core/Files/Writing.antt =====
-- A file is replaced as a whole or left alone by a write to another name and a rename.
use link_pilot.Prelude.{
  String, ◌≡◌, ◌≢◌, inl, inr, refl, ap, ◌∙◌, Option, none, some, Result, ok, err, Result-cases,
}
use link_pilot.Core.Files.Paths.{FilePath, parent}
use link_pilot.Core.Files.Disks.{Disk, IoError, write, make_parent, write_through}
use link_pilot.Core.Files.Laws.{
  files-create_dir_all, write_ok, write_err, rename_err, stored_self, stored_ne, rename_puts,
}

-- The file after an operation has the contents, or after an error what it had.
pub record Whole (path : FilePath) (contents : String) (before : Disk)
    (r : Result (Unit {0}) IoError) (after : Disk) : Type 0 where
  pub replaced : r ≡ ok tt → after.files path ≡ some contents
  pub kept : (e : IoError) → r ≡ err e → after.files path ≡ before.files path

files-make_parent : (dir : Option FilePath) (d : Disk) → (make_parent dir d).1.files ≡ d.files
unfolding make_parent
files-make_parent none d = refl
files-make_parent (some dir) d = files-create_dir_all d dir

module _ (tmp path : FilePath) (contents : String) (apart : tmp ≢ path) where
  pub write_through-Whole :
      (d : Disk)
      → Whole path contents d
          (write_through tmp path contents d).0
          (write_through tmp path contents d).1
  unfolding write_through
  write_through-Whole d =
      let c : Disk = (make_parent (parent path) d).1 in
      let w : Disk = (write tmp contents c).1 in
      let same = ap (λ f. f path) (files-make_parent (parent path) d) in
      elim (Result-cases (make_parent (parent path) d).0) [
        | inr (e, failed) ↦ rw failed (record { replaced = λ h. cc; kept = λ e' h. same })
        | inl (u, made) ↦ elim (Result-cases (write tmp contents c).0) [
          | inr (e, failed) ↦
              rw (made, failed)
                (record {
                  replaced = λ h. cc;
                  kept = λ e' h. ap (λ f. f path) (write_err c tmp contents e failed) ∙ same;
                })
          | inl (u', written) ↦
              let at_tmp =
                ap (λ f. f tmp) (write_ok c tmp contents written)
                ∙ stored_self c.files tmp (some contents) in
              let at_path =
                ap (λ f. f path) (write_ok c tmp contents written)
                ∙ stored_ne c.files tmp path (some contents) apart in
              rw (made, written)
                (record {
                  replaced = λ h. rename_puts tmp path w contents at_tmp h;
                  kept = λ e h. ap (λ f. f path) (rename_err w tmp path e h) ∙ at_path ∙ same;
                })
        ]
      ]
