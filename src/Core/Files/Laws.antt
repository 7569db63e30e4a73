-- ===== src/Core/Files/Laws.antt =====
-- What each file operation leaves on the disk, by its result.
use link_pilot.Prelude.{
  String, ◌≡◌, ◌≢◌, refl, sym, ap, ◌∙◌, Option, none, some, ok, err, arith, Bool-cases, inl, inr,
}
use link_pilot.Core.Files.Paths.{FilePath, path_eq}
use link_pilot.Core.Files.Disks.{
  IoError, Disk, stored, create_dir_all, read_to_string, write, rename, path_eq_iff,
}

module _ (d : Disk) where
  pub files-create_dir_all : (p : FilePath) → (create_dir_all p d).1.files ≡ d.files
  unfolding create_dir_all
  files-create_dir_all p = ground arith

  pub files-read_to_string : (p : FilePath) → (read_to_string p d).1.files ≡ d.files
  unfolding read_to_string
  files-read_to_string p = ground arith

  pub write_ok :
      (p : FilePath) (c : String)
      → (write p c d).0 ≡ ok tt
      → (write p c d).1.files ≡ stored d.files p (some c)
  unfolding write
  write_ok p c h = ground arith

  pub write_err :
      (p : FilePath) (c : String) (e : IoError)
      → (write p c d).0 ≡ err e
      → (write p c d).1.files ≡ d.files
  unfolding write
  write_err p c e h = ground arith

  pub rename_ok :
      (a b : FilePath)
      → (rename a b d).0 ≡ ok tt
      → (c : String) × (d.files a ≡ some c)
        × ((rename a b d).1.files ≡ stored (stored d.files a none) b (some c))
  unfolding rename
  rename_ok a b h = ground arith

  pub rename_err :
      (a b : FilePath) (e : IoError) → (rename a b d).0 ≡ err e → (rename a b d).1.files ≡ d.files
  unfolding rename
  rename_err a b e h = ground arith

  pub read_to_string_ok :
      (p : FilePath) {c : String} → (read_to_string p d).0 ≡ ok c → d.files p ≡ some c
  unfolding read_to_string
  read_to_string_ok p {c} h = ground arith

pub stored_self :
    (files : FilePath → Option String) (p : FilePath) (c : Option String) → stored files p c p ≡ c
stored_self files p c = rw ((path_eq_iff p p).1 refl)

pub stored_ne :
    (files : FilePath → Option String) (p q : FilePath) (c : Option String)
    → p ≢ q
    → stored files p c q ≡ files q
stored_ne files p q c h = elim (Bool-cases (path_eq p q)) [
  | inl same ↦ absurd (h ((path_eq_iff p q).0 same))
  | inr other ↦ rw other
]

-- A rename puts the content at the new name.
pub rename_puts :
    (a b : FilePath) (d : Disk) (c : String)
    → d.files a ≡ some c
    → (rename a b d).0 ≡ ok tt
    → (rename a b d).1.files b ≡ some c
rename_puts a b d c there h =
    let (c', there', made) = rename_ok d a b h in
    ap (λ f. f b) made ∙ stored_self (stored d.files a none) b (some c') ∙ sym there' ∙ there
