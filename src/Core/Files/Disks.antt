-- ===== src/Core/Files/Disks.antt =====
-- `std::fs`: each operation gives its result and the disk after it.
use link_pilot.Prelude.{
  String, ◌≡◌, ◌↔◌, ◌⊎◌, inl, inr, refl, Bool, true, Option, none, some, List, [], ◌∷◌, Result, ok,
  err, if◌then◌else◌, arith, eq_iff, is_some, ◌⧺◌, unwrap_or,
}
use link_pilot.Prelude.Tasks.{Task, pure, ◌>>◌}
use link_pilot.Core.Files.Paths.{FilePath, path_eq, parent}

-- `std::io::Error`: the one kind that the program asks for, and the others by their message.
pub data IoError : Type 0 where
  not_found : IoError
  other : String → IoError

pub record Disk : Type 0 where
  pub files : FilePath → Option String
  pub outcomes : List (Option String)

abbrev pub Io : Type 0 → Type 0
Io A = Task Disk IoError A

-- The rest of the outcomes, with the one at hand.
abbrev pub next_outcome : List (Option String) → Option String × List (Option String)
next_outcome [] = (none, [])
next_outcome (o ∷ os) = (o, os)

abbrev pub stored : (FilePath → Option String) → FilePath → Option String → FilePath → Option String
stored files path content q = if path_eq path q then content else files q

-- An operation under the next outcome.
abbrev pub attempt : {A : Type 0} → (Disk → Result A IoError × Disk) → Io A
attempt op d = elim (next_outcome d.outcomes).0 [
  | some e ↦ (err (other e), record d { outcomes = (next_outcome d.outcomes).1 })
  | none ↦ op (record d { outcomes = (next_outcome d.outcomes).1 })
]

-- The disk after an operation's outcome is taken.
abbrev pub later : Disk → Disk
later d = record d { outcomes = (next_outcome d.outcomes).1 }

-- An operation fails with an error other than `NotFound`, or goes ahead.
pub attempt-cases :
    {A : Type 0} (op : Disk → Result A IoError × Disk) (d : Disk)
    → ((e : String) × (attempt op d ≡ (err (other e), later d))) ⊎ (attempt op d ≡ op (later d))
attempt-cases op d = go d.files d.outcomes
  where
    go :
        (files : FilePath → Option String) (os : List (Option String))
        → ((e : String) × (attempt op (record { files = files; outcomes = os })
              ≡ (err (other e), later (record { files = files; outcomes = os }))))
          ⊎ (attempt op (record { files = files; outcomes = os })
              ≡ op (later (record { files = files; outcomes = os })))
    go files [] = inr refl
    go files (none ∷ os) = inr refl
    go files (some e ∷ os) = inl (e, refl)

-- `path.exists()`
unfoldable pub exists : FilePath → Disk → Bool
exists path d = is_some (d.files path)

-- `std::fs::create_dir_all`; directories hold nothing that the program reads.
unfoldable pub create_dir_all : FilePath → Io (Unit {0})
create_dir_all path = attempt λ d. (ok tt, d)

abbrev pub found : Option String → Disk → Result String IoError × Disk
found none d = (err not_found, d)
found (some content) d = (ok content, d)

unfoldable pub read_to_string : FilePath → Io String
read_to_string path = attempt λ d. found (d.files path) d

unfoldable pub write : FilePath → String → Io (Unit {0})
write path content = attempt λ d. (ok tt, record d { files = stored d.files path (some content) })

abbrev pub moved : Option String → FilePath → FilePath → Disk → Result (Unit {0}) IoError × Disk
moved none from to d = (err not_found, d)
moved (some content) from to d =
    (ok tt, record d { files = stored (stored d.files from none) to (some content) })

-- `std::fs::rename`: replaces the file at the new name in one step.
unfoldable pub rename : FilePath → FilePath → Io (Unit {0})
rename from to = attempt λ d. moved (d.files from) from to d

abbrev pub removed : Option String → FilePath → Disk → Result (Unit {0}) IoError × Disk
removed none path d = (err not_found, d)
removed (some content) path d = (ok tt, record d { files = stored d.files path none })

unfoldable pub remove_file : FilePath → Io (Unit {0})
remove_file path = attempt λ d. removed (d.files path) path d

-- An open for appending, with creation, and one write of a whole line.
unfoldable pub append_line : FilePath → String → Io (Unit {0})
append_line path line = attempt λ d. (
  ok tt,
  record d { files = stored d.files path (some (unwrap_or (d.files path) "" ⧺ (line ⧺ "\n"))) },
)

-- `if let Some(parent) = path.parent() { create_dir_all(parent)? }`
unfoldable pub make_parent : Option FilePath → Io (Unit {0})
make_parent none = pure tt
make_parent (some dir) = create_dir_all dir

-- A write to the temporary name, and the rename of it to the path.
unfoldable pub write_through : (tmp path : FilePath) → String → Io (Unit {0})
write_through tmp path contents = do make_parent (parent path); write tmp contents; rename tmp path

pub path_eq_iff : (p q : FilePath) → (path_eq p q ≡ true) ↔ (p ≡ q)
unfolding path_eq
path_eq_iff [] [] = (λ _. refl, λ _. refl)
path_eq_iff [] (b ∷ q) = (λ h. cc, λ h. cc)
path_eq_iff (a ∷ p) [] = (λ h. cc, λ h. cc)
path_eq_iff (a ∷ p) (b ∷ q) = ground (arith, eq_iff a b, path_eq_iff p q)
