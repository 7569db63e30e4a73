-- ===== src/Core/Files/Paths.antt =====
-- `std::path::Path`: parents, file names and extensions.
use Prim.Native.Char.{code}
use link_pilot.Prelude.{
  String, Option, none, some, List, [], ◌∷◌, Bool, true, false, ◌&&◌, ◌==◌, ◌⧺◌, if◌then◌else◌, eqb,
}

abbrev pub FilePath : Type 0
FilePath = List String

-- `path.join(name)`
abbrev pub join : FilePath → String → FilePath
join path name = name ∷ path

-- `path.parent()`
abbrev pub parent : FilePath → Option FilePath
parent [] = none
parent (name ∷ dir) = some dir

-- `path.with_file_name(name)`
abbrev pub with_file_name : FilePath → String → FilePath
with_file_name [] name = name ∷ []
with_file_name (old ∷ dir) name = name ∷ dir

-- `path.file_name().unwrap_or_default()`
abbrev pub file_name : FilePath → String
file_name [] = ""
file_name (name ∷ dir) = name

-- What stands before the last dot, if there is a dot.
unfoldable pub before_dot : String → Option String
before_dot String.[] = none
before_dot (String.◌∷◌ c s) = elim (before_dot s) [
  | some stem ↦ some (String.◌∷◌ c stem)
  | none ↦ if eqb (code c) b'.' then some "" else none
]

-- `file_stem`: a name that begins with its only dot has no extension.
unfoldable pub file_stem : String → String
file_stem name = elim (before_dot name) [
  | none ↦ name
  | some stem ↦ if stem == "" then name else stem
]

-- `path.with_extension(ext)`
unfoldable pub with_extension : FilePath → String → FilePath
with_extension [] ext = []
with_extension (name ∷ dir) ext = (file_stem name ⧺ ("." ⧺ ext)) ∷ dir

-- Components are compared one by one.
unfoldable pub path_eq : FilePath → FilePath → Bool
path_eq [] [] = true
path_eq (a ∷ p) (b ∷ q) = a == b && path_eq p q
path_eq _ _ = false
