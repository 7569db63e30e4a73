-- ===== src/Mac/Inventory/Lookups.antt =====
-- The table of the known browsers and what is installed (crates/platform-mac/src/inventory.rs).
use mathlib.Core.List.{Memᴰ}
use link_pilot.Prelude.{
  String, ◌≡◌, refl, ◌∙◌, ap, sym, Bool, true, false, not, ◌&&◌, Option, none, some, List, [], ◌∷◌,
  any, find, Result, ◌==◌, eq_refl, eq_iff, arith,
}
use link_pilot.Core.Browser.{InstalledBrowser}
use link_pilot.Core.Files.{FilePath, Disk}
use link_pilot.Core.Inventory.{ChromiumProfileEntry}
use link_pilot.Mac.Inventory.Registry.{KnownBrowser, registry}
use link_pilot.Mac.Inventory.{
  System, find_app_path, installed_at, with_installed, installed_among, installed_browsers,
  profiles, profiles_of,
}

abbrev distinct_ids : List KnownBrowser → Bool
distinct_ids [] = true
distinct_ids (e ∷ entries) = not (any (λ x. x.id == e.id) entries) && distinct_ids entries

registry_distinct : distinct_ids registry ≡ true
unfolding registry
registry_distinct = refl

differs :
    (h e : KnownBrowser) (entries : List KnownBrowser)
    → any (λ x. x.id == h.id) entries ≡ false
    → Memᴰ e entries
    → e.id == h.id ≡ false
differs h e [] none_of m = elim m [ ]
differs h e (x ∷ entries) none_of (Memᴰ.head same) =
    ap (λ (y : KnownBrowser). y.id == h.id) same ∙ ground arith
differs h e (x ∷ entries) none_of (Memᴰ.tail there) = differs h e entries (ground arith) there

eq_comm_false : (s t : String) → s == t ≡ false → t == s ≡ false
eq_comm_false s t h = ground (arith, eq_iff s t, eq_iff t s)

-- Where no identifier stands twice, an entry is the one that is found by its identifier.
find-mem :
    (e : KnownBrowser) (entries : List KnownBrowser)
    → distinct_ids entries ≡ true
    → Memᴰ e entries
    → find (λ x. x.id == e.id) entries ≡ some e
find-mem e [] distinct m = elim m [ ]
find-mem e (h ∷ entries) distinct (Memᴰ.head same) =
    let test : h.id == e.id ≡ true = ap (λ (y : KnownBrowser). h.id == y.id) same ∙ eq_refl h.id in
    rw test (ap some (sym same))
find-mem e (h ∷ entries) distinct (Memᴰ.tail there) =
    let test : h.id == e.id ≡ false =
      eq_comm_false e.id h.id (differs h e entries (ground arith) there) in
    rw test (find-mem e entries (ground arith) there)

module _ (mac : System) where
  -- Where an installed browser comes from.
  abbrev pub Found : InstalledBrowser → List KnownBrowser → Type 0
  Found b entries =
      (entry : KnownBrowser) × (path : FilePath) × Memᴰ entry entries
      × (find_app_path mac entry ≡ some path)
      × (b ≡ installed_at mac entry path)

  later :
      (b : InstalledBrowser) (e : KnownBrowser) (entries : List KnownBrowser)
      → Found b entries
      → Found b (e ∷ entries)
  later b e entries (entry, path, m, there, made) = (entry, path, Memᴰ.tail m, there, made)

  mem-with_installed :
      (b : InstalledBrowser) (e : KnownBrowser) (o : Option FilePath) (entries : List KnownBrowser)
      (rest : List InstalledBrowser)
      → find_app_path mac e ≡ o
      → (Memᴰ b rest → Found b entries)
      → Memᴰ b (with_installed mac e o rest)
      → Found b (e ∷ entries)
  unfolding with_installed
  mem-with_installed b e none entries rest h ih m = later b e entries (ih m)
  mem-with_installed b e (some path) entries rest h ih (Memᴰ.head same) =
      (e, path, Memᴰ.head refl, h, same)
  mem-with_installed b e (some path) entries rest h ih (Memᴰ.tail there) =
      later b e entries (ih there)

  mem-installed_among :
      (b : InstalledBrowser) (entries : List KnownBrowser)
      → Memᴰ b (installed_among mac entries)
      → Found b entries
  unfolding installed_among
  mem-installed_among b [] m = elim m [ ]
  mem-installed_among b (e ∷ entries) m =
      mem-with_installed b e (find_app_path mac e) entries (installed_among mac entries) refl
        (mem-installed_among b entries) m

  entry_id :
      (entry : KnownBrowser) (path : FilePath)
      → Memᴰ entry registry
      → find (λ e. e.id == (installed_at mac entry path).id) registry ≡ some entry
  unfolding installed_at
  entry_id entry path m = find-mem entry registry registry_distinct m

  -- Every installed browser comes from an entry of the table whose application was found, and its
  -- identifier leads back to this entry: the profiles read for it are those of the entry, so no two
  -- entries are mistaken for each other.
  pub installed_browsers-profiles :
      (parse : String → Result (List (String × ChromiumProfileEntry)) String) (b : InstalledBrowser)
      (d : Disk)
      → Memᴰ b (installed_browsers mac)
      → (entry : KnownBrowser) × (path : FilePath) × (find_app_path mac entry ≡ some path)
        × (b ≡ installed_at mac entry path)
        × (profiles mac parse b.id d ≡ profiles_of mac parse (some entry) d)
  unfolding installed_browsers profiles
  installed_browsers-profiles parse b d m =
      let (entry, path, listed, there, made) = mem-installed_among b registry m in
      let found : find (λ e. e.id == b.id) registry ≡ some entry =
        ap (λ (c : InstalledBrowser). find (λ e. e.id == c.id) registry) made
        ∙ entry_id entry path listed in
      (entry, path, there, made, ap (λ o. profiles_of mac parse o d) found)
