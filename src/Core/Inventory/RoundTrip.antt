-- ===== src/Core/Inventory/RoundTrip.antt =====
-- Firefox's `profiles.ini`, written and read back (crates/core/src/inventory.rs).
use Prim.Native.Char.{Char, code}
use mathlib.Core.List.{append-nil, append_assoc}
use text.Mathlib.TextLemmas.{nil-append, cons-append}
use text.Mathlib.TextLemmas
use link_pilot.Prelude.{
  String, ◌≡◌, ◌∙◌, ap, sym, refl, Bool, true, false, none, some, List, [], ◌∷◌, ◌++◌, not, ◌&&◌,
  ok, eqb, All, arith, ◌⧺◌, strip_prefix, strip_prefix-append, starts_with, starts_with_iff,
  ends_with, ends_with_iff, map,
}
use link_pilot.Prelude.Parsing.{trim}
use link_pilot.Core.Browser.{BrowserProfile}
use link_pilot.Core.Files.{FilePath, Disk, read_to_string}
use link_pilot.Core.Observations.Logs.{lines}
use link_pilot.Core.Inventory.{
  Reading, firefox_profile, flush, start, read_line, read_lines, read_name, read_path, read_default,
  parse_firefox_profiles,
}

-- A line with a line feed behind it.
abbrev pub unlines : List String → String
unlines [] = ""
unlines (l ∷ ls) = l ⧺ ("\n" ⧺ unlines ls)

-- A profile with the number of its section, as text.
abbrev pub Numbered : Type 0
Numbered = String × BrowserProfile

abbrev pub header : String → String
header k = "[Profile" ⧺ (k ⧺ "]")

-- The line that only the default profile has.
abbrev pub default_lines : Bool → List String → List String
default_lines true rest = "Default=1" ∷ rest
default_lines false rest = rest

-- The section of a profile, with the empty line behind it.
abbrev pub section : Numbered → List String → List String
section (k, p) rest =
    header k
    ∷ ("Name=" ⧺ p.display_name)
    ∷ "IsRelative=1"
    ∷ ("Path=" ⧺ p.id)
    ∷ default_lines p.is_default ("" ∷ rest)

-- The sections of the profiles, and the general one.
abbrev pub sections : List Numbered → List String
sections [] = "[General]" ∷ "StartWithLastProfile=1" ∷ "Version=2" ∷ []
sections (p ∷ ps) = section p (sections ps)

-- No line feed and no carriage return.
abbrev pub unbroken : String → Bool
unbroken String.[] = true
unbroken (String.◌∷◌ c s) = not (eqb (code c) 10) && not (eqb (code c) 13) && unbroken s

abbrev pub Unbroken : String → Type 0
Unbroken s = unbroken s ≡ true

-- A profile of Firefox whose number, name and directory fit on a line, with no white space at the end of
-- the line.
pub record IsPlain (n : Numbered) : Type 0 where
  pub header_trimmed : trim (header n.0) ≡ header n.0
  pub header_unbroken : Unbroken (header n.0)
  pub name_trimmed : trim ("Name=" ⧺ n.1.display_name) ≡ "Name=" ⧺ n.1.display_name
  pub path_trimmed : trim ("Path=" ⧺ n.1.id) ≡ "Path=" ⧺ n.1.id
  pub name_unbroken : Unbroken ("Name=" ⧺ n.1.display_name)
  pub path_unbroken : Unbroken ("Path=" ⧺ n.1.id)
  pub of_firefox : n.1 ≡ firefox_profile n.1.display_name n.1.id n.1.is_default

-- A character that ends no line goes to the front of the first line.
lines-push :
    (c : Char) (s l : String) (ls : List String)
    → eqb (code c) 10 ≡ false
    → eqb (code c) 13 ≡ false
    → lines s ≡ l ∷ ls
    → lines (String.◌∷◌ c s) ≡ String.◌∷◌ c l ∷ ls
unfolding lines
lines-push c s l ls feed ret h = rw (feed, ret, h)

lines_feed : (rest : String) → lines (String.◌∷◌ "\n" rest) ≡ "" ∷ lines rest
unfolding lines
lines_feed rest = refl

lines-line : (l rest : String) → Unbroken l → lines (l ⧺ ("\n" ⧺ rest)) ≡ l ∷ lines rest
lines-line String.[] rest h = rw (nil-append, cons-append, nil-append) (lines_feed rest)
lines-line (String.◌∷◌ c s) rest h = simp cons-append (
    lines-push c (s ⧺ ("\n" ⧺ rest)) s (lines rest) (ground arith) (ground arith)
      (lines-line s rest (ground arith)))

lines-unlines : (ls : List String) → All Unbroken ls → lines (unlines ls) ≡ ls
unfolding lines
lines-unlines [] h = refl
lines-unlines (l ∷ ls) h =
    lines-line l (unlines ls) h.0 ∙ ap (λ rest. l ∷ rest) (lines-unlines ls h.1)

header-starts : (k : String) → starts_with (header k) "[" ≡ true
header-starts k = (starts_with_iff (header k) "[").1 (
  "Profile" ⧺ (k ⧺ "]"),
  cons-append "[" "Profile" (k ⧺ "]")
      ∙ ap (λ t. String.◌∷◌ "[" t) (sym (nil-append ("Profile" ⧺ (k ⧺ "]"))))
      ∙ sym (cons-append "[" "" ("Profile" ⧺ (k ⧺ "]"))),
)

header-ends : (k : String) → ends_with (header k) "]" ≡ true
header-ends k =
    (ends_with_iff (header k) "]").1
      ("[Profile" ⧺ k, sym (TextLemmas.append_assoc "[Profile" k "]"))

read_header :
    (k : String) (r : Reading)
    → read_line (header k) r
      ≡ record start { found = flush r.found r.current_name r.current_path r.current_default }
unfolding read_line
read_header k r = rw (header-starts k, header-ends k) refl

-- The general section ends the last profile, and has none of the keys.
read_general :
    (r : Reading)
    → read_lines (sections []) r ≡ flush r.found r.current_name r.current_path r.current_default
unfolding read_lines read_line trim starts_with ends_with read_name read_path read_default
    strip_prefix flush
read_general r = refl

read_blank : (r : Reading) → read_line (trim "") r ≡ r
unfolding read_line trim starts_with ends_with read_name read_path read_default strip_prefix
read_blank r = refl

read_relative : (r : Reading) → read_line (trim "IsRelative=1") r ≡ r
unfolding read_line trim starts_with ends_with read_name read_path read_default strip_prefix
read_relative r = refl

-- Without the line the profile is not the default, whatever the one in front of it was.
read_default_lines :
    (b : Bool) (rest : List String) (r : Reading)
    → r.current_default ≡ false
    → read_lines (default_lines b ("" ∷ rest)) r
      ≡ read_lines rest (record r { current_default = b })
unfolding read_lines read_line trim starts_with ends_with read_name read_path read_default
    strip_prefix
read_default_lines true rest r fresh = refl
read_default_lines false rest r fresh =
    ap (λ d. read_lines rest (record r { current_default = d })) fresh

-- A text that begins with another character than the prefix.
strip_prefix-ne :
    (c d : Char) (s t p : String)
    → eqb (code c) (code d) ≡ false
    → strip_prefix (String.◌∷◌ c s ⧺ t) (String.◌∷◌ d p) ≡ none
unfolding strip_prefix
strip_prefix-ne c d s t p h = rw (cons-append, h)

read_name_line :
    (name : String) (r : Reading)
    → read_line ("Name=" ⧺ name) r ≡ record r { current_name = some name }
unfolding read_line read_name starts_with
read_name_line name r =
    rw (strip_prefix-ne "N" "[" "ame=" name "" refl, strip_prefix-append "Name=" name)

read_path_line :
    (path : String) (r : Reading)
    → read_line ("Path=" ⧺ path) r ≡ record r { current_path = some path }
unfolding read_line read_name read_path starts_with
read_path_line path r = rw (
  strip_prefix-ne "P" "[" "ath=" path "" refl,
  strip_prefix-ne "P" "N" "ath=" path "ame=" refl,
  strip_prefix-append "Path=" path,
)

read_line-section :
    (n : Numbered) (r : Reading)
    → IsPlain n
    → read_line (trim ("Path=" ⧺ n.1.id)) (
        read_line
          (trim "IsRelative=1")
          (read_line (trim ("Name=" ⧺ n.1.display_name)) (read_line (trim (header n.0)) r)))
      ≡ record {
        found = flush r.found r.current_name r.current_path r.current_default;
        current_name = some n.1.display_name;
        current_path = some n.1.id;
        current_default = false;
      }
read_line-section n r plain = rw (
  plain.header_trimmed, plain.name_trimmed, plain.path_trimmed, read_header, read_name_line,
  read_relative, read_path_line,
)

-- What the lines of a profile do to the variables of the loop.
read_lines-section :
    (n : Numbered) (rest : List String) (r : Reading)
    → IsPlain n
    → read_lines (section n rest) r
      ≡ read_lines rest (record {
        found = flush r.found r.current_name r.current_path r.current_default;
        current_name = some n.1.display_name;
        current_path = some n.1.id;
        current_default = n.1.is_default;
      })
unfolding read_lines
read_lines-section n rest r plain =
    ap (read_lines (default_lines n.1.is_default ("" ∷ rest))) (read_line-section n r plain)
    ∙ read_default_lines n.1.is_default rest _ refl

read_lines-sections :
    (ps : List Numbered) (r : Reading)
    → All IsPlain ps
    → read_lines (sections ps) r
      ≡ flush r.found r.current_name r.current_path r.current_default ++ map (λ n. n.1) ps
unfolding flush
read_lines-sections [] r h = read_general r ∙ sym (append-nil _)
read_lines-sections (p ∷ ps) r h =
    read_lines-section p (sections ps) r h.0
    ∙ read_lines-sections ps _ h.1
    ∙ append_assoc (flush r.found r.current_name r.current_path r.current_default) _
        (map (λ n. n.1) ps)
    ∙ ap
        (λ q.
          flush r.found r.current_name r.current_path r.current_default ++ q ∷ map (λ n. n.1) ps)
        (sym h.0.of_firefox)

default_lines-Unbroken :
    (b : Bool) (rest : List String) → All Unbroken rest → All Unbroken (default_lines b ("" ∷ rest))
default_lines-Unbroken true rest h = (refl, (refl, h))
default_lines-Unbroken false rest h = (refl, h)

section-Unbroken :
    (n : Numbered) (rest : List String)
    → IsPlain n
    → All Unbroken rest
    → All Unbroken (section n rest)
section-Unbroken n rest plain h = (
  plain.header_unbroken,
  (
    plain.name_unbroken,
    (refl, (plain.path_unbroken, default_lines-Unbroken n.1.is_default rest h)),
  ),
)

sections-Unbroken : (ps : List Numbered) → All IsPlain ps → All Unbroken (sections ps)
sections-Unbroken [] h = (refl, (refl, (refl, tt)))
sections-Unbroken (p ∷ ps) h = section-Unbroken p (sections ps) h.0 (sections-Unbroken ps h.1)

-- A file of Firefox's that has a numbered section for each profile of a list, with its name, its
-- directory and, for a default profile only, the line that says so, and the general section behind them,
-- is read as this very list, in its order, with the colours of the directories. Each number, name and
-- directory fits on a line and does not end in white space, and the file is read without an error of the
-- system.
pub parse_firefox_profiles-sections :
    (ps : List Numbered) (path : FilePath) (d : Disk)
    → All IsPlain ps
    → d.files path ≡ some (unlines (sections ps))
    → d.outcomes ≡ []
    → (parse_firefox_profiles path d).0 ≡ ok (map (λ n. n.1) ps)
unfolding parse_firefox_profiles read_to_string flush
parse_firefox_profiles-sections ps path d plain here calm = rw (
  calm,
  here,
  lines-unlines (sections ps) (sections-Unbroken ps plain),
  read_lines-sections ps start plain,
)
