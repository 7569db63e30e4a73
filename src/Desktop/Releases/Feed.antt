-- ===== src/Desktop/Releases/Feed.antt =====
-- apps/desktop/src-tauri/src/commands/mod.rs, `parse_release_atom_meta`: the name and the time of a
-- release in the feed of the releases. `Feed.Entries` has theorems.
use Prim.Native.String.{count}
use link_pilot.Prelude.{
  ℕ, zero, suc, String, Bool, ◌-◌, Option, none, some, Option-cases, is_some, if◌then◌else◌, ◌⧺◌,
  starts_with,
}
use link_pilot.Prelude.Parsing.{contains_char}
use link_pilot.Prelude.Splits.{cut_at}
pub mod Entries

-- `s.replace(from, to)`: `skip` characters of a place that was replaced are still to be left out.
unfoldable pub replace_from : String → String → ℕ → String → String
replace_from from to skip String.[] = ""
replace_from from to (suc skip) (String.◌∷◌ c s) = replace_from from to skip s
replace_from from to zero (String.◌∷◌ c s) =
    let here = starts_with (String.◌∷◌ c s) from in
    let rest = replace_from from to (if here then count from - 1 else 0) s in
    if here then to ⧺ rest else String.◌∷◌ c rest

-- `s.replace(from, to)`
abbrev pub replace_all : String → String → String → String
replace_all from to s = replace_from from to 0 s

-- The six replacements, in their order.
unfoldable pub decode_xml_entities : String → String
decode_xml_entities input =
    if contains_char b'&' input
    then replace_all "&#39;" "'" (
        replace_all "&apos;" "'" (
          replace_all "&quot;" "\""
            (replace_all "&gt;" ">" (replace_all "&lt;" "<" (replace_all "&amp;" "&" input)))))
    else input

-- The text in front of a mark, where the mark is there.
unfoldable pub in_front : String → String → Option String
in_front mark s = elim (cut_at s mark) [ none ↦ none | some (before, behind) ↦ some before ]

unfoldable pub extract_xml_text : String → String → Option String
extract_xml_text block tag = elim (cut_at block ("<" ⧺ (tag ⧺ ">"))) [
  | none ↦ none
  | some (before, behind) ↦ in_front ("</" ⧺ (tag ⧺ ">")) behind
]

-- The name of a release and the time at which it was published.
abbrev pub ReleaseMeta : Type 0
ReleaseMeta = Option String × Option String

abbrev decoded : Option String → Option String
decoded none = none
decoded (some text) = some (decode_xml_entities text)

unfoldable pub meta_of : String → ReleaseMeta
meta_of entry =
    (decoded (extract_xml_text entry "title"), decoded (extract_xml_text entry "updated"))

-- `parse_release_atom_meta` from the cursor on; `none` is for fuel that ran out.
unfoldable pub find_entry :
    (marker : String) → (fuel : ℕ) → (feed : String) → Option (Option ReleaseMeta)
find_entry marker zero feed = none
find_entry marker (suc fuel) feed = elim (cut_at feed "<entry>") [
  | none ↦ some none
  | some (before, body) ↦ elim (cut_at ("<entry>" ⧺ body) "</entry>") [
    | none ↦ some none
    | some (entry, behind) ↦
        let rest = find_entry marker fuel behind in
        if is_some (cut_at entry marker) then some (some (meta_of entry)) else rest
  ]
]

unfoldable pub href_marker : String → String
href_marker tag = "/releases/tag/" ⧺ (tag ⧺ "\"")

unfoldable pub parse_release_atom_meta : (atom tag : String) → Option (Option ReleaseMeta)
parse_release_atom_meta atom tag = find_entry (href_marker tag) (suc (count atom)) atom
