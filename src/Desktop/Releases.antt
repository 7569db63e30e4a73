-- ===== src/Desktop/Releases.antt =====
-- apps/desktop/src-tauri/src/commands/mod.rs: the versions and the tags of releases. `Checksums` reads
-- the list of their digests, `Feed` the feed, and `Metadata` puts these together; `Versions` has
-- theorems.
use Prim.Native.Nat.{compare, Ordering}
use link_pilot.Prelude.{
  ℕ, zero, suc, String, Bool, ◌||◌, Option, none, some, List, [], ◌∷◌, map, length, eqb, leb,
  if◌then◌else◌, unwrap_or, ◌==◌, ◌⧺◌, strip_prefix,
}
use link_pilot.Prelude.Parsing.{trim, split_on, parse_u32}
pub mod Versions
pub mod Checksums
pub mod Feed
pub mod Metadata

-- `trimmed.strip_prefix(['v', 'V'])`
unfoldable pub normalize_version : String → String
normalize_version v =
    let trimmed = trim v in
    elim (strip_prefix trimmed "v") as (λ _. String) [
      | some stripped ↦ stripped
      | none ↦ unwrap_or (strip_prefix trimmed "V") trimmed
    ]

abbrev first_part : List String → String
first_part [] = ""
first_part (part ∷ parts) = part

unfoldable pub version_parts : String → List ℕ
version_parts version =
    let core = first_part (split_on (λ c. eqb c b'+' || eqb c b'-') (normalize_version version)) in
    map (λ part. unwrap_or (parse_u32 part) 0) (split_on (λ c. eqb c b'.') core)

-- `parts.get(i).copied().unwrap_or(0)`
abbrev pub part_at : List ℕ → ℕ → ℕ
part_at [] i = 0
part_at (p ∷ parts) zero = p
part_at (p ∷ parts) (suc i) = part_at parts i

abbrev max : ℕ → ℕ → ℕ
max a b = if leb a b then b else a

-- The loop from index `i`; the sign of the first difference.
unfoldable pub compare_from : List ℕ → List ℕ → (i rounds : ℕ) → Ordering
compare_from a b i zero = Ordering.eq
compare_from a b i (suc rounds) =
    let rest = compare_from a b (suc i) rounds in
    elim (compare (part_at a i) (part_at b i)) [
      | Ordering.eq ↦ rest
      | Ordering.lt ↦ Ordering.lt
      | Ordering.gt ↦ Ordering.gt
    ]

-- -1, 0 and 1 are `lt`, `eq` and `gt`.
unfoldable pub compare_parts : List ℕ → List ℕ → Ordering
compare_parts a b = compare_from a b 0 (max (length a) (length b))

unfoldable pub compare_versions : String → String → Ordering
compare_versions left right = compare_parts (version_parts left) (version_parts right)

-- The part behind `tag`.
unfoldable pub tag_in : List String → Option String
tag_in [] = none
tag_in (seg ∷ []) = none
tag_in (seg ∷ tag ∷ segments) =
    let rest = tag_in (tag ∷ segments) in
    if seg == "tag" then (if tag == "" then none else some tag) else rest

-- `trim_end_matches('/')`, of the parts between the slashes.
unfoldable pub drop_empty_end : List String → List String
drop_empty_end [] = []
drop_empty_end (seg ∷ segments) = elim (drop_empty_end segments) [
  | [] ↦ if seg == "" then [] else seg ∷ []
  | s ∷ rest ↦ seg ∷ s ∷ rest
]

unfoldable pub parse_tag_from_release_url : String → Option String
parse_tag_from_release_url url =
    let without_query = first_part (split_on (λ c. eqb c b'?') url) in
    tag_in (drop_empty_end (split_on (λ c. eqb c b'/') without_query))
