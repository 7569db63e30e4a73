-- ===== src/Desktop/Releases/Checksums.antt =====
-- apps/desktop/src-tauri/src/commands/mod.rs, `parse_checksum_for_asset`: the digest of a release's file
-- in a list as `shasum` writes it, with what a digest that is found says of the list.
use link_pilot.Prelude.{
  String, ◌≡◌, ◌≢◌, ◌⊎◌, ◌∙◌, sym, ap, refl, true, Option, none, some, List, [], ◌∷◌, ◌||◌,
  if◌then◌else◌, eqb, ◌==◌, starts_with, arith, Bool-cases, inl, inr, eq_iff,
}
use link_pilot.Prelude.Parsing.{trim, split_on, is_whitespace, is_digest, to_ascii_lowercase}
use link_pilot.Core.Observations.Logs.{lines}

-- `line.splitn(2, char::is_whitespace)`: the part in front of the first white space, and what is behind
-- it, if there is any.
unfoldable pub split_space : String → String × Option String
split_space String.[] = ("", none)
split_space (String.◌∷◌ c s) =
    let (word, rest) = split_space s in
    if is_whitespace c then ("", some s) else (String.◌∷◌ c word, rest)

-- `trim_start_matches('*')`
unfoldable pub trim_stars : String → String
trim_stars String.[] = ""
trim_stars (String.◌∷◌ c s) =
    let rest = trim_stars s in if starts_with (String.◌∷◌ c s) "*" then rest else String.◌∷◌ c s

-- `path.rsplit('/').next()`
abbrev pub last_part : List String → String
last_part [] = ""
last_part (part ∷ []) = part
last_part (part ∷ next ∷ parts) = last_part (next ∷ parts)

unfoldable pub base_name : String → String
unfolding trim_stars
base_name rest =
    to_ascii_lowercase (last_part (split_on (λ c. eqb c b'/') (trim (trim_stars (trim rest)))))

-- What a line does: the loop goes on, the function ends without an answer, or with this one.
pub data LineResult : Type 0 where
  skipped stopped : LineResult
  found : String → LineResult

-- From the two parts of a line on; a line of one word ends the function, by `?`.
unfoldable pub read_parts : String → String × Option String → LineResult
read_parts target (hex, none) = stopped
read_parts target (hex, some rest) =
    if is_digest hex
    then (if base_name rest == target then found (to_ascii_lowercase hex) else skipped)
    else skipped

unfoldable pub read_checksum : String → String → LineResult
read_checksum target line =
    if line == "" || starts_with line "#" then skipped else read_parts target (split_space line)

unfoldable pub first_checksum : String → List String → Option String
first_checksum target [] = none
first_checksum target (raw ∷ rest) =
    let later = first_checksum target rest in
    elim (read_checksum target (trim raw)) [
      | skipped ↦ later
      | stopped ↦ none
      | found hex ↦ some hex
    ]

unfoldable pub parse_checksum_for_asset : String → String → Option String
parse_checksum_for_asset content asset_name =
    first_checksum (to_ascii_lowercase asset_name) (lines content)

-- A line that has a digest, and behind it the name of the file.
pub record Lists (target digest raw : String) : Type 0 where
  pub rest : String
  pub hex : String
  pub parts : split_space (trim raw) ≡ (hex, some rest)
  pub is_hex : is_digest hex ≡ true
  pub names : base_name rest ≡ target
  pub lowered : digest ≡ to_ascii_lowercase hex

abbrev pub AnyLists : String → String → List String → Type 0
AnyLists target digest [] = ⊥
AnyLists target digest (raw ∷ rest) = Lists target digest raw ⊎ AnyLists target digest rest

found-inj : (a b : String) → found a ≡ found b → a ≡ b
found-inj a b h = ground arith

skipped≢found : {hex : String} → skipped ≢ found hex
skipped≢found h = cc

read_parts-found :
    (target digest raw hex : String) (o : Option String)
    → split_space (trim raw) ≡ (hex, o)
    → read_parts target (hex, o) ≡ found digest
    → Lists target digest raw
unfolding read_parts
read_parts-found target digest raw hex none e h = cc
read_parts-found target digest raw hex (some rest) e h = elim (Bool-cases (is_digest hex)) [
  | inr other ↦ absurd (skipped≢found (rw (other, read_parts) at h))
  | inl good ↦ elim (Bool-cases (base_name rest == target)) [
    | inr other ↦ absurd (skipped≢found (rw (good, other, read_parts) at h))
    | inl same ↦ record {
      rest = rest;
      hex = hex;
      parts = e;
      is_hex = good;
      names = (eq_iff (base_name rest) target).0 same;
      lowered = sym (found-inj (to_ascii_lowercase hex) digest (rw (good, same, read_parts) at h));
    }
  ]
]

read_checksum-found :
    (target digest raw : String)
    → read_checksum target (trim raw) ≡ found digest
    → Lists target digest raw
unfolding read_checksum
read_checksum-found target digest raw h =
    elim (Bool-cases (trim raw == "" || starts_with (trim raw) "#")) [
      | inl comment ↦ absurd (skipped≢found (rw (comment, read_checksum) at h))
      | inr entry ↦
          read_parts-found target digest raw (split_space (trim raw)).0 (split_space (trim raw)).1
            refl (rw (entry, read_checksum) at h)
    ]

LineResult-cases :
    (r : LineResult) → (r ≡ skipped) ⊎ ((r ≡ stopped) ⊎ ((hex : String) × (r ≡ found hex)))
LineResult-cases skipped = inl refl
LineResult-cases stopped = inr (inl refl)
LineResult-cases (found hex) = inr (inr (hex, refl))

first_checksum-Lists :
    (target digest : String) (raws : List String)
    → first_checksum target raws ≡ some digest
    → AnyLists target digest raws
unfolding first_checksum
first_checksum-Lists target digest [] h = cc
first_checksum-Lists target digest (raw ∷ rest) h =
    elim (LineResult-cases (read_checksum target (trim raw))) [
      | inl skips ↦ inr (first_checksum-Lists target digest rest (rw (skips, first_checksum) at h))
      | inr (inl stops) ↦ cc (rw (stops, first_checksum) at h)
      | inr (inr (hex, finds)) ↦
          let same : hex ≡ digest = cc (rw (finds, first_checksum) at h) in
          inl (read_checksum-found target digest raw (finds ∙ ap found same))
    ]

-- A digest that is found for an asset stands, in either case of its letters, as the first word of a
-- line of the list, is sixty-four hexadecimal digits, and the rest of this line names the asset,
-- whatever its directory and the case of its letters.
pub parse_checksum_for_asset-Lists :
    (content asset_name digest : String)
    → parse_checksum_for_asset content asset_name ≡ some digest
    → AnyLists (to_ascii_lowercase asset_name) digest (lines content)
unfolding parse_checksum_for_asset
parse_checksum_for_asset-Lists content asset_name digest h =
    first_checksum-Lists (to_ascii_lowercase asset_name) digest (lines content) h
