-- ===== src/Updater/Headers.antt =====
-- `macho_has_cpu` of crates/updater/src/lib.rs: whether the header of an executable names a processor.
use mathlib.Core.Option
use link_pilot.Prelude.{
  ℕ, zero, suc, ◌+◌, ◌*◌, Bool, true, false, ◌&&◌, ◌||◌, Option, none, some, List, [], ◌∷◌, eqb,
  leb, if◌then◌else◌, is_some_and,
}

abbrev pub Bytes : Type 0
Bytes = List ℕ

-- `header.get(offset..offset + 4)`
unfoldable pub four_at : ℕ → Bytes → Option (ℕ × ℕ × ℕ × ℕ)
four_at zero (a ∷ b ∷ c ∷ d ∷ rest) = some (a, b, c, d)
four_at zero _ = none
four_at (suc offset) [] = none
four_at (suc offset) (x ∷ rest) = four_at offset rest

-- `u32::from_be_bytes` and `u32::from_le_bytes`
abbrev pub from_be_bytes : ℕ × ℕ × ℕ × ℕ → ℕ
from_be_bytes (a, b, c, d) = a * 16777216 + b * 65536 + c * 256 + d

abbrev pub from_le_bytes : ℕ × ℕ × ℕ × ℕ → ℕ
from_le_bytes (a, b, c, d) = d * 16777216 + c * 65536 + b * 256 + a

-- The closure `word`.
unfoldable pub word : Bytes → ℕ → Bool → Option ℕ
word header offset little =
    Option.map (λ bytes. if little then from_le_bytes bytes else from_be_bytes bytes)
      (four_at offset header)

abbrev is_word : Option ℕ → ℕ → Bool
is_word found cpu = is_some_and (λ w. eqb w cpu) found

abbrev bytes_eq : ℕ × ℕ × ℕ × ℕ → ℕ → ℕ → ℕ → ℕ → Bool
bytes_eq (a, b, c, d) a' b' c' d' = eqb a a' && (eqb b b' && (eqb c c' && eqb d d'))

-- `(0..count).any(|index| word(8 + index * stride) == Some(cpu))`, from `index` on.
unfoldable pub any_arch : Bytes → ℕ → ℕ → Bool → (index count : ℕ) → Bool
any_arch header cpu stride little index zero = false
any_arch header cpu stride little index (suc count) =
    is_word (word header (8 + index * stride) little) cpu
    || any_arch header cpu stride little (suc index) count

unfoldable pub fat_has_cpu : Bytes → ℕ → (little : Bool) (stride : ℕ) → Bool
fat_has_cpu header cpu little stride = elim (word header 4 little) [
  | none ↦ false
  | some count ↦ if leb count 32 then any_arch header cpu stride little 0 count else false
]

-- The magic numbers: of one architecture in either order, and of several with 32 or 64 bits.
unfoldable pub macho_has_cpu : Bytes → ℕ → Bool
macho_has_cpu header cpu = elim (four_at 0 header) [
  | none ↦ false
  | some magic ↦
      if bytes_eq magic 0xcf 0xfa 0xed 0xfe
      then is_word (word header 4 true) cpu
      else if bytes_eq magic 0xfe 0xed 0xfa 0xcf
      then is_word (word header 4 false) cpu
      else if bytes_eq magic 0xca 0xfe 0xba 0xbe
      then fat_has_cpu header cpu false 20
      else if bytes_eq magic 0xca 0xfe 0xba 0xbf
      then fat_has_cpu header cpu false 32
      else if bytes_eq magic 0xbe 0xba 0xfe 0xca
      then fat_has_cpu header cpu true 20
      else if bytes_eq magic 0xbf 0xba 0xfe 0xca
      then fat_has_cpu header cpu true 32
      else false
]
