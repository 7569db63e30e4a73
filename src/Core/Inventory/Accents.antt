-- ===== src/Core/Inventory/Accents.antt =====
-- crates/core/src/inventory.rs: the colour of a profile.
use Prim.Native.Char.{code}
use Prim.Native.Nat.{bit_xor}
use link_pilot.Prelude.{
  ℕ, String, List, [], ◌∷◌, ◌++◌, ◌+◌, ◌*◌, ◌/◌, ◌%◌, ◌^◌, if◌then◌else◌, ltb, length, unwrap_or,
  Option, none, some, zero, suc,
}

abbrev pub accent_palette : List String
accent_palette =
    "#4285F4" ∷ "#34A853" ∷ "#EA4335" ∷ "#FBBC04" ∷ "#9C27B0" ∷ "#FF6D00" ∷ "#00ACC1" ∷ "#43A047"
    ∷ "#5E35B1" ∷ "#6E6E73" ∷ "#E91E63" ∷ "#3F51B5" ∷ []

-- The bytes of a code point in UTF-8.
abbrev utf8 : ℕ → List ℕ
utf8 n =
    if ltb n 128
    then n ∷ []
    else if ltb n 2048
    then (192 + n / 64) ∷ (128 + n % 64) ∷ []
    else if ltb n 65536
    then (224 + n / 4096) ∷ (128 + n / 64 % 64) ∷ (128 + n % 64) ∷ []
    else (240 + n / 262144) ∷ (128 + n / 4096 % 64) ∷ (128 + n / 64 % 64) ∷ (128 + n % 64) ∷ []

-- `id.as_bytes()`
unfoldable pub as_bytes : String → List ℕ
as_bytes String.[] = []
as_bytes (String.◌∷◌ c s) = utf8 (code c) ++ as_bytes s

-- The loop, with `wrapping_mul` on 32 bits.
unfoldable pub fnv : List ℕ → ℕ → ℕ
fnv [] hash = hash
fnv (b ∷ bytes) hash = fnv bytes (bit_xor hash b * 0x01000193 % 2 ^ 32)

abbrev pub get_elem? : List String → ℕ → Option String
get_elem? [] i = none
get_elem? (x ∷ xs) zero = some x
get_elem? (x ∷ xs) (suc i) = get_elem? xs i

-- The index lies in the palette, so there is no panic.
unfoldable pub accent_for : String → String
unfolding as_bytes fnv
accent_for id =
    unwrap_or (get_elem? accent_palette (fnv (as_bytes id) 0x811c9dc5 % length accent_palette)) ""
