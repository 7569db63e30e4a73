-- ===== src/Prelude/TextOrder.antt =====
-- `str::cmp`: the order of the code points, which is the order of the bytes in UTF-8.
use Prim.Native.Nat.{ℕ}
use Prim.Native.String.{String}
use mathlib.Core.Path.{◌≡◌, refl}
use mathlib.Core.Bool.{Bool, true, false}
use mathlib.Core.List.{List, [], ◌∷◌}
use native.Mathlib.Omega.{arith}
use link_pilot.Prelude.Tests.{if◌then◌else◌, ltb, eqb}
use link_pilot.Prelude.Texts.{codes}

abbrev le_codes : List ℕ → List ℕ → Bool
le_codes [] ys = true
le_codes (x ∷ xs) [] = false
le_codes (x ∷ xs) (y ∷ ys) =
    let rest = le_codes xs ys in if ltb x y then true else if eqb x y then rest else false

le_codes_total : (xs ys : List ℕ) → le_codes xs ys ≡ false → le_codes ys xs ≡ true
le_codes_total [] ys h = cc
le_codes_total (x ∷ xs) [] h = refl
le_codes_total (x ∷ xs) (y ∷ ys) h = ground (arith, le_codes_total xs ys)

le_codes_trans :
    (xs ys zs : List ℕ) → le_codes xs ys ≡ true → le_codes ys zs ≡ true → le_codes xs zs ≡ true
le_codes_trans [] ys zs h k = refl
le_codes_trans (x ∷ xs) [] zs h k = cc
le_codes_trans (x ∷ xs) (y ∷ ys) [] h k = cc
le_codes_trans (x ∷ xs) (y ∷ ys) (z ∷ zs) h k = ground (arith, le_codes_trans xs ys zs)

unfoldable pub le_text : String → String → Bool
le_text s t = le_codes (codes s) (codes t)

pub le_text_total : (s t : String) → le_text s t ≡ false → le_text t s ≡ true
unfolding le_text
le_text_total s t = le_codes_total (codes s) (codes t)

pub le_text_trans : (s t u : String) → le_text s t ≡ true → le_text t u ≡ true → le_text s u ≡ true
unfolding le_text
le_text_trans s t u = le_codes_trans (codes s) (codes t) (codes u)
