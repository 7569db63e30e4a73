-- ===== src/Prelude/Texts.antt =====
-- The methods of Rust's `str` that the program calls, on native texts.
use Prim.Native.Nat.{ℕ, ◌+◌}
use Prim.Native.Char.{Char, code}
use Prim.Native.String.{String, [], ◌∷◌, ◌++◌, count}
use mathlib.Core.List.{List, map}
use mathlib.Core.Path.{◌≡◌, refl, ap}
use mathlib.Core.Logic.{◌≢◌, ◌↔◌, inl, inr}
use mathlib.Core.Bool.{Bool, true, false, ◌&&◌, false≢true}
use mathlib.Core.Option.{Option, none, some}
use native.Mathlib.Omega.{arith}
use text.Mathlib.Text.{◌==◌}
use text.Mathlib.TextEquality.{eq_iff, Char-path}
use text.Mathlib.TextPositions.{eq_refl}
use text.Mathlib.TextLemmas.{nil-append, cons-append, length-append, length-cons}
use link_pilot.Prelude.Tests.{leb, eqb, is_some, if◌then◌else◌, Bool-cases, Option-cases}

infixr 66 ◌⧺◌
-- Concatenation of texts, as `format!` makes it.
abbrev pub ◌⧺◌ : String → String → String
s ⧺ t = s ++ t

-- `s.strip_prefix(p)`
unfoldable pub strip_prefix : String → String → Option String
strip_prefix s [] = some s
strip_prefix [] (d ∷ p) = none
strip_prefix (c ∷ s) (d ∷ p) =
    let rest = strip_prefix s p in if eqb (code c) (code d) then rest else none

abbrev push_front : Char → Option String → Option String
push_front c none = none
push_front c (some s) = some (c ∷ s)

-- `s.strip_suffix(p)`
unfoldable pub strip_suffix : String → String → Option String
strip_suffix [] p = if "" == p then some "" else none
strip_suffix (c ∷ s) p =
    let rest = push_front c (strip_suffix s p) in if (c ∷ s) == p then some "" else rest

-- `s.starts_with(p)`
unfoldable pub starts_with : String → String → Bool
unfolding strip_prefix
starts_with s p = is_some (strip_prefix s p)

-- `s.ends_with(p)`
unfoldable pub ends_with : String → String → Bool
unfolding strip_suffix
ends_with s p = is_some (strip_suffix s p)

-- `to_ascii_lowercase` on one code point
abbrev pub ascii_lower : ℕ → ℕ
ascii_lower c = if leb b'A' c && leb c b'Z' then c + 32 else c

-- `s.eq_ignore_ascii_case(t)`
unfoldable pub eq_ignore_ascii_case : String → String → Bool
eq_ignore_ascii_case [] [] = true
eq_ignore_ascii_case (c ∷ s) (d ∷ t) =
    eqb (ascii_lower (code c)) (ascii_lower (code d)) && eq_ignore_ascii_case s t
eq_ignore_ascii_case _ _ = false

code_inj : (c d : Char) → eqb (code c) (code d) ≡ true → c ≡ d
code_inj c d h = Char-path c d (ground arith)

-- `strip_prefix` answers what is left behind the prefix, and only then.
pub strip_prefix-eq-some : (s p : String) {r : String} → strip_prefix s p ≡ some r → s ≡ p ⧺ r
unfolding strip_prefix
strip_prefix-eq-some s [] {r} h = ground (arith, nil-append r)
strip_prefix-eq-some [] (d ∷ p) h = cc
strip_prefix-eq-some (c ∷ s) (d ∷ p) {r} h =
    ground (arith, code_inj c d, strip_prefix-eq-some s p {r = r}, cons-append d p r)

pub strip_prefix-append : (p r : String) → strip_prefix (p ⧺ r) p ≡ some r
unfolding strip_prefix
strip_prefix-append [] r = rw nil-append
strip_prefix-append (c ∷ p) r = rw cons-append (ground (arith, strip_prefix-append p r))

push_front-eq-some :
    (c : Char) (o : Option String) {r : String}
    → push_front c o ≡ some r
    → (r' : String) × (o ≡ some r') × (r ≡ c ∷ r')
push_front-eq-some c none h = cc
push_front-eq-some c (some r') h = (r', refl, cc)

pub strip_suffix-eq-some : (s p : String) {r : String} → strip_suffix s p ≡ some r → s ≡ r ⧺ p
unfolding strip_suffix
strip_suffix-eq-some [] p {r} h = ground (arith, eq_iff "" p, nil-append p)
strip_suffix-eq-some (c ∷ s) p {r} h = elim (Bool-cases ((c ∷ s) == p)) [
  | inl whole ↦ ground (arith, eq_iff (c ∷ s) p, nil-append p)
  | inr part ↦
      let (r', found, made) =
        push_front-eq-some c (strip_suffix s p) {r = r} (rw (part, strip_suffix) at h) in
      cc (strip_suffix-eq-some s p found, cons-append c r' p)
]

strip_suffix_self : (p : String) → strip_suffix p p ≡ some ""
unfolding strip_suffix
strip_suffix_self [] = refl
strip_suffix_self (c ∷ p) = rw eq_refl

longer-ne : (c : Char) (r p : String) → c ∷ (r ++ p) ≢ p
longer-ne c r p h = omega (arith, ap count h, length-cons c (r ++ p), length-append r p)

strip_suffix_step :
    (c : Char) (r p : String)
    → strip_suffix (r ++ p) p ≡ some r
    → strip_suffix (c ∷ (r ++ p)) p ≡ some (c ∷ r)
unfolding strip_suffix
strip_suffix_step c r p h = ground (arith, longer-ne c r p, eq_iff (c ∷ (r ++ p)) p)

pub strip_suffix-append : (r p : String) → strip_suffix (r ⧺ p) p ≡ some r
strip_suffix-append [] p = rw nil-append (strip_suffix_self p)
strip_suffix-append (c ∷ r) p = rw cons-append (strip_suffix_step c r p (strip_suffix-append r p))

-- `starts_with` and `ends_with` as what is left over.
pub starts_with_iff : (s p : String) → (starts_with s p ≡ true) ↔ ((r : String) × (s ≡ p ⧺ r))
unfolding starts_with
starts_with_iff s p = (
  λ h. elim (Option-cases (strip_prefix s p)) [
    | inl missing ↦ absurd (false≢true (rw missing at h))
    | inr (r, found) ↦ (r, strip_prefix-eq-some s p found)
  ],
  λ (r, e). rw (e, strip_prefix-append p r),
)

pub ends_with_iff : (s p : String) → (ends_with s p ≡ true) ↔ ((r : String) × (s ≡ r ⧺ p))
unfolding ends_with
ends_with_iff s p = (
  λ h. elim (Option-cases (strip_suffix s p)) [
    | inl missing ↦ absurd (false≢true (rw missing at h))
    | inr (r, found) ↦ (r, strip_suffix-eq-some s p found)
  ],
  λ (r, e). rw (e, strip_suffix-append r p),
)

-- Comparison without regard to ASCII case is comparison of the lowered code points.
abbrev pub codes : String → List ℕ
codes [] = List.[]
codes (c ∷ s) = List.◌∷◌ (code c) (codes s)

pub eq_ignore_ascii_case_iff :
    (s t : String)
    → (eq_ignore_ascii_case s t ≡ true) ↔ (map ascii_lower (codes s) ≡ map ascii_lower (codes t))
unfolding eq_ignore_ascii_case
eq_ignore_ascii_case_iff [] [] = (λ _. refl, λ _. refl)
eq_ignore_ascii_case_iff [] (d ∷ t) = (λ h. cc, λ h. cc)
eq_ignore_ascii_case_iff (c ∷ s) [] = (λ h. cc, λ h. cc)
eq_ignore_ascii_case_iff (c ∷ s) (d ∷ t) = ground (arith, eq_ignore_ascii_case_iff s t)
