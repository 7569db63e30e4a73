-- ===== src/Desktop/Releases/Versions.antt =====
-- Which of two versions is the later one (apps/desktop/src-tauri/src/commands/mod.rs,
-- `compare_versions`).
use Prim.Native.Nat.{Ordering}
use link_pilot.Prelude.{
  ℕ, zero, suc, ◌+◌, ◌≤◌, ◌<◌, String, ◌≡◌, ◌↔◌, List, [], ◌∷◌, length, arith, Bool-cases, eqb, inl,
  inr,
}
use link_pilot.Desktop.Releases.{
  version_parts, part_at, compare_from, compare_parts, compare_versions,
}

-- The first part in which they differ is greater in the first.
abbrev pub IsLater : List ℕ → List ℕ → Type 0
IsLater a b = (i : ℕ) × ((j : ℕ) → j < i → part_at a j ≡ part_at b j) × (part_at b i < part_at a i)

part_at-lt : (parts : List ℕ) (i n : ℕ) → n < part_at parts i → i < length parts
part_at-lt [] i n h = absurd (omega arith)
part_at-lt (p ∷ parts) zero n h = omega arith
part_at-lt (p ∷ parts) (suc i) n h = omega (arith, part_at-lt parts i n h)

module _ (a b : List ℕ) where
  found-IsLater :
      (rounds i : ℕ)
      → compare_from a b i rounds ≡ Ordering.gt
      → ((j : ℕ) → j < i → part_at a j ≡ part_at b j)
      → IsLater a b
  unfolding compare_from
  found-IsLater zero i h same = cc
  found-IsLater (suc rounds) i h same = elim (Bool-cases (eqb (part_at a i) (part_at b i))) [
    | inl equal ↦ found-IsLater rounds (suc i) (ground arith) (λ j k. elim (Bool-cases (eqb j i)) [
      | inl here ↦ let at_i : j ≡ i = ground arith in rw at_i (ground arith)
      | inr before ↦ same j (ground arith)
    ])
    | inr other ↦ (i, same, ground arith)
  ]

  later_found :
      (rounds i k : ℕ)
      → i ≤ k
      → k < i + rounds
      → ((j : ℕ) → j < k → part_at a j ≡ part_at b j)
      → part_at b k < part_at a k
      → compare_from a b i rounds ≡ Ordering.gt
  unfolding compare_from
  later_found zero i k h l same more = absurd (omega arith)
  later_found (suc rounds) i k h l same more = elim (Bool-cases (eqb i k)) [
    | inl here ↦ let at_k : i ≡ k = ground arith in rw at_k (ground arith)
    | inr before ↦
        let equal = same i (ground arith) in
        let rest = later_found rounds (suc i) k (ground arith) (omega arith) same more in
        ground (arith, equal, rest)
  ]

-- A version is newer exactly when the first of its numbers that differs is greater; a number that is
-- missing or does not read as one counts as 0.
pub compare_versions_iff :
    (left right : String)
    → (compare_versions left right ≡ Ordering.gt)
      ↔ IsLater (version_parts left) (version_parts right)
unfolding compare_versions compare_parts
compare_versions_iff left right =
    let a = version_parts left in
    let b = version_parts right in
    (
      λ h. found-IsLater a b _ 0 h (λ j k. absurd (omega arith)),
      λ (k, same, more).
          later_found a b _ 0 k (omega arith) (ground (arith, part_at-lt a k (part_at b k) more))
            same more,
    )
