-- ===== src/Cli/Formats/Widths.antt =====
-- The width of the columns that `lpt history` prints (crates/cli/src/main.rs, `truncate`).
use Prim.Native.String.{count}
use text.Mathlib.TextLemmas.{length-append, length-cons}
use link_pilot.Prelude.{
  ℕ, zero, suc, ◌-◌, ◌≤◌, ◌<◌, String, ◌≡◌, ◌⊎◌, refl, arith, ◌⧺◌, Bool-cases, inl, inr, leb,
}
use link_pilot.Cli.Formats.{take_chars, truncate}

count-take_chars : (n : ℕ) (s : String) → n ≤ count s → count (take_chars n s) ≡ n
unfolding take_chars
count-take_chars zero s h = refl
count-take_chars (suc n) String.[] h = absurd (omega arith)
count-take_chars (suc n) (String.◌∷◌ c s) h = omega (
  arith,
  length-cons c s,
  length-cons c (take_chars n s),
  count-take_chars n s (omega (arith, length-cons c s)),
)

-- A text in a column of at least one place is the text itself where it fits, and otherwise is cut
-- to as many characters as there are places, the last of which is the ellipsis.
pub truncate_bounds :
    (s : String) (max : ℕ)
    → 1 ≤ max
    → ((count s ≤ max) × (truncate s max ≡ s))
      ⊎ ((max < count s)
          × (truncate s max ≡ take_chars (max - 1) s ⧺ "…")
          × (count (truncate s max) ≡ max))
unfolding truncate
truncate_bounds s max h = elim (Bool-cases (leb (count s) max)) [
  | inl fits ↦ inl (ground arith, rw fits refl)
  | inr longer ↦
      let more : max < count s = ground arith in
      inr (
        more,
        rw longer refl,
        rw longer (
            omega (
              arith,
              length-append (take_chars (max - 1) s) "…",
              count-take_chars (max - 1) s (omega arith),
            )),
      )
]
