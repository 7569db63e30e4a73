-- ===== src/Prelude/Lists.antt =====
-- What the iterators of Rust's standard library do, over lists and native numbers.
use Prim.Native.Nat.{ℕ, zero, suc, ◌+◌, ◌≤◌}
use mathlib.Core.Path.{◌≡◌, refl, ap}
use mathlib.Core.Logic.{◌⊎◌, inl, inr}
use mathlib.Core.Bool.{Bool, true, false, ◌&&◌, ◌||◌}
use mathlib.Core.Option.{Option, none, some}
use mathlib.Core.List.{List, [], ◌∷◌, ◌++◌}
use native.Mathlib.Omega.{arith}
use link_pilot.Prelude.Tests.{if◌then◌else◌, Bool-cases}

module _ {ℓ} {A : Type ℓ} where
  abbrev pub length : List A → ℕ
  length [] = 0
  length (x ∷ xs) = suc (length xs)

  -- `take(n)`
  abbrev pub take : ℕ → List A → List A
  take zero xs = []
  take (suc n) [] = []
  take (suc n) (x ∷ xs) = x ∷ take n xs

  -- `filter(p)`, and `retain(p)` in place
  abbrev pub filter : (A → Bool) → List A → List A
  filter p [] = []
  filter p (x ∷ xs) = let rest = filter p xs in if p x then x ∷ rest else rest

  abbrev pub all : (A → Bool) → List A → Bool
  all p [] = true
  all p (x ∷ xs) = p x && all p xs

  abbrev pub any : (A → Bool) → List A → Bool
  any p [] = false
  any p (x ∷ xs) = p x || any p xs

  -- `iter().find(p)`
  abbrev pub find : (A → Bool) → List A → Option A
  find p [] = none
  find p (x ∷ xs) = let rest = find p xs in if p x then some x else rest

  abbrev pub is_empty : List A → Bool
  is_empty [] = true
  is_empty (x ∷ xs) = false

  pub length-append : (xs ys : List A) → length (xs ++ ys) ≡ length xs + length ys
  length-append [] ys = omega arith
  length-append (x ∷ xs) ys = omega (arith, length-append xs ys)

  pub length-filter-le : (p : A → Bool) (xs : List A) → length (filter p xs) ≤ length xs
  length-filter-le p [] = omega arith
  length-filter-le p (x ∷ xs) = ground (arith, length-filter-le p xs)

module _ {ℓ κ} {A : Type ℓ} (P : A → Type κ) where
  -- Every element satisfies `P`.
  abbrev pub All : List A → Type κ
  All [] = Unit
  All (x ∷ xs) = P x × All xs

module _ {ℓ κ ι} {A : Type ℓ} {P : A → Type κ} {Q : A → Type ι} where
  pub All-weaken : ((x : A) → P x → Q x) → (xs : List A) → All P xs → All Q xs
  All-weaken f [] h = tt
  All-weaken f (x ∷ xs) h = (f x h.0, All-weaken f xs h.1)

module _ {ℓ} {A : Type ℓ} (p : A → Bool) where
  -- A list up to its first element that passes the test.
  pub record Split (xs : List A) : Type ℓ where
    pub before : List A
    pub here : A
    pub after : List A
    pub split : xs ≡ before ++ here ∷ after
    pub fails : All (λ x. p x ≡ false) before
    pub passes : p here ≡ true

  Split-cons : (x : A) (xs : List A) → p x ≡ false → Split xs → Split (x ∷ xs)
  Split-cons x xs h s = record {
    before = x ∷ s.before;
    here = s.here;
    after = s.after;
    split = ap (λ l. x ∷ l) s.split;
    fails = (h, s.fails);
    passes = s.passes;
  }

  -- No element passes, or there is a first one that does.
  pub first-cases : (xs : List A) → All (λ x. p x ≡ false) xs ⊎ Split xs
  first-cases [] = inl tt
  first-cases (x ∷ xs) = elim (Bool-cases (p x)) [
    | inl h ↦
        inr (record { before = []; here = x; after = xs; split = refl; fails = tt; passes = h })
    | inr h ↦ elim (first-cases xs) [
      | inl none_passes ↦ inl (h, none_passes)
      | inr s ↦ inr (Split-cons x xs h s)
    ]
  ]
