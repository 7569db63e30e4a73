-- ===== src/Prelude/Sorting.antt =====
-- `sort_by` of Rust's standard library, which is stable: by insertion. `le a b` stands for a
-- comparison of `a` with `b` that does not answer `Greater`.
use mathlib.Core.Path.{◌≡◌, refl, ◌∙◌}
use mathlib.Core.Logic.{inl, inr}
use mathlib.Core.Bool.{Bool, true, false}
use mathlib.Core.List.{List, [], ◌∷◌, Perm}
use mathlib.Core.List.Perm
use native.Mathlib.Omega.{arith}
use link_pilot.Prelude.Tests.{if◌then◌else◌, Bool-cases}
use link_pilot.Prelude.Lists.{All, All-weaken, filter}

module _ {ℓ} {A : Type ℓ} (le : A → A → Bool) where
  unfoldable pub insert : A → List A → List A
  insert x [] = x ∷ []
  insert x (y ∷ ys) = let later = y ∷ insert x ys in if le x y then x ∷ y ∷ ys else later

  unfoldable pub sort_by : List A → List A
  unfolding insert
  sort_by [] = []
  sort_by (x ∷ xs) = insert x (sort_by xs)

  insert-perm : (x : A) (ys : List A) → Perm (insert x ys) (x ∷ ys)
  unfolding insert
  insert-perm x [] = Perm.refl (x ∷ [])
  insert-perm x (y ∷ ys) = elim (Bool-cases (le x y)) [
    | inl h ↦ rw h (Perm.refl (x ∷ y ∷ ys))
    | inr h ↦ rw h (Perm.trans (Perm.cons y (insert-perm x ys)) (Perm.swap x y ys))
  ]

  -- A sorted list has the elements of the list.
  pub sort_by-perm : (xs : List A) → Perm (sort_by xs) xs
  unfolding sort_by
  sort_by-perm [] = Perm.refl []
  sort_by-perm (x ∷ xs) = Perm.trans (insert-perm x (sort_by xs)) (Perm.cons x (sort_by-perm xs))

  module _ (p : A → Bool) (same : (a b : A) → p a ≡ true → p b ≡ true → le a b ≡ true) where
    filter-insert : (x : A) (ys : List A) → filter p (insert x ys) ≡ filter p (x ∷ ys)
    unfolding insert
    filter-insert x [] = refl
    filter-insert x (y ∷ ys) = ground (arith, same x y, filter-insert x ys)

    -- Sorting is stable: elements that compare as equal keep their order.
    pub filter-sort_by : (xs : List A) → filter p (sort_by xs) ≡ filter p xs
    unfolding sort_by
    filter-sort_by [] = refl
    filter-sort_by (x ∷ xs) = filter-insert x (sort_by xs) ∙ ground (arith, filter-sort_by xs)

  -- Every element comes before all that follow it.
  abbrev pub IsSorted : List A → Type 0
  IsSorted [] = Unit {0}
  IsSorted (x ∷ xs) = All (λ y. le x y ≡ true) xs × IsSorted xs

  module _ (total : (a b : A) → le a b ≡ false → le b a ≡ true)
      (transitive : (a b c : A) → le a b ≡ true → le b c ≡ true → le a c ≡ true) where
    All-insert :
        (x y : A) (ys : List A)
        → le x y ≡ true
        → All (λ z. le x z ≡ true) ys
        → All (λ z. le x z ≡ true) (insert y ys)
    unfolding insert
    All-insert x y [] h k = (h, tt)
    All-insert x y (z ∷ zs) h k = elim (Bool-cases (le y z)) [
      | inl e ↦ rw e (h, k)
      | inr e ↦ rw e (k.0, All-insert x y zs h k.1)
    ]

    insert-IsSorted : (x : A) (ys : List A) → IsSorted ys → IsSorted (insert x ys)
    unfolding insert
    insert-IsSorted x [] h = (tt, tt)
    insert-IsSorted x (y ∷ ys) h = elim (Bool-cases (le x y)) [
      | inl e ↦ rw e ((e, All-weaken (λ z k. transitive x y z e k) ys h.0), h)
      | inr e ↦ rw e (All-insert y x ys (total x y e) h.0, insert-IsSorted x ys h.1)
    ]

    -- For a total and transitive comparison the result is in order.
    pub sort_by-IsSorted : (xs : List A) → IsSorted (sort_by xs)
    unfolding sort_by
    sort_by-IsSorted [] = tt
    sort_by-IsSorted (x ∷ xs) = insert-IsSorted x (sort_by xs) (sort_by-IsSorted xs)
