-- ===== src/Cli/Places.antt =====
-- Places in a list: what `position`, `remove` and `insert_at` do to the parts around a place.
use link_pilot.Prelude.{
  ℕ, suc, zero, ◌≡◌, ◌≤◌, refl, ap, Bool, true, false, some, List, [], ◌∷◌, ◌++◌, length, take, All,
  arith,
}
use link_pilot.Prelude.Updates.{position, remove, insert_at}

module _ {A : Type 0} where
  abbrev pub drop : ℕ → List A → List A
  drop zero xs = xs
  drop (suc n) [] = []
  drop (suc n) (x ∷ xs) = drop n xs

  pub take-drop : (n : ℕ) (xs : List A) → take n xs ++ drop n xs ≡ xs
  take-drop zero xs = refl
  take-drop (suc n) [] = refl
  take-drop (suc n) (x ∷ xs) = ap (λ l. x ∷ l) (take-drop n xs)

  pub length-take : (n : ℕ) (xs : List A) → n ≤ length xs → length (take n xs) ≡ n
  length-take zero xs h = refl
  length-take (suc n) [] h = absurd (omega arith)
  length-take (suc n) (x ∷ xs) h = omega (arith, length-take n xs (omega arith))

  pub insert_at-take :
      (n : ℕ) (a : A) (xs : List A)
      → n ≤ length xs
      → insert_at n a xs ≡ some (take n xs ++ a ∷ drop n xs)
  unfolding insert_at
  insert_at-take zero a xs h = refl
  insert_at-take (suc n) a [] h = absurd (omega arith)
  insert_at-take (suc n) a (x ∷ xs) h = rw (insert_at-take n a xs (omega arith)) refl

  pub remove-append :
      (xs : List A) (a : A) (ys : List A) → remove (length xs) (xs ++ a ∷ ys) ≡ some (a, xs ++ ys)
  unfolding remove
  remove-append [] a ys = refl
  remove-append (x ∷ xs) a ys = rw (remove-append xs a ys) refl

  pub position-append :
      (p : A → Bool) (xs : List A) (a : A) (ys : List A)
      → All (λ x. p x ≡ false) xs
      → p a ≡ true
      → position p (xs ++ a ∷ ys) ≡ some (length xs)
  unfolding position
  position-append p [] a ys fails h = rw h refl
  position-append p (x ∷ xs) a ys fails h = rw (fails.0, position-append p xs a ys fails.1 h) refl
