-- ===== src/Prelude/Updates.antt =====
-- What the program does with a vector of records that are known by a key: replace the first with a
-- key or push, change the first with a key, retain; and an element moved to another index.
use Prim.Native.Nat.{ℕ, zero, suc}
use mathlib.Core.Path.{◌≡◌, refl}
use mathlib.Core.Bool.{Bool, true, false, not}
use mathlib.Core.Option
use mathlib.Core.Option.{Option, none, some}
use mathlib.Core.List.{List, [], ◌∷◌, ◌++◌, map}
use native.Mathlib.Omega.{arith}
use link_pilot.Prelude.Tests.{if◌then◌else◌}
use link_pilot.Prelude.Lists.{filter, find}

module _ {ℓ} {A : Type ℓ} where
  -- `if let Some(x) = xs.iter_mut().find(p) { *x = a } else { xs.push(a) }`
  unfoldable pub upsert : (A → Bool) → A → List A → List A
  upsert p a [] = a ∷ []
  upsert p a (x ∷ xs) = let rest = upsert p a xs in if p x then a ∷ xs else x ∷ rest

  -- `if let Some(x) = xs.iter_mut().find(p) { f(x) }`
  unfoldable pub update_first : (A → Bool) → (A → A) → List A → List A
  update_first p f [] = []
  update_first p f (x ∷ xs) = let rest = update_first p f xs in if p x then f x ∷ xs else x ∷ rest

  -- `iter().position(p)`
  unfoldable pub position : (A → Bool) → List A → Option ℕ
  position p [] = none
  position p (x ∷ xs) =
      let rest = Option.map (λ i. suc i) (position p xs) in if p x then some 0 else rest

  -- `remove(i)`, which panics where there is no such element.
  unfoldable pub remove : ℕ → List A → Option (A × List A)
  remove i [] = none
  remove zero (x ∷ xs) = some (x, xs)
  remove (suc i) (x ∷ xs) = Option.map (λ (a, rest). (a, x ∷ rest)) (remove i xs)

  -- `insert(i, a)`, which panics behind the end.
  unfoldable pub insert_at : ℕ → A → List A → Option (List A)
  insert_at zero a xs = some (a ∷ xs)
  insert_at (suc i) a [] = none
  insert_at (suc i) a (x ∷ xs) = Option.map (λ rest. x ∷ rest) (insert_at i a xs)

module _ {ℓ κ} {K : Type κ} {A : Type ℓ} (eq : K → K → Bool) (key : A → K) where
  -- The first element with the key.
  abbrev pub with_key : K → List A → Option A
  with_key k xs = find (λ x. eq (key x) k) xs

  -- No key stands twice.
  abbrev pub Distinct : List A → Type ℓ
  Distinct [] = Unit
  Distinct (x ∷ xs) = (with_key (key x) xs ≡ none) × Distinct xs

  pub with_key-map :
      (k : K) (f : A → A) (xs : List A)
      → ((x : A) → key (f x) ≡ key x)
      → with_key k xs ≡ none
      → with_key k (map f xs) ≡ none
  with_key-map k f [] same h = refl
  with_key-map k f (x ∷ xs) same h = ground (arith, same x, with_key-map k f xs same)

  pub Distinct-map :
      (f : A → A) (xs : List A) → ((x : A) → key (f x) ≡ key x) → Distinct xs → Distinct (map f xs)
  Distinct-map f [] same h = tt
  Distinct-map f (x ∷ xs) same h =
      (rw (same x) (with_key-map (key x) f xs same h.0), Distinct-map f xs same h.1)

  module _ (to_true : (j k : K) → j ≡ k → eq j k ≡ true)
      (from_true : (j k : K) → eq j k ≡ true → j ≡ k) where
    pub with_key-upsert :
        (k : K) (a : A) (xs : List A)
        → with_key k (upsert (λ x. eq (key x) (key a)) a xs)
          ≡ (if eq (key a) k then some a else with_key k xs)
    unfolding upsert
    with_key-upsert k a [] = refl
    with_key-upsert k a (x ∷ xs) = ground (
      arith,
      with_key-upsert k a xs,
      from_true (key x) (key a),
      from_true (key x) k,
      from_true (key a) k,
      to_true (key a) k,
      to_true (key x) k,
    )

    pub Distinct-upsert :
        (a : A) (xs : List A) → Distinct xs → Distinct (upsert (λ x. eq (key x) (key a)) a xs)
    unfolding upsert
    Distinct-upsert a [] h = (refl, tt)
    Distinct-upsert a (x ∷ xs) h = ground (
      arith,
      Distinct-upsert a xs h.1,
      with_key-upsert (key x) a xs,
      from_true (key x) (key a),
      from_true (key a) (key x),
      to_true (key x) (key a),
    )

    pub with_key-retain :
        (k j : K) (xs : List A)
        → with_key j (filter (λ x. not (eq (key x) k)) xs)
          ≡ (if eq k j then none else with_key j xs)
    with_key-retain k j [] = ground arith
    with_key-retain k j (x ∷ xs) = ground (
      arith,
      with_key-retain k j xs,
      from_true (key x) k,
      from_true (key x) j,
      from_true k j,
      to_true k j,
      to_true (key x) k,
    )

    pub Distinct-retain :
        (k : K) (xs : List A) → Distinct xs → Distinct (filter (λ x. not (eq (key x) k)) xs)
    Distinct-retain k [] h = tt
    Distinct-retain k (x ∷ xs) h =
        ground (arith, Distinct-retain k xs h.1, with_key-retain k (key x) xs)

    -- A change that keeps the keys.
    pub with_key-update_first :
        (k j : K) (f : A → A) (xs : List A)
        → ((x : A) → key (f x) ≡ key x)
        → with_key j (update_first (λ x. eq (key x) k) f xs) ≡ (
            if eq k j
            then elim (with_key j xs) [ none ↦ none | some x ↦ some (f x) ]
            else with_key j xs)
    unfolding update_first
    with_key-update_first k j f [] same = ground arith
    with_key-update_first k j f (x ∷ xs) same = ground (
      arith,
      with_key-update_first k j f xs same,
      same x,
      from_true (key x) k,
      from_true (key x) j,
      from_true (key (f x)) j,
      from_true k j,
      to_true k j,
      to_true (key x) k,
      to_true (key x) j,
    )

    pub Distinct-update_first :
        (k : K) (f : A → A) (xs : List A)
        → ((x : A) → key (f x) ≡ key x)
        → Distinct xs
        → Distinct (update_first (λ x. eq (key x) k) f xs)
    unfolding update_first
    Distinct-update_first k f [] same h = tt
    Distinct-update_first k f (x ∷ xs) same h = ground (
      arith,
      Distinct-update_first k f xs same h.1,
      same x,
      with_key-update_first k (key x) f xs same,
    )

    with_key-push :
        (k : K) (a : A) (xs : List A)
        → with_key k xs ≡ none
        → eq (key a) k ≡ false
        → with_key k (xs ++ a ∷ []) ≡ none
    with_key-push k a [] h e = ground arith
    with_key-push k a (x ∷ xs) h e = ground (arith, with_key-push k a xs)

    -- A push of a new key.
    pub Distinct-push :
        (a : A) (xs : List A) → with_key (key a) xs ≡ none → Distinct xs → Distinct (xs ++ a ∷ [])
    Distinct-push a [] fresh h = (refl, tt)
    Distinct-push a (x ∷ xs) fresh h = ground (
      arith,
      Distinct-push a xs,
      with_key-push (key x) a xs h.0,
      from_true (key a) (key x),
      to_true (key x) (key a),
    )
