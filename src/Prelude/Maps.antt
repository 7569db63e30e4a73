-- ===== src/Prelude/Maps.antt =====
-- `HashMap`, as the list of its entries; of entries with the same key the first counts. The order of
-- iteration is not part of it.
use mathlib.Core.Path.{◌≡◌, ◌∙◌, ap, sym, refl, subst}
use mathlib.Core.Logic.{inl, inr, ◌≢◌}
use mathlib.Core.List.{Memᴰ}
use mathlib.Core.Bool.{Bool, true, false}
use mathlib.Core.Option.{Option, none, some}
use mathlib.Core.List.{List, [], ◌∷◌}
use native.Mathlib.Omega.{arith}
use link_pilot.Prelude.Tests.{if◌then◌else◌, Bool-cases}

module _ {ℓ κ} {K : Type ℓ} {V : Type κ} (eq : K → K → Bool) where
  unfoldable pub get : K → List (K × V) → Option V
  get k [] = none
  get k ((j, v) ∷ m) = let rest = get k m in if eq j k then some v else rest

  -- What `remove` leaves.
  unfoldable pub without : K → List (K × V) → List (K × V)
  without k [] = []
  without k ((j, v) ∷ m) = let rest = without k m in if eq j k then rest else (j, v) ∷ rest

  unfoldable pub insert : K → V → List (K × V) → List (K × V)
  insert k v m = (k, v) ∷ without k m

  module _ (to_true : (j k : K) → j ≡ k → eq j k ≡ true)
      (from_true : (j k : K) → eq j k ≡ true → j ≡ k) where
    pub get-without_self : (k : K) (m : List (K × V)) → get k (without k m) ≡ none
    unfolding get without
    get-without_self k [] = refl
    get-without_self k ((j, v) ∷ m) = ground (arith, get-without_self k m)

    pub get-without_ne :
        (j k : K) (m : List (K × V)) → eq k j ≡ false → get j (without k m) ≡ get j m
    unfolding get without
    get-without_ne j k [] h = refl
    get-without_ne j k ((i, v) ∷ m) h =
        ground (arith, get-without_ne j k m h, from_true i k, from_true i j, to_true k j)

    pub get-insert_self : (k : K) (v : V) (m : List (K × V)) → get k (insert k v m) ≡ some v
    unfolding get insert
    get-insert_self k v m = ground (arith, to_true k k)

    pub get-insert_ne :
        (j k : K) (v : V) (m : List (K × V)) → eq k j ≡ false → get j (insert k v m) ≡ get j m
    unfolding get insert
    get-insert_ne j k v m h = ground (arith, get-without_ne j k m)

    -- No key stands twice.
    abbrev pub Uniq : List (K × V) → Type κ
    Uniq [] = Unit
    Uniq ((k, v) ∷ m) = (get k m ≡ none) × Uniq m

    absent-without : (j k : K) (m : List (K × V)) → get j m ≡ none → get j (without k m) ≡ none
    absent-without j k m h = elim (Bool-cases (eq k j)) [
      | inl e ↦ subst (λ i. get i (without k m) ≡ none) (from_true k j e) (get-without_self k m)
      | inr e ↦ get-without_ne j k m e ∙ h
    ]

    pub Uniq-without : (k : K) (m : List (K × V)) → Uniq m → Uniq (without k m)
    unfolding without
    Uniq-without k [] h = tt
    Uniq-without k ((j, v) ∷ m) h = ground (arith, Uniq-without k m, absent-without j k m)

    pub Uniq-insert : (k : K) (v : V) (m : List (K × V)) → Uniq m → Uniq (insert k v m)
    unfolding insert
    Uniq-insert k v m h = (get-without_self k m, Uniq-without k m h)

    none≢some : {v : V} → none ≢ some v
    none≢some h = cc

    -- An entry that is found is there.
    pub mem-get : (k : K) (v : V) (m : List (K × V)) → get k m ≡ some v → Memᴰ (k, v) m
    unfolding get
    mem-get k v [] h = absurd (none≢some h)
    mem-get k v ((j, w) ∷ m) h = elim (Bool-cases (eq j k)) [
      | inl e ↦
          let same : w ≡ v = ground arith in Memᴰ.head (λ i. (sym (from_true j k e) i, sym same i))
      | inr e ↦ Memᴰ.tail (mem-get k v m (ground arith))
    ]

    -- An entry that is there is found, where no key stands twice.
    pub get-mem : (k : K) (v : V) (m : List (K × V)) → Uniq m → Memᴰ (k, v) m → get k m ≡ some v
    unfolding get
    get-mem k v [] h there = elim there [ ]
    get-mem k v ((j, w) ∷ m) h (Memᴰ.head e) =
        let key : k ≡ j = ap (λ p. p.0) e in
        let value : v ≡ w = ap (λ p. p.1) e in ground (arith, to_true j k)
    get-mem k v ((j, w) ∷ m) h (Memᴰ.tail there) = elim (Bool-cases (eq j k)) [
      | inl e ↦
          absurd
            (none≢some (sym (h.0) ∙ ap (λ i. get i m) (from_true j k e) ∙ get-mem k v m h.1 there))
      | inr e ↦ rw (e, get) (get-mem k v m h.1 there)
    ]
