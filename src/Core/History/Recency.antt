-- ===== src/Core/History/Recency.antt =====
-- The ring buffer of crates/core/src/history.rs against the list of all that was logged.
use mathlib.Core.List.{tail, reverse-append, reverse-cons, append_assoc, append-nil}
use link_pilot.Prelude.{
  ℕ, zero, suc, ◌≤◌, ◌<◌, ◌≡◌, refl, sym, ap, ◌∙◌, false, List, [], ◌∷◌, ◌++◌, reverse, take,
  length, eqb, arith, length-append, Bool-cases, inl, inr,
}
use link_pilot.Core.History.{RouteRecord, RouteHistory, with_capacity, log, recent, len}

-- Records logged one after the other.
unfoldable pub log_all : List RouteRecord → RouteHistory → RouteHistory
log_all [] h = h
log_all (r ∷ rs) h = log_all rs (log r h)

module _ {A : Type 0} where
  length-reverse : (xs : List A) → length (reverse xs) ≡ length xs
  length-reverse [] = refl
  length-reverse (x ∷ xs) =
      rw reverse-cons (omega (arith, length-append (reverse xs) (x ∷ []), length-reverse xs))

  take_all : (n : ℕ) (xs : List A) → length xs ≤ n → take n xs ≡ xs
  take_all zero [] h = refl
  take_all zero (x ∷ xs) h = absurd (omega arith)
  take_all (suc n) [] h = refl
  take_all (suc n) (x ∷ xs) h = ap (λ l. x ∷ l) (take_all n xs (omega arith))

  take-append : (n : ℕ) (xs ys : List A) → length xs ≡ n → take n (xs ++ ys) ≡ xs
  take-append zero [] ys h = refl
  take-append zero (x ∷ xs) ys h = absurd (omega arith)
  take-append (suc n) [] ys h = absurd (omega arith)
  take-append (suc n) (x ∷ xs) ys h = ap (λ l. x ∷ l) (take-append n xs ys (omega arith))

  take-take : (n m : ℕ) (xs : List A) → n ≤ m → take n (take m xs) ≡ take n xs
  take-take zero m xs h = refl
  take-take (suc n) zero xs h = absurd (omega arith)
  take-take (suc n) (suc m) [] h = refl
  take-take (suc n) (suc m) (x ∷ xs) h = ap (λ l. x ∷ l) (take-take n m xs (omega arith))

  take-append-take :
      (n m : ℕ) (xs ys : List A) → n ≤ m → take n (xs ++ take m ys) ≡ take n (xs ++ ys)
  take-append-take n m [] ys h = take-take n m ys h
  take-append-take zero m (x ∷ xs) ys h = refl
  take-append-take (suc n) m (x ∷ xs) ys h =
      ap (λ l. x ∷ l) (take-append-take n m xs ys (omega arith))

  length-take-le : (n : ℕ) (xs : List A) → length (take n xs) ≤ n
  length-take-le zero xs = omega arith
  length-take-le (suc n) [] = omega arith
  length-take-le (suc n) (x ∷ xs) = omega (arith, length-take-le n xs)

-- One more record: the newest comes first, and of the others as many stay as fit.
reverse-log :
    (r : RouteRecord) (h : RouteHistory)
    → 0 < h.capacity
    → length h.inner ≤ h.capacity
    → reverse (log r h).inner ≡ take h.capacity (r ∷ reverse h.inner)
unfolding log
reverse-log r h pos fits = elim (Bool-cases (eqb (length h.inner) h.capacity)) [
  | inl full ↦ rw full (full_case h.inner h.capacity (ground arith) pos)
  | inr room ↦ rw room (
      reverse-append h.inner (r ∷ [])
      ∙ sym (
          take_all h.capacity (r ∷ reverse h.inner)
            (omega (arith, length-reverse h.inner, lt_of_ne _ _ fits room))))
]
  where
    lt_of_ne : (a b : ℕ) → a ≤ b → eqb a b ≡ false → a < b
    lt_of_ne a b h k = ground arith

    full_case :
        (l : List RouteRecord) (c : ℕ)
        → length l ≡ c
        → 0 < c
        → reverse (tail l ++ r ∷ []) ≡ take c (r ∷ reverse l)
    full_case [] c e p = absurd (omega arith)
    full_case (x ∷ l) zero e p = absurd (omega arith)
    full_case (x ∷ l) (suc c) e p =
        reverse-append l (r ∷ [])
        ∙ ap (λ t. r ∷ t)
            (rw reverse-cons
              (sym (take-append c (reverse l) (x ∷ []) (omega (arith, length-reverse l)))))

capacity-log : (r : RouteRecord) (h : RouteHistory) → (log r h).capacity ≡ h.capacity
unfolding log
capacity-log r h = refl

length-log-le :
    (r : RouteRecord) (h : RouteHistory)
    → 0 < h.capacity
    → length h.inner ≤ h.capacity
    → length (log r h).inner ≤ h.capacity
length-log-le r h pos fits =
    let shown = reverse-log r h pos fits in
    omega (
      arith,
      length-reverse (log r h).inner,
      ap length shown,
      length-take-le h.capacity (r ∷ reverse h.inner),
    )

reverse-log_all :
    (c : ℕ) (rs : List RouteRecord) (h : RouteHistory)
    → h.capacity ≡ c
    → 0 < c
    → length h.inner ≤ c
    → reverse (log_all rs h).inner ≡ take c (reverse rs ++ reverse h.inner)
unfolding log_all
reverse-log_all c [] h same pos fits =
    sym (take_all c (reverse h.inner) (omega (arith, length-reverse h.inner)))
reverse-log_all c (r ∷ rs) h same pos fits =
    let later =
      reverse-log_all c rs (log r h) (capacity-log r h ∙ same) pos
        (omega (arith, length-log-le r h (omega arith) (omega arith))) in
    later
    ∙ ap (λ l. take c (reverse rs ++ l))
        (reverse-log r h (omega arith) (omega arith) ∙ ap (λ k. take k (r ∷ reverse h.inner)) same)
    ∙ take-append-take c c (reverse rs) (r ∷ reverse h.inner) (omega arith)
    ∙ ap (take c) (
        sym (append_assoc (reverse rs) (r ∷ []) (reverse h.inner))
        ∙ ap (λ l. l ++ reverse h.inner) (sym (reverse-cons r rs)))

-- After any records are logged into an empty history of positive capacity `c`, `recent` answers
-- the newest `c` of them, newest first, cut to the limit.
pub recent-log_all :
    (c n : ℕ) (rs : List RouteRecord)
    → 0 < c
    → recent n (log_all rs (with_capacity c)) ≡ take n (take c (reverse rs))
unfolding recent
recent-log_all c n rs pos = ap (take n) (
    reverse-log_all c rs (with_capacity c) refl pos (omega arith)
    ∙ ap (take c) (append-nil (reverse rs)))

inner-log_filled :
    (r : RouteRecord) (h : RouteHistory)
    → h.capacity ≡ 0
    → 0 < length h.inner
    → (log r h).inner ≡ h.inner ++ r ∷ []
unfolding log
inner-log_filled r h zero_cap filled = ground arith

inner-log_unbounded :
    (rs : List RouteRecord) (h : RouteHistory)
    → h.capacity ≡ 0
    → 0 < length h.inner
    → (log_all rs h).inner ≡ h.inner ++ rs
unfolding log_all
inner-log_unbounded [] h zero_cap filled = sym (append-nil h.inner)
inner-log_unbounded (r ∷ rs) h zero_cap filled =
    let more = inner-log_filled r h zero_cap filled in
    inner-log_unbounded rs (log r h) (capacity-log r h ∙ zero_cap)
      (omega (arith, ap length more, length-append h.inner (r ∷ [])))
    ∙ ap (λ l. l ++ rs) more
    ∙ append_assoc h.inner (r ∷ []) rs

inner-log_all-zero_capacity : (rs : List RouteRecord) → (log_all rs (with_capacity 0)).inner ≡ rs
unfolding log_all log
inner-log_all-zero_capacity [] = refl
inner-log_all-zero_capacity (r ∷ rs) =
    inner-log_unbounded rs (log r (with_capacity 0)) refl (omega arith)

-- A history of capacity 0 keeps every record that is logged, in its order: as many stand in it, and
-- `recent` answers the newest of all of them, newest first, cut to the limit.
pub recent-log_all-zero_capacity :
    (n : ℕ) (rs : List RouteRecord)
    → (recent n (log_all rs (with_capacity 0)) ≡ take n (reverse rs))
      × (len (log_all rs (with_capacity 0)) ≡ length rs)
unfolding recent len
recent-log_all-zero_capacity n rs =
    let kept = inner-log_all-zero_capacity rs in (ap (λ l. take n (reverse l)) kept, ap length kept)
