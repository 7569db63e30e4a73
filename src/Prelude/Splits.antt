-- ===== src/Prelude/Splits.antt =====
-- Where a text stands in another: `str::find`, with what is in front of it and behind it.
use Prim.Native.String.{String, [], ◌∷◌, count}
use Prim.Native.Nat.{◌<◌}
use native.Mathlib.Omega.{arith}
use Prim.Native.Char.{Char}
use mathlib.Core.Path.{◌≡◌, refl, ap, sym, ◌∙◌}
use mathlib.Core.Option.{Option, none, some}
use mathlib.Core.Logic.{◌≢◌, inl, inr}
use text.Mathlib.TextLemmas.{nil-append, cons-append, append_assoc, length-append}
use link_pilot.Prelude.Tests.{Option-cases}
use link_pilot.Prelude.Texts.{◌⧺◌, strip_prefix, strip_prefix-eq-some, strip_prefix-append}

abbrev pub push_pair : Char → Option (String × String) → Option (String × String)
push_pair c none = none
push_pair c (some (before, behind)) = some (c ∷ before, behind)

-- The first place of a text in another, as what is in front of it and behind it.
unfoldable pub cut_at : String → String → Option (String × String)
cut_at [] p = elim (strip_prefix "" p) [ some behind ↦ some ("", behind) | none ↦ none ]
cut_at (c ∷ s) p =
    let later = cut_at s p in
    elim (strip_prefix (c ∷ s) p) [ some behind ↦ some ("", behind) | none ↦ push_pair c later ]

pub push_pair-some :
    (c : Char) (o : Option (String × String)) (a b : String)
    → push_pair c o ≡ some (a, b)
    → (a' : String) × (o ≡ some (a', b)) × (a ≡ c ∷ a')
push_pair-some c none a b h = cc
push_pair-some c (some (a', b')) a b h = (a', cc, cc)

pub cut_at-some : (s p a b : String) → cut_at s p ≡ some (a, b) → s ≡ a ⧺ (p ⧺ b)
unfolding cut_at
cut_at-some [] p a b h = elim (Option-cases (strip_prefix "" p)) [
  | inl missing ↦ cc (rw (missing, cut_at) at h)
  | inr (behind, found) ↦
      let here : some ("", behind) ≡ some (a, b) = rw (found, cut_at) at h in
      cc (strip_prefix-eq-some "" p found, nil-append (p ⧺ b))
]
cut_at-some (c ∷ s) p a b h = elim (Option-cases (strip_prefix (c ∷ s) p)) [
  | inl missing ↦
      let (a', found, made) = push_pair-some c (cut_at s p) a b (rw (missing, cut_at) at h) in
      cc (cut_at-some s p a' b found, cons-append c a' (p ⧺ b))
  | inr (behind, found) ↦
      let here : some ("", behind) ≡ some (a, b) = rw (found, cut_at) at h in
      cc (strip_prefix-eq-some (c ∷ s) p found, nil-append (p ⧺ b))
]

cut_at-prefix : (s p r : String) → strip_prefix s p ≡ some r → cut_at s p ≡ some ("", r)
unfolding cut_at
cut_at-prefix [] p r h = rw (h, cut_at) refl
cut_at-prefix (c ∷ s) p r h = rw (h, cut_at) refl

push_pair-none : (c : Char) (o : Option (String × String)) → push_pair c o ≡ none → o ≡ none
push_pair-none c none h = refl
push_pair-none c (some (a, b)) h = cc

-- The text does not stand in the other.
abbrev pub Lacks : String → String → Type 0
Lacks p s = (a b : String) → s ≢ a ⧺ (p ⧺ b)

head_inj : (c d : Char) (s t : String) → c ∷ s ≡ d ∷ t → (c ≡ d) × (s ≡ t)
head_inj c d s t h = (cc, cc)

empty-lacks : (p x y : String) → 0 < count p → "" ≢ x ⧺ (p ⧺ y)
empty-lacks p x y some_p h =
    absurd (omega (arith, ap count h, length-append x (p ⧺ y), length-append p y))

-- In what is in front of the first place, the text does not stand.
pub cut_at-first : (s p a b x y : String) → 0 < count p → cut_at s p ≡ some (a, b) → a ≢ x ⧺ (p ⧺ y)
unfolding cut_at
cut_at-first [] p a b x y some_p h e = elim (Option-cases (strip_prefix "" p)) [
  | inl missing ↦ cc (rw (missing, cut_at) at h)
  | inr (behind, found) ↦
      let here : some ("", behind) ≡ some (a, b) = rw (found, cut_at) at h in
      let none_in : "" ≡ a = cc in empty-lacks p x y some_p (none_in ∙ e)
]
cut_at-first (c ∷ s) p a b x y some_p h e = elim (Option-cases (strip_prefix (c ∷ s) p)) [
  | inr (behind, found) ↦
      let here : some ("", behind) ≡ some (a, b) = rw (found, cut_at) at h in
      let none_in : "" ≡ a = cc in empty-lacks p x y some_p (none_in ∙ e)
  | inl missing ↦
      let (a', found, made) = push_pair-some c (cut_at s p) a b (rw (missing, cut_at) at h) in
      later_lem c s p a' b x y some_p missing (cut_at-some s p a' b found)
        (λ x' e'. cut_at-first s p a' b x' y some_p found e') (sym made ∙ e)
]
  where
    later_lem :
        (c : Char) (s p a' b x y : String)
        → 0 < count p
        → strip_prefix (c ∷ s) p ≡ none
        → s ≡ a' ⧺ (p ⧺ b)
        → ((x' : String) → a' ≢ x' ⧺ (p ⧺ y))
        → c ∷ a' ≢ x ⧺ (p ⧺ y)
    later_lem c s p a' b [] y some_p missing whole rest e =
        let starts : c ∷ s ≡ p ⧺ (y ⧺ (p ⧺ b)) =
          ap (λ t. c ∷ t) whole
          ∙ sym (cons-append c a' (p ⧺ b))
          ∙ ap (λ t. t ⧺ (p ⧺ b)) (e ∙ nil-append (p ⧺ y))
          ∙ append_assoc p y (p ⧺ b) in
        let here : strip_prefix (c ∷ s) p ≡ some (y ⧺ (p ⧺ b)) =
          ap (λ t. strip_prefix t p) starts ∙ strip_prefix-append p (y ⧺ (p ⧺ b)) in
        cc
    later_lem c s p a' b (c' ∷ x') y some_p missing whole rest e =
        rest x' ((head_inj c c' a' (x' ⧺ (p ⧺ y)) (rw cons-append at e)).1)

not_none : {o : Option (String × String)} {x : String × String} → o ≡ some x → o ≢ none
not_none e h = cc

cut_at-later : (c : Char) (s p : String) → cut_at s p ≢ none → cut_at (c ∷ s) p ≢ none
unfolding cut_at
cut_at-later c s p later h = elim (Option-cases (strip_prefix (c ∷ s) p)) [
  | inl missing ↦ later (push_pair-none c (cut_at s p) (rw (missing, cut_at) at h))
  | inr (r, found) ↦ not_none (cut_at-prefix (c ∷ s) p r found) h
]

cut_at-found : (a p b : String) → cut_at (a ⧺ (p ⧺ b)) p ≢ none
cut_at-found [] p b = rw nil-append (not_none (cut_at-prefix (p ⧺ b) p b (strip_prefix-append p b)))
cut_at-found (c ∷ a) p b = rw cons-append (cut_at-later c (a ⧺ (p ⧺ b)) p (cut_at-found a p b))

pub cut_at-Lacks : (s p : String) → cut_at s p ≡ none → Lacks p s
cut_at-Lacks s p h a b e = cut_at-found a p b (rw e at h)
