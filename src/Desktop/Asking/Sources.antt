-- ===== src/Desktop/Asking/Sources.antt =====
-- What is in the offer of an ask, and how its targets are found again (apps/desktop/src-tauri/src/dispatch.rs).
use mathlib.Core.List.{Memᴰ}
use link_pilot.Prelude.{
  String, ◌≡◌, ◌≢◌, refl, ap, sym, ◌∙◌, subst, ◌⊎◌, inl, inr, Bool, true, false, not, some, List,
  [], ◌∷◌, filter, All, All-weaken, is_empty, ◌==◌, eq_iff, arith, Bool-cases,
}
use link_pilot.Prelude.Maps.{get, insert, get-insert_ne}
use link_pilot.Core.Browser.{BrowserTarget}
use link_pilot.Desktop.Asking.Offers.{ask_source, hidden, targets_by_id, target_for}

mem-cases : {A : Type 0} (a x : A) (xs : List A) → Memᴰ a (x ∷ xs) → (a ≡ x) ⊎ Memᴰ a xs
mem-cases a x xs (Memᴰ.head e) = inl e
mem-cases a x xs (Memᴰ.tail there) = inr there

module _ {A : Type 0} (p : A → Bool) where
  mem-filter : (a : A) (xs : List A) → Memᴰ a (filter p xs) → Memᴰ a xs × (p a ≡ true)
  mem-filter a [] m = elim m [ ]
  mem-filter a (x ∷ xs) m = elim (Bool-cases (p x)) [
    | inl keep ↦
        let kept : filter p (x ∷ xs) ≡ x ∷ filter p xs = rw keep in
        elim (mem-cases a x (filter p xs) (subst (λ l. Memᴰ a l) kept m)) [
          | inl e ↦ (Memᴰ.head e, ap p e ∙ keep)
          | inr there ↦ (Memᴰ.tail (mem-filter a xs there).0, (mem-filter a xs there).1)
        ]
    | inr drop ↦
        let dropped : filter p (x ∷ xs) ≡ filter p xs = rw drop in
        let there = mem-filter a xs (subst (λ l. Memᴰ a l) dropped m) in
        (Memᴰ.tail there.0, there.1)
  ]

  All-filter_empty : (xs : List A) → is_empty (filter p xs) ≡ true → All (λ x. p x ≡ false) xs
  All-filter_empty [] h = tt
  All-filter_empty (x ∷ xs) h = ground (arith, All-filter_empty xs)

text_to : (j k : String) → j ≡ k → j == k ≡ true
text_to j k h = (eq_iff j k).1 h

text_from : (j k : String) → j == k ≡ true → j ≡ k
text_from j k h = (eq_iff j k).0 h

same_entry :
    (s t : BrowserTarget) (id : String) (by_id : List (String × BrowserTarget))
    → s.browser == id ≡ true
    → get ◌==◌ id (insert ◌==◌ s.browser s by_id) ≡ some t
    → s ≡ t
unfolding get insert
same_entry s t id by_id same h = ground arith

inserted :
    (s : BrowserTarget) (id : String) (by_id : List (String × BrowserTarget))
    → s.browser == id ≡ true
    → get ◌==◌ id (insert ◌==◌ s.browser s by_id) ≡ some s
unfolding get insert
inserted s id by_id same = rw same

-- An entry of the map is the one that was there, or a target of the list.
get-targets_by_id :
    (id : String) (source : List BrowserTarget) (by_id : List (String × BrowserTarget))
    (t : BrowserTarget)
    → get ◌==◌ id (targets_by_id source by_id) ≡ some t
    → (Memᴰ t source × (t.browser ≡ id)) ⊎ (get ◌==◌ id by_id ≡ some t)
unfolding targets_by_id
get-targets_by_id id [] by_id t h = inr h
get-targets_by_id id (s ∷ source) by_id t h =
    elim (get-targets_by_id id source (insert ◌==◌ s.browser s by_id) t h) [
      | inl (there, e) ↦ inl (Memᴰ.tail there, e)
      | inr old ↦ elim (Bool-cases (s.browser == id)) [
        | inl same ↦
            let found : s ≡ t = same_entry s t id by_id same old in
            inl
              (Memᴰ.head (sym found), ap (λ x. x.browser) (sym found) ∙ text_from s.browser id same)
        | inr other ↦
            inr (sym (get-insert_ne ◌==◌ text_to text_from id s.browser s by_id other) ∙ old)
      ]
    ]

-- A target of the list is found under its browser.
targets_by_id-keeps :
    (id : String) (source : List BrowserTarget) (by_id : List (String × BrowserTarget))
    → (t : BrowserTarget) × (get ◌==◌ id by_id ≡ some t)
    → (t : BrowserTarget) × (get ◌==◌ id (targets_by_id source by_id) ≡ some t)
unfolding targets_by_id
targets_by_id-keeps id [] by_id found = found
targets_by_id-keeps id (s ∷ source) by_id (t, h) = elim (Bool-cases (s.browser == id)) [
  | inl same ↦ targets_by_id-keeps id source _ (s, inserted s id by_id same)
  | inr other ↦
      targets_by_id-keeps id source _
        (t, get-insert_ne ◌==◌ text_to text_from id s.browser s by_id other ∙ h)
]

pub target_for-mem :
    (t : BrowserTarget) (source : List BrowserTarget) (by_id : List (String × BrowserTarget))
    → Memᴰ t source
    → (s : BrowserTarget) × (get ◌==◌ t.browser (targets_by_id source by_id) ≡ some s)
unfolding targets_by_id
target_for-mem t [] by_id m = elim m [ ]
target_for-mem t (s ∷ source) by_id m = elim (mem-cases t s source m) [
  | inl e ↦
      targets_by_id-keeps t.browser source _
        (s, inserted s t.browser by_id (text_to s.browser t.browser (ap (λ x. x.browser) (sym e))))
  | inr there ↦ target_for-mem t source _ there
]

not-eq-false : (b : Bool) → not b ≡ false → b ≡ true
not-eq-false true h = refl
not-eq-false false h = cc

nothing_yet : (id : String) {t : BrowserTarget} → get ◌==◌ id [] ≢ some t
unfolding get
nothing_yet id h = cc

pub mem-target_for :
    (id : String) (source : List BrowserTarget) (t : BrowserTarget)
    → target_for source id ≡ some t
    → Memᴰ t source × (t.browser ≡ id)
mem-target_for id source t h = elim (get-targets_by_id id source [] t h) [
  | inl found ↦ found
  | inr old ↦ absurd (nothing_yet id old)
]

not_both : (b : Bool) → not b ≡ true → b ≢ true
not_both true h k = cc
not_both false h k = cc

none_shown :
    (disabled : List String) (raw : List BrowserTarget)
    → is_empty (filter (λ s. not (hidden disabled s)) raw) ≡ true
    → All (λ s. hidden disabled s ≡ true) raw
none_shown disabled raw h =
    All-weaken (λ s. not-eq-false (hidden disabled s)) raw
      (All-filter_empty (λ s. not (hidden disabled s)) raw h)

-- What is offered is in the source, and hidden only where all of the source is.
pub mem-ask_source :
    (disabled : List String) (raw : List BrowserTarget) (t : BrowserTarget)
    → Memᴰ t (ask_source disabled raw)
    → Memᴰ t raw × (hidden disabled t ≡ true → All (λ s. hidden disabled s ≡ true) raw)
unfolding ask_source
mem-ask_source disabled raw t m =
    elim (Bool-cases (is_empty (filter (λ s. not (hidden disabled s)) raw))) [
      | inl none_left ↦
          let whole : ask_source disabled raw ≡ raw = rw none_left in
          (subst (λ l. Memᴰ t l) whole m, λ h. none_shown disabled raw none_left)
      | inr some_left ↦
          let part : ask_source disabled raw ≡ filter (λ s. not (hidden disabled s)) raw =
            rw some_left in
          let (there, shown) =
            mem-filter (λ s. not (hidden disabled s)) t raw (subst (λ l. Memᴰ t l) part m) in
          (there, λ h. absurd (not_both (hidden disabled t) shown h))
    ]
