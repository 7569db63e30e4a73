-- ===== src/Core/Store/Migration.antt =====
-- The migration of `priority` (`parse_with_priority_migration` of crates/core/src/config/store.rs):
-- the order of the rules after it, and that it runs once.
use mathlib.Core.Option
use mathlib.Core.List.{Perm}
use link_pilot.Prelude.{
  String, ◌≡◌, ◌≢◌, inl, inr, refl, sym, ap, ◌∙◌, Bool, true, false, none, some, List, [], ◌∷◌, map,
  any, filter, Bool-cases, Option-cases, is_some, All,
}
use link_pilot.Prelude.Int.{le_int, le_int_total, le_int_trans}
use link_pilot.Prelude.Sorting.{sort_by, sort_by-perm, filter-sort_by, IsSorted, sort_by-IsSorted}
use link_pilot.Core.Store.Documents.{
  SerdeJson, priority_of, has_priority, before_by_priority, migrate_rules, migrate,
}

module _ {Value : Type 0} (json : SerdeJson Value) where
  -- A text order on rules: the priority does not go up.
  abbrev Falls : List Value → Type 0
  Falls [] = Unit {0}
  Falls (r ∷ rs) = All (λ s. le_int (priority_of json s) (priority_of json r) ≡ true) rs × Falls rs

  -- `after` is `before` in the order of falling priority, rules of the same priority in the order
  -- that they had, each without its member `priority`.
  pub record Migrated (before after : List Value) : Type 0 where
    pub ordered : List Value
    pub same_rules : Perm ordered before
    pub falls : Falls ordered
    pub stable :
        (p : Value → Bool)
        → ((a b : Value)
            → p a ≡ true
            → p b ≡ true
            → le_int (priority_of json b) (priority_of json a) ≡ true)
        → filter p ordered ≡ filter p before
    pub stripped : after ≡ map (json.remove "priority") ordered

  Falls-IsSorted : (rs : List Value) → IsSorted (before_by_priority json) rs → Falls rs
  unfolding before_by_priority
  Falls-IsSorted [] h = tt
  Falls-IsSorted (r ∷ rs) h = (h.0, Falls-IsSorted rs h.1)

  total : (a b : Value) → before_by_priority json a b ≡ false → before_by_priority json b a ≡ true
  unfolding before_by_priority
  total a b h = le_int_total (priority_of json b) (priority_of json a) h

  transitive :
      (a b c : Value)
      → before_by_priority json a b ≡ true
      → before_by_priority json b c ≡ true
      → before_by_priority json a c ≡ true
  unfolding before_by_priority
  transitive a b c h k =
      le_int_trans (priority_of json c) (priority_of json b) (priority_of json a) k h

  -- The migrated rules are those of the file in the order of falling priority, rules of the same
  -- priority in the order that they had, each without its member `priority`.
  pub migrate_rules-Migrated : (rules : List Value) → Migrated rules (migrate_rules json rules)
  unfolding migrate_rules before_by_priority
  migrate_rules-Migrated rules = record {
    ordered = sort_by (before_by_priority json) rules;
    same_rules = sort_by-perm (before_by_priority json) rules;
    falls =
        Falls-IsSorted (sort_by (before_by_priority json) rules)
          (sort_by-IsSorted (before_by_priority json) total transitive rules);
    stable = λ p same. filter-sort_by (before_by_priority json) p same rules;
    stripped = refl;
  }

  -- What the migration relies on of objects: a removed member is gone, and a member that was there
  -- reads back as it was set.
  pub record Objects : Type 0 where
    pub get-remove : (k : String) (v : Value) → json.get k (json.remove k v) ≡ none
    pub get-set_member :
        (k : String) (x v : Value)
        → is_some (json.get k v) ≡ true
        → json.get k (json.set_member k x v) ≡ some x
    pub as_array-of_array : (xs : List Value) → json.as_array (json.of_array xs) ≡ some xs

  none_has :
      (objects : Objects) (rs : List Value)
      → any (has_priority json) (map (json.remove "priority") rs) ≡ false
  unfolding has_priority
  none_has objects [] = refl
  none_has objects (r ∷ rs) = rw (objects.get-remove "priority" r) (none_has objects rs)

  module _ (value : Value) where
    -- A document without rules, or whose rules have no priority, is left alone.
    migrate_left :
        ((rules : List Value)
          → Option.bind (json.get "rules" value) json.as_array ≡ some rules
          → any (has_priority json) rules ≡ false)
        → migrate json value ≡ (value, false)
    unfolding migrate
    migrate_left h = elim (Option-cases (Option.bind (json.get "rules" value) json.as_array)) [
      | inl e ↦ rw (e, migrate) refl
      | inr (rules, e) ↦ rw (e, migrate) (rw (h rules e) refl)
    ]

    migrate_done :
        (rules : List Value)
        → Option.bind (json.get "rules" value) json.as_array ≡ some rules
        → any (has_priority json) rules ≡ true
        → migrate json value
          ≡ (json.set_member "rules" (json.of_array (migrate_rules json rules)) value, true)
    unfolding migrate
    migrate_done rules e h = rw (e, migrate) (rw h refl)

  module _ (objects : Objects) (value : Value) where
    none≢some : {x : List Value} → none ≢ some x
    none≢some h = cc

    same : {y : List Value} (x : List Value) → some x ≡ some y → x ≡ y
    same x h = cc

    rules_after :
        (rules new : List Value)
        → Option.bind (json.get "rules" value) json.as_array ≡ some rules
        → Option.bind
            (json.get "rules" (json.set_member "rules" (json.of_array new) value))
            json.as_array
          ≡ some new
    unfolding Option.bind
    rules_after rules new e = elim (Option-cases (json.get "rules" value)) [
      | inl none_there ↦
          absurd (none≢some (sym (ap (λ o. Option.bind o json.as_array) none_there) ∙ e))
      | inr (v, there) ↦
          ap (λ o. Option.bind o json.as_array)
            (objects.get-set_member "rules" (json.of_array new) value (ap is_some there))
          ∙ objects.as_array-of_array new
    ]

    -- A migrated document is not migrated again.
    pub migrate_twice : migrate json (migrate json value).0 ≡ ((migrate json value).0, false)
    unfolding migrate_rules
    migrate_twice = elim (Option-cases (Option.bind (json.get "rules" value) json.as_array)) [
      | inl e ↦
          let left : migrate json value ≡ (value, false) = migrate_left value (λ rules k. cc) in
          rw left left
      | inr (rules, e) ↦ elim (Bool-cases (any (has_priority json) rules)) [
        | inr h ↦
            let left : migrate json value ≡ (value, false) = migrate_left value (λ rules k. cc) in
            rw left left
        | inl h ↦ rw (migrate_done value rules e h) (
            migrate_left _ (λ again k.
              ap (any (has_priority json))
                (same again (sym k ∙ rules_after rules (migrate_rules json rules) e))
              ∙ none_has objects (sort_by (before_by_priority json) rules)))
      ]
    ]
