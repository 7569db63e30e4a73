-- ===== src/Desktop/Commands/Orders.antt =====
-- The order of profiles that `set_profile_order` saves
-- (apps/desktop/src-tauri/src/commands/mod.rs), and what the picker shows by it.
use link_pilot.Prelude.{
  String, ◌≡◌, refl, ap, ◌∙◌, true, false, not, none, some, List, [], ◌∷◌, filter, any, ◌==◌,
  eq_iff, arith, if◌then◌else◌, is_empty,
}
use link_pilot.Prelude.Maps.{get, get-insert_self, get-insert_ne, get-without_self, get-without_ne}
use link_pilot.Core.Browser.{BrowserProfile}
use link_pilot.Core.Config.{ConfigDocument}
use link_pilot.Core.Profiles.{apply_profile_order, collect}
use link_pilot.Core.Profiles.Orders.{firsts, pull_lem}
use link_pilot.Desktop.Commands.Edits.{unseen, put_profile_order}
use link_pilot.Desktop.Commands.Identifiers.{text_to, text_from}

-- The texts that were not seen.
abbrev fresh : List String → List String → List String
fresh seen = filter (λ j. not (any (λ s. s == j) seen))

abbrev others : String → List String → List String
others id = filter (λ j. not (id == j))

fresh-cons :
    (id : String) (seen ids : List String) → fresh (id ∷ seen) ids ≡ fresh seen (others id ids)
fresh-cons id seen [] = refl
fresh-cons id seen (j ∷ ids) = ground (arith, fresh-cons id seen ids)

fresh-others :
    (id : String) (seen ids : List String)
    → any (λ s. s == id) seen ≡ true
    → fresh seen (others id ids) ≡ fresh seen ids
fresh-others id seen [] h = refl
fresh-others id seen (j ∷ ids) h = ground (arith, fresh-others id seen ids h, eq_iff id j)

unseen_lem : (seen ids : List String) → unseen seen ids ≡ fresh seen (firsts ids)
unfolding unseen
unseen_lem seen [] = refl
unseen_lem seen (id ∷ ids) = ground (
  arith,
  unseen_lem seen ids,
  unseen_lem (id ∷ seen) ids,
  fresh-cons id seen (firsts ids),
  fresh-others id seen (firsts ids),
)

fresh-nil : (ids : List String) → fresh [] ids ≡ ids
fresh-nil [] = refl
fresh-nil (id ∷ ids) = ap (λ l. id ∷ l) (fresh-nil ids)

unseen-firsts : (ids : List String) → unseen [] ids ≡ firsts ids
unseen-firsts ids = unseen_lem [] ids ∙ fresh-nil (firsts ids)

others_comm : (i j : String) (ids : List String) → others i (others j ids) ≡ others j (others i ids)
others_comm i j [] = refl
others_comm i j (k ∷ ids) = ground (arith, others_comm i j ids)

others_twice : (i : String) (ids : List String) → others i (others i ids) ≡ others i ids
others_twice i [] = refl
others_twice i (k ∷ ids) = ground (arith, others_twice i ids)

firsts-others : (i : String) (ids : List String) → firsts (others i ids) ≡ others i (firsts ids)
firsts-others i [] = refl
firsts-others i (j ∷ ids) = ground (
  arith,
  firsts-others i ids,
  others_comm i j (firsts ids),
  others_twice i (firsts ids),
  eq_iff i j,
)

firsts_twice : (ids : List String) → firsts (firsts ids) ≡ firsts ids
firsts_twice [] = refl
firsts_twice (id ∷ ids) =
    ground (arith, firsts_twice ids, firsts-others id (firsts ids), others_twice id (firsts ids))

-- What a save of an order of profiles leaves in the document.
pub record Ordered (browser : String) (ids : List String) (before after : ConfigDocument)
    : Type 0 where
  -- The picker shows for it what it would show for the list as the user gave it.
  pub shown :
      (profiles : List BrowserProfile)
      → apply_profile_order profiles (get ◌==◌ browser after.settings.profile_orders)
        ≡ apply_profile_order profiles (some ids)
  -- The saved list is the one given, each identifier once, where it stands first; no order is saved
  -- for an empty list.
  pub saved :
      get ◌==◌ browser after.settings.profile_orders
      ≡ (if is_empty ids then none else some (firsts ids))
  -- The other browsers keep their orders.
  pub others_kept :
      (other : String)
      → (browser == other) ≡ false
      → get ◌==◌ other after.settings.profile_orders ≡ get ◌==◌ other before.settings.profile_orders

apply-firsts :
    (profiles : List BrowserProfile) (ids : List String)
    → apply_profile_order profiles (some (firsts ids)) ≡ apply_profile_order profiles (some ids)
unfolding apply_profile_order
apply-firsts profiles [] = refl
apply-firsts profiles (id ∷ ids) = ground (
  arith,
  pull_lem (firsts (id ∷ ids)) (collect profiles []),
  pull_lem (id ∷ ids) (collect profiles []),
  firsts_twice (id ∷ ids),
)

-- A saved order has each profile once, where the user named it first, and the picker shows for it
-- what it shows for the list given; an empty list removes the order; other browsers keep theirs.
pub put_profile_order-Ordered :
    (browser : String) (ids : List String) (doc : ConfigDocument)
    → Ordered browser ids doc (put_profile_order browser ids doc)
unfolding put_profile_order
put_profile_order-Ordered browser [] doc =
    let gone = get-without_self ◌==◌ text_to text_from browser doc.settings.profile_orders in
    record {
      shown = λ profiles. rw gone (unfold apply_profile_order in refl);
      saved = gone;
      others_kept = λ other h.
          get-without_ne ◌==◌ text_to text_from other browser doc.settings.profile_orders h;
    }
put_profile_order-Ordered browser (id ∷ ids) doc =
    let orders = doc.settings.profile_orders in
    let order = unseen [] (id ∷ ids) in
    let there =
      get-insert_self ◌==◌ text_to text_from browser order orders
      ∙ ap (λ l. some l) (unseen-firsts (id ∷ ids)) in
    record {
      shown = λ profiles. rw there (apply-firsts profiles (id ∷ ids));
      saved = there;
      others_kept = λ other h. get-insert_ne ◌==◌ text_to text_from other browser order orders h;
    }
