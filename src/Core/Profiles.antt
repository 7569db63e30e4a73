-- ===== src/Core/Profiles.antt =====
-- crates/core/src/browser.rs: `apply_profile_order`, which orders a browser's profiles and hides those
-- that the saved order leaves out. `Orders` has its theorems.
use link_pilot.Prelude.{
  String, Bool, true, false, not, ◌&&◌, Option, none, some, List, [], ◌∷◌, if◌then◌else◌, ◌==◌,
}
use link_pilot.Prelude.Maps.{get, insert, without}
use link_pilot.Prelude.Sorting.{sort_by}
use link_pilot.Prelude.TextOrder.{le_text}
use link_pilot.Core.Browser.{BrowserProfile}
pub mod Orders

-- The profiles by their identifiers.
abbrev pub ById : Type 0
ById = List (String × BrowserProfile)

-- The default comparison: the browser's own default first, then by name.
unfoldable pub before_by_default : BrowserProfile → BrowserProfile → Bool
before_by_default a b =
    if b.is_default && not a.is_default
    then false
    else if a.is_default && not b.is_default
    then true
    else le_text a.display_name b.display_name

-- `profiles.into_iter().map(|p| (p.id.clone(), p)).collect()`, onto what was collected so far.
unfoldable pub collect : List BrowserProfile → ById → ById
collect [] by_id = by_id
collect (p ∷ profiles) by_id = collect profiles (insert ◌==◌ p.id p by_id)

-- The walk along the saved order.
unfoldable pub pull : List String → ById → List BrowserProfile
pull [] by_id = []
pull (id ∷ order) by_id =
    let rest = pull order (without ◌==◌ id by_id) in
    elim (get ◌==◌ id by_id) [ some p ↦ p ∷ rest | none ↦ rest ]

-- `None` and an empty order give the default order.
unfoldable pub apply_profile_order :
    List BrowserProfile → Option (List String) → List BrowserProfile
apply_profile_order profiles (some (id ∷ order)) = pull (id ∷ order) (collect profiles [])
apply_profile_order profiles _ = sort_by before_by_default profiles
