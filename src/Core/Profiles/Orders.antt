-- ===== src/Core/Profiles/Orders.antt =====
-- What `apply_profile_order` (crates/core/src/browser.rs) shows.
use mathlib.Core.List.{Perm}
use mathlib.Core.Bool.{false≢true}
use link_pilot.Prelude.{
  String, ◌≡◌, refl, ◌∙◌, true, false, not, Option, none, some, List, [], ◌∷◌, filter, arith,
  if◌then◌else◌, ◌==◌, eq_iff, is_empty,
}
use link_pilot.Prelude.Maps.{
  get, insert, without, get-without_self, get-without_ne, get-insert_self, get-insert_ne,
}
use link_pilot.Prelude.Sorting.{sort_by, sort_by-perm, IsSorted, sort_by-IsSorted}
use link_pilot.Prelude.TextOrder.{le_text_total, le_text_trans}
use link_pilot.Core.Browser.{BrowserProfile}
use link_pilot.Core.Profiles.{ById, before_by_default, collect, pull, apply_profile_order}

-- The last profile with the identifier.
abbrev pub last_with : String → List BrowserProfile → Option BrowserProfile
last_with id [] = none
last_with id (p ∷ ps) = elim (last_with id ps) [
  | some q ↦ some q
  | none ↦ if p.id == id then some p else none
]

-- The list without the repetitions, each identifier where it stands first.
abbrev pub firsts : List String → List String
firsts [] = []
firsts (id ∷ ids) = id ∷ filter (λ j. not (id == j)) (firsts ids)

-- The values of those where there is one.
abbrev pub gather : (String → Option BrowserProfile) → List String → List BrowserProfile
gather f [] = []
gather f (id ∷ ids) = elim (f id) [ some p ↦ p ∷ gather f ids | none ↦ gather f ids ]

to_true : (j k : String) → j ≡ k → (j == k) ≡ true
to_true j k = (eq_iff j k).1

from_true : (j k : String) → (j == k) ≡ true → j ≡ k
from_true j k = (eq_iff j k).0

gather_ext :
    (f g : String → Option BrowserProfile) (ids : List String)
    → ((id : String) → f id ≡ g id)
    → gather f ids ≡ gather g ids
gather_ext f g [] h = refl
gather_ext f g (id ∷ ids) h = ground (arith, h id, gather_ext f g ids h)

gather-without :
    (id : String) (m : ById) (ids : List String)
    → gather (λ j. get ◌==◌ j (without ◌==◌ id m)) ids
      ≡ gather (λ j. get ◌==◌ j m) (filter (λ j. not (id == j)) ids)
gather-without id m [] = refl
gather-without id m (j ∷ ids) = ground (
  arith,
  gather-without id m ids,
  get-without_self ◌==◌ to_true from_true id m,
  get-without_ne ◌==◌ to_true from_true j id m,
  from_true id j,
)

pub pull_lem :
    (order : List String) (m : ById) → pull order m ≡ gather (λ id. get ◌==◌ id m) (firsts order)
unfolding pull
pull_lem [] m = refl
pull_lem (id ∷ order) m =
    ground (arith, pull_lem order (without ◌==◌ id m), gather-without id m (firsts order))

get-collect :
    (id : String) (ps : List BrowserProfile) (m : ById)
    → get ◌==◌ id (collect ps m) ≡ elim (last_with id ps) [ some p ↦ some p | none ↦ get ◌==◌ id m ]
unfolding collect
get-collect id [] m = refl
get-collect id (p ∷ ps) m = ground (
  arith,
  get-collect id ps (insert ◌==◌ p.id p m),
  get-insert_self ◌==◌ to_true from_true p.id p m,
  get-insert_ne ◌==◌ to_true from_true id p.id p m,
  from_true p.id id,
)

empty_else :
    (o : Option BrowserProfile) (id : String)
    → (elim o [ some p ↦ some p | none ↦ get ◌==◌ id [] ]) ≡ o
unfolding get
empty_else none id = refl
empty_else (some p) id = refl

total : (a b : BrowserProfile) → before_by_default a b ≡ false → before_by_default b a ≡ true
unfolding before_by_default
total a b h = ground (arith, le_text_total a.display_name b.display_name)

transitive :
    (a b c : BrowserProfile)
    → before_by_default a b ≡ true
    → before_by_default b c ≡ true
    → before_by_default a c ≡ true
unfolding before_by_default
transitive a b c h k = ground (arith, le_text_trans a.display_name b.display_name c.display_name)

-- With a saved order the profiles are shown in that order, each once, where a later profile of the
-- same identifier counts; those that it does not name are hidden and identifiers of no profile skipped.
pub apply_profile_order-saved :
    (profiles : List BrowserProfile) (order : List String)
    → is_empty order ≡ false
    → apply_profile_order profiles (some order)
      ≡ gather (λ id. last_with id profiles) (firsts order)
unfolding apply_profile_order
apply_profile_order-saved profiles [] h = cc
apply_profile_order-saved profiles (id ∷ order) h =
    pull_lem (id ∷ order) (collect profiles [])
    ∙ gather_ext (λ j. get ◌==◌ j (collect profiles [])) (λ j. last_with j profiles)
        (firsts (id ∷ order)) (λ j. get-collect j profiles [] ∙ empty_else (last_with j profiles) j)

default_order :
    (profiles : List BrowserProfile)
    → Perm (sort_by before_by_default profiles) profiles
      × IsSorted before_by_default (sort_by before_by_default profiles)
default_order profiles = (
  sort_by-perm before_by_default profiles,
  sort_by-IsSorted before_by_default total transitive profiles,
)

-- Without one all are shown, the default profile first and then by name.
pub apply_profile_order-default :
    (profiles : List BrowserProfile) (order : Option (List String))
    → ((ids : List String) → order ≡ some ids → is_empty ids ≡ true)
    → Perm (apply_profile_order profiles order) profiles
      × IsSorted before_by_default (apply_profile_order profiles order)
unfolding apply_profile_order
apply_profile_order-default profiles none h = default_order profiles
apply_profile_order-default profiles (some []) h = default_order profiles
apply_profile_order-default profiles (some (id ∷ ids)) h = absurd (false≢true (h (id ∷ ids) refl))
