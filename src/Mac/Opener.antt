-- ===== src/Mac/Opener.antt =====
-- crates/platform-mac/src/opener.rs: the apps that were last in front. Times are in milliseconds.
-- `Detection` has theorems.
pub mod Detection
use link_pilot.Prelude.{
  ℕ, String, Bool, true, false, ◌&&◌, Option, none, some, List, [], ◌∷◌, find, if◌then◌else◌, ltb,
  eqb, ◌-◌, ◌==◌, length,
}
use link_pilot.Prelude.Int.{ℤ, pos, negsuc}
use link_pilot.Core.Platform.{OpenerApp}

abbrev pub stale_after : ℕ
stale_after = 30000

abbrev pub ring_capacity : ℕ
ring_capacity = 8

pub record RecentApp : Type 0 where
  pub seen : ℕ
  pub name : String
  pub bundle_id : Option String
  pub pid : Option ℤ

abbrev pub eq_int : ℤ → ℤ → Bool
eq_int (pos a) (pos b) = eqb a b
eq_int (negsuc a) (negsuc b) = eqb a b
eq_int _ _ = false

abbrev pub eq_option : {A : Type 0} → (A → A → Bool) → Option A → Option A → Bool
eq_option eq none none = true
eq_option eq (some a) (some b) = eq a b
eq_option eq _ _ = false

-- The ring, with its back as the head.
abbrev pub Ring : Type 0
Ring = List RecentApp

abbrev pub opener_of : Option RecentApp → Option OpenerApp
opener_of none = none
opener_of (some recent) = some (record {
  name = recent.name;
  bundle_id = recent.bundle_id;
  executable = none;
  pid = recent.pid;
})

unfoldable pub detect : ℕ → Ring → Option OpenerApp
detect now ring = opener_of (find (λ a. ltb (now - a.seen) stale_after) ring)

-- `pop_front`
unfoldable pub drop_oldest : Ring → Ring
drop_oldest [] = []
drop_oldest (a ∷ []) = []
drop_oldest (a ∷ b ∷ ring) = a ∷ drop_oldest (b ∷ ring)

unfoldable pub push_new : RecentApp → Ring → Ring
push_new app ring = app ∷ (if eqb (length ring) ring_capacity then drop_oldest ring else ring)

unfoldable pub push_unique : RecentApp → Ring → Ring
push_unique app [] = push_new app []
push_unique app (last ∷ ring) =
    if eq_option ◌==◌ last.bundle_id app.bundle_id && eq_option eq_int last.pid app.pid
    then record last { seen = app.seen } ∷ ring
    else push_new app (last ∷ ring)

abbrev pub is_self : String → Option String → Bool
is_self own none = false
is_self own (some bundle) = bundle == own

-- A turn of `poll_loop`, on the answer of `read_frontmost`.
unfoldable pub poll : (own_bundle_id : String) → Option RecentApp → Ring → Ring
poll own none ring = ring
poll own (some app) ring = if is_self own app.bundle_id then ring else push_unique app ring

-- The turns so far, the first one first.
unfoldable pub poll_loop : String → List (Option RecentApp) → Ring → Ring
poll_loop own [] ring = ring
poll_loop own (answer ∷ answers) ring = poll_loop own answers (poll own answer ring)
