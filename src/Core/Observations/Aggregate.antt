-- ===== src/Core/Observations/Aggregate.antt =====
-- crates/core/src/observations.rs: `aggregate`.
use link_pilot.Prelude.{
  ℕ, String, Bool, true, false, Option, none, some, List, [], ◌∷◌, any, is_empty, ◌+◌, ◌%◌, ◌^◌,
  ltb, eqb, if◌then◌else◌, unwrap_or, ◌==◌,
}
use link_pilot.Prelude.Maps.{get, insert}
use link_pilot.Prelude.Sorting.{sort_by}
use link_pilot.Core.Observations.Entries.{
  Observation, Suggestion, Key, min_observations, key_eq, key_of,
}

pub data Ordering : Type 0 where
  less equal greater : Ordering

-- `Ordering::then`
abbrev pub then_with : Ordering → Ordering → Ordering
then_with equal o = o
then_with o p = o

abbrev pub cmp : ℕ → ℕ → Ordering
cmp a b = if ltb a b then less else if eqb a b then equal else greater

abbrev pub not_greater : Ordering → Bool
not_greater greater = false
not_greater _ = true

-- `f32`: the quotient of two counts, the comparisons, and `MIN_CONFIDENCE`.
pub record Floats (F : Type 0) : Type 0 where
  pub ratio : ℕ → ℕ → F
  pub lt : F → F → Bool
  pub partial_cmp : F → F → Option Ordering
  pub min_confidence : F

abbrev pub Picks : Type 0
Picks = List (Key × (ℕ × ℕ))

abbrev pub Totals : Type 0
Totals = List (String × ℕ)

abbrev pub max : ℕ → ℕ → ℕ
max a b = if ltb b a then a else b

-- One observation counted among the picks: `u32` counts wrap.
unfoldable pub add_pick : Observation → Picks → Picks
add_pick o picks =
    let entry = unwrap_or (get key_eq (key_of o) picks) (0, 0) in
    insert key_eq (key_of o) ((entry.0 + 1) % 2 ^ 32, max entry.1 o.timestamp_ms) picks

unfoldable pub add_total : Observation → Totals → Totals
add_total o totals = insert ◌==◌ o.host ((unwrap_or (get ◌==◌ o.host totals) 0 + 1) % 2 ^ 32) totals

-- The loop over the observations.
unfoldable pub tally : List Observation → Picks → Totals → Picks × Totals
tally [] picks totals = (picks, totals)
tally (o ∷ os) picks totals = tally os (add_pick o picks) (add_total o totals)

module _ {F : Type 0} (floats : Floats F) where
  -- The closure of `filter_map`.
  unfoldable pub suggest : Totals → List Key → Key × (ℕ × ℕ) → Option (Suggestion F)
  suggest totals dismissed (key, (count, last)) =
      let total = unwrap_or (get ◌==◌ key.host totals) 0 in
      let confidence = floats.ratio count total in
      if ltb count min_observations
      then none
      else if eqb total 0
      then none
      else if floats.lt confidence floats.min_confidence
      then none
      else if any (key_eq key) dismissed
      then none
      else some (record {
        host = key.host;
        browser_id = key.browser_id;
        profile_id = key.profile_id;
        observation_count = count;
        confidence = confidence;
        last_observed_ms = last;
      })

  unfoldable pub suggest_all : Totals → List Key → Picks → List (Suggestion F)
  suggest_all totals dismissed [] = []
  suggest_all totals dismissed (entry ∷ picks) =
      let rest = suggest_all totals dismissed picks in
      elim (suggest totals dismissed entry) [ none ↦ rest | some s ↦ s ∷ rest ]

  unfoldable pub before_by_confidence : Suggestion F → Suggestion F → Bool
  before_by_confidence a b = not_greater (
      then_with (unwrap_or (floats.partial_cmp b.confidence a.confidence) equal) (
        then_with (cmp b.observation_count a.observation_count)
          (cmp b.last_observed_ms a.last_observed_ms)))

  -- `iterate` is the order in which the map of the picks gives its entries.
  unfoldable pub aggregate : (Picks → Picks) → List Observation → List Key → List (Suggestion F)
  aggregate iterate observations dismissed =
      if is_empty observations
      then []
      else let (picks, totals) = tally observations [] [] in
        sort_by before_by_confidence (suggest_all totals dismissed (iterate picks))
