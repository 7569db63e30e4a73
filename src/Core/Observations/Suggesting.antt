-- ===== src/Core/Observations/Suggesting.antt =====
-- What `aggregate` (crates/core/src/observations.rs) suggests.
use mathlib.Core.List.{Mem, Memᴰ, Perm}
use mathlib.Core.List.Perm
use mathlib.Core.List.Memᴰ
use mathlib.Core.Logic.{∥∥₁_prop, ∥∥₁_map, ∥∥₁_elim, ◌≢◌}
use mathlib.Core.List.{Mem-prop, not-mem-nil, mem-cons_self}
use link_pilot.Prelude.{
  ℕ, ◌≡◌, ◌↔◌, refl, sym, ap, ◌∙◌, subst, true, false, Option, none, some, List, [], ◌∷◌, any,
  length, is_empty, arith, ◌<◌, ◌^◌, if◌then◌else◌, unwrap_or, ◌==◌, ltb, eqb, inl, inr, Bool-cases,
  Option-cases,
}
use link_pilot.Prelude.Maps.{get, mem-get, get-mem}
use link_pilot.Prelude.Sorting.{sort_by-perm}
use link_pilot.Core.Observations.Entries.{Observation, Suggestion, Key, min_observations, key_eq}
use link_pilot.Core.Observations.Aggregate.{
  Floats, Picks, Totals, tally, suggest, suggest_all, before_by_confidence, aggregate,
}
use link_pilot.Core.Observations.Counts.{
  count_of, latest, total_of, get-picks, get-totals, Uniq-tally, count_of-total_of, total_of-length,
  key_to_true, key_from_true,
}

perm_nil : (m : Picks) → Perm m [] → m ≡ []
perm_nil [] h = refl
perm_nil (e ∷ m) h = absurd (not-mem-nil ((Perm.mem_iff h).0 (mem-cons_self {a = e} {l = m})))

no_observations : (os : List Observation) → is_empty os ≡ true → os ≡ []
no_observations [] h = refl
no_observations (o ∷ os) h = cc

module _ {F : Type 0} (floats : Floats F) where
  module _ (totals : Totals) (dismissed : List Key) where
    skip :
        (e : Key × (ℕ × ℕ)) (picks : Picks)
        → suggest floats totals dismissed e ≡ none
        → suggest_all floats totals dismissed (e ∷ picks)
          ≡ suggest_all floats totals dismissed picks
    unfolding suggest_all
    skip e picks h = rw (h, suggest_all) refl

    keep :
        (e : Key × (ℕ × ℕ)) (picks : Picks) (t : Suggestion F)
        → suggest floats totals dismissed e ≡ some t
        → suggest_all floats totals dismissed (e ∷ picks)
          ≡ t ∷ suggest_all floats totals dismissed picks
    unfolding suggest_all
    keep e picks t h = rw (h, suggest_all) refl

    mem-suggest_all :
        (s : Suggestion F) (picks : Picks)
        → Memᴰ s (suggest_all floats totals dismissed picks)
        → (e : Key × (ℕ × ℕ)) × Memᴰ e picks × (suggest floats totals dismissed e ≡ some s)
    unfolding suggest_all
    mem-suggest_all s [] there = elim there [ ]
    mem-suggest_all s (e ∷ picks) there = elim (Option-cases (suggest floats totals dismissed e)) [
      | inl left ↦
          let (d, found, made) =
            mem-suggest_all s picks (subst (Memᴰ s) (skip e picks left) there) in
          (d, Memᴰ.tail found, made)
      | inr (t, made) ↦ elim (Memᴰ.cases_cons (subst (Memᴰ s) (keep e picks t made) there)) [
        | inl same ↦ (e, Memᴰ.head refl, made ∙ ap some (sym same))
        | inr later ↦
            let (d, found, made') = mem-suggest_all s picks later in (d, Memᴰ.tail found, made')
      ]
    ]

    suggest_all-mem :
        (s : Suggestion F) (e : Key × (ℕ × ℕ)) (picks : Picks)
        → Memᴰ e picks
        → suggest floats totals dismissed e ≡ some s
        → Memᴰ s (suggest_all floats totals dismissed picks)
    unfolding suggest_all
    suggest_all-mem s e [] there h = elim there [ ]
    suggest_all-mem s e (d ∷ picks) (Memᴰ.head same) h =
        let made : suggest floats totals dismissed d ≡ some s =
          ap (suggest floats totals dismissed) (sym same) ∙ h in
        rw (made, suggest_all) (Memᴰ.head refl)
    suggest_all-mem s e (d ∷ picks) (Memᴰ.tail there) h =
        let rest = suggest_all-mem s e picks there h in
        elim (Option-cases (suggest floats totals dismissed d)) [
          | inl left ↦ rw (left, suggest_all) rest
          | inr (t, made) ↦ rw (made, suggest_all) (Memᴰ.tail rest)
        ]

  -- The suggestion that the observations make for a key: at least three picks, a share of the host's
  -- picks that is not below the bound, and no dismissal.
  abbrev pub proposed : List Observation → List Key → Key → Option (Suggestion F)
  proposed os dismissed k =
      if ltb (count_of k os) min_observations
      then none
      else if floats.lt (floats.ratio (count_of k os) (total_of k.host os)) floats.min_confidence
      then none
      else if any (key_eq k) dismissed
      then none
      else some (record {
        host = k.host;
        browser_id = k.browser_id;
        profile_id = k.profile_id;
        observation_count = count_of k os;
        confidence = floats.ratio (count_of k os) (total_of k.host os);
        last_observed_ms = latest k os 0;
      })

  module _ (os : List Observation) (dismissed : List Key) (room : length os < 2 ^ 32) where
    suggest-proposed :
        (k : Key)
        → count_of k os ≢ 0
        → suggest floats (tally os [] []).1 dismissed (k, (count_of k os, latest k os 0))
          ≡ proposed os dismissed k
    unfolding suggest
    suggest-proposed k seen =
        let totals : unwrap_or (get ◌==◌ k.host (tally os [] []).1) 0 ≡ total_of k.host os =
          ground (arith, get-totals k.host os, total_of-length k.host os) in
        let some_total : eqb (total_of k.host os) 0 ≡ false =
          ground (arith, count_of-total_of k os) in
        rw (totals, some_total, suggest) refl

    -- An entry of the picks is that of a key that was observed.
    picked :
        (e : Key × (ℕ × ℕ))
        → Memᴰ e (tally os [] []).0
        → (count_of e.0 os ≢ 0) × (e.1 ≡ (count_of e.0 os, latest e.0 os 0))
    picked (k, v) there =
        let found =
          get-mem key_eq key_to_true key_from_true k v (tally os [] []).0 (Uniq-tally os [] [] tt)
            there in
        let known =
          get-picks k os (ground (arith, count_of-total_of k os, total_of-length k.host os)) in
        ground (arith, found, known)

    pick_there :
        (k : Key) → count_of k os ≢ 0 → Memᴰ (k, (count_of k os, latest k os 0)) (tally os [] []).0
    pick_there k seen =
        mem-get key_eq key_to_true key_from_true k (count_of k os, latest k os 0) (tally os [] []).0
          (get-picks k os (ground (arith, count_of-total_of k os, total_of-length k.host os))
            ∙ ground arith)

    proposed_seen :
        (k : Key) {s : Suggestion F} → proposed os dismissed k ≡ some s → count_of k os ≢ 0
    proposed_seen k p h = ground arith

    module _ (iterate : Picks → Picks) (same : (m : Picks) → Perm (iterate m) m) where
      abbrev listed : List (Suggestion F)
      listed = suggest_all floats (tally os [] []).1 dismissed (iterate (tally os [] []).0)

      from_list :
          (s : Suggestion F) → Mem s listed → ∥ ((k : Key) × (proposed os dismissed k ≡ some s)) ∥₁
      from_list s m = ∥∥₁_elim m ∥∥₁_prop (λ d.
          let (e, there, made) =
            mem-suggest_all (tally os [] []).1 dismissed s (iterate (tally os [] []).0) d in
          ∥∥₁_map ((Perm.mem_iff (same (tally os [] []).0)).0 ∣ there ∣₁) (λ d'.
            let (seen, v) = picked e d' in
            (
              e.0,
              sym (suggest-proposed e.0 seen)
                  ∙ ap (λ x. suggest floats (tally os [] []).1 dismissed (e.0, x)) (sym v)
                  ∙ made,
            )))

      to_list : (s : Suggestion F) (k : Key) → proposed os dismissed k ≡ some s → Mem s listed
      to_list s k p =
          let seen = proposed_seen k p in
          ∥∥₁_map ((Perm.mem_iff (same (tally os [] []).0)).1 ∣ pick_there k seen ∣₁) (λ d.
            suggest_all-mem (tally os [] []).1 dismissed s (k, (count_of k os, latest k os 0))
              (iterate (tally os [] []).0) d (suggest-proposed k seen ∙ p))

      aggregate-listed : Perm (aggregate floats iterate os dismissed) listed
      unfolding aggregate suggest_all tally
      aggregate-listed = elim (Bool-cases (is_empty os)) [
        | inl none_there ↦
            rw (no_observations os none_there, perm_nil (iterate []) (same [])) (Perm.refl [])
        | inr some_there ↦ rw some_there (sort_by-perm (before_by_confidence floats) listed)
      ]

  -- Of fewer than 2^32 observations exactly those suggestions are made that they propose for a key,
  -- whatever the order in which the map of the picks is read.
  pub aggregate-proposed_iff :
      (iterate : Picks → Picks) (os : List Observation) (dismissed : List Key) (s : Suggestion F)
      → length os < 2 ^ 32
      → ((m : Picks) → Perm (iterate m) m)
      → Mem s (aggregate floats iterate os dismissed)
        ↔ ∥ ((k : Key) × (proposed os dismissed k ≡ some s)) ∥₁
  aggregate-proposed_iff iterate os dismissed s room same = (
    λ m.
        from_list os dismissed room iterate same s
          ((Perm.mem_iff (aggregate-listed os dismissed room iterate same)).0 m),
    λ h.
        (Perm.mem_iff (aggregate-listed os dismissed room iterate same)).1
          (∥∥₁_elim h Mem-prop (λ p. to_list os dismissed room iterate same s p.0 p.1)),
  )
