-- ===== src/Core/Observations/Counts.antt =====
-- What `aggregate` (crates/core/src/observations.rs) counts and suggests.
use link_pilot.Prelude.{
  ℕ, String, ◌≡◌, refl, sym, ap, ◌∙◌, true, Option, none, some, List, [], ◌∷◌, length, arith, suc,
  subst, ◌+◌, ◌<◌, ◌≤◌, ◌%◌, ◌^◌, if◌then◌else◌, unwrap_or, ◌==◌, eq_iff, eqb, inl, inr, Bool-cases,
}
use link_pilot.Prelude.Maps.{get, get-insert_self, get-insert_ne, Uniq, Uniq-insert}
use link_pilot.Core.Observations.Entries.{Observation, Key, same_profile, key_eq, key_of}
use link_pilot.Core.Observations.Aggregate.{Picks, Totals, max, add_pick, add_total, tally}

profile_from_true : (p q : Option String) → same_profile p q ≡ true → p ≡ q
profile_from_true none none h = refl
profile_from_true none (some q) h = cc
profile_from_true (some p) none h = cc
profile_from_true (some p) (some q) h = ap some ((eq_iff p q).0 h)

profile_to_true : (p q : Option String) → p ≡ q → same_profile p q ≡ true
profile_to_true none none h = refl
profile_to_true none (some q) h = cc
profile_to_true (some p) none h = cc
profile_to_true (some p) (some q) h = (eq_iff p q).1 (ground arith)

pub key_from_true : (j k : Key) → key_eq j k ≡ true → j ≡ k
unfolding key_eq
key_from_true j k h =
    let parts : (j.host ≡ k.host)
        × (j.browser_id ≡ k.browser_id)
        × (same_profile j.profile_id k.profile_id ≡ true) =
      ground (arith, eq_iff j.host k.host, eq_iff j.browser_id k.browser_id) in
    λ i. record {
      host = parts.0 i;
      browser_id = parts.1 i;
      profile_id = profile_from_true j.profile_id k.profile_id parts.2 i;
    }

pub key_to_true : (j k : Key) → j ≡ k → key_eq j k ≡ true
unfolding key_eq
key_to_true j k h =
    let host = (eq_iff j.host k.host).1 (ap (λ x. x.host) h) in
    let browser = (eq_iff j.browser_id k.browser_id).1 (ap (λ x. x.browser_id) h) in
    let profile = profile_to_true j.profile_id k.profile_id (ap (λ x. x.profile_id) h) in
    rw (host, browser, profile) refl

text_to_true : (j k : String) → j ≡ k → (j == k) ≡ true
text_to_true j k = (eq_iff j k).1

text_from_true : (j k : String) → (j == k) ≡ true → j ≡ k
text_from_true j k = (eq_iff j k).0

-- How many observations are about the key, and when the last of them was.
abbrev pub count_of : Key → List Observation → ℕ
count_of k [] = 0
count_of k (o ∷ os) = let rest = count_of k os in if key_eq (key_of o) k then suc rest else rest

abbrev pub latest : Key → List Observation → ℕ → ℕ
latest k [] t = t
latest k (o ∷ os) t = latest k os (if key_eq (key_of o) k then max t o.timestamp_ms else t)

abbrev pub total_of : String → List Observation → ℕ
total_of h [] = 0
total_of h (o ∷ os) = let rest = total_of h os in if o.host == h then suc rest else rest

-- The picks with the observations counted in, from an entry.
abbrev tallied : Key → List Observation → Option (ℕ × ℕ) → Option (ℕ × ℕ)
tallied k [] e = e
tallied k (o ∷ os) e = tallied k os (
    if key_eq (key_of o) k
    then some (((unwrap_or e (0, 0)).0 + 1) % 2 ^ 32, max (unwrap_or e (0, 0)).1 o.timestamp_ms)
    else e)

get-add_pick :
    (k : Key) (o : Observation) (picks : Picks)
    → get key_eq k (add_pick o picks) ≡ (
        if key_eq (key_of o) k
        then some (
          ((unwrap_or (get key_eq k picks) (0, 0)).0 + 1) % 2 ^ 32,
          max (unwrap_or (get key_eq k picks) (0, 0)).1 o.timestamp_ms,
        )
        else get key_eq k picks)
unfolding add_pick
get-add_pick k o picks = elim (Bool-cases (key_eq (key_of o) k)) [
  | inl e ↦ rw e (
      subst
        (λ j.
          get key_eq j (add_pick o picks)
          ≡ some (
            ((unwrap_or (get key_eq j picks) (0, 0)).0 + 1) % 2 ^ 32,
            max (unwrap_or (get key_eq j picks) (0, 0)).1 o.timestamp_ms,
          ))
        (key_from_true (key_of o) k e)
        (get-insert_self key_eq key_to_true key_from_true (key_of o) _ picks))
  | inr e ↦ rw e (get-insert_ne key_eq key_to_true key_from_true k (key_of o) _ picks e)
]

get-tally :
    (k : Key) (os : List Observation) (picks : Picks) (totals : Totals)
    → get key_eq k (tally os picks totals).0 ≡ tallied k os (get key_eq k picks)
unfolding tally
get-tally k [] picks totals = refl
get-tally k (o ∷ os) picks totals =
    get-tally k os (add_pick o picks) (add_total o totals)
    ∙ ap (tallied k os) (get-add_pick k o picks)

latest_none : (k : Key) (os : List Observation) (t : ℕ) → count_of k os ≡ 0 → latest k os t ≡ t
latest_none k [] t h = refl
latest_none k (o ∷ os) t h = ground (arith, latest_none k os t)

abbrev pub entry : ℕ → ℕ → Option (ℕ × ℕ)
entry c t = some (c, t)

joined :
    (k : Key) (os : List Observation) (c t : ℕ)
    → (if eqb (count_of k os) 0 then entry c t else entry (c + count_of k os) (latest k os t))
      ≡ entry (c + count_of k os) (latest k os t)
joined k os c t = ground (arith, latest_none k os t)

wrapped : (c : ℕ) → c + 1 < 2 ^ 32 → (c + 1) % 2 ^ 32 ≡ c + 1
wrapped c h = omega arith

one_more :
    (k : Key) (os : List Observation) (c t : ℕ)
    → entry (c + 1 + count_of k os) (latest k os t)
      ≡ entry (c + suc (count_of k os)) (latest k os t)
one_more k os c t = ap (λ n. entry n (latest k os t)) (omega arith)

some_seen : (n : ℕ) (e x : Option (ℕ × ℕ)) → (if eqb (suc n) 0 then e else x) ≡ x
some_seen n e x = ground arith

-- Below 2^32 the numbers are exact.
tallied_lem :
    (k : Key) (os : List Observation) (e : Option (ℕ × ℕ))
    → (unwrap_or e (0, 0)).0 + count_of k os < 2 ^ 32
    → tallied k os e ≡ (
        if eqb (count_of k os) 0
        then e
        else some ((unwrap_or e (0, 0)).0 + count_of k os, latest k os (unwrap_or e (0, 0)).1))
tallied_lem k [] e h = refl
tallied_lem k (o ∷ os) e h = elim (Bool-cases (key_eq (key_of o) k)) [
  | inl same ↦
      let c = (unwrap_or e (0, 0)).0 in
      let t = max (unwrap_or e (0, 0)).1 o.timestamp_ms in
      let room : c + suc (count_of k os) < 2 ^ 32 = ground arith in
      rw same (
        ap (λ n. tallied k os (some (n, t))) (wrapped c (omega arith))
        ∙ tallied_lem k os (some (c + 1, t)) (omega arith)
        ∙ joined k os (c + 1) t
        ∙ one_more k os c t
        ∙ sym (some_seen (count_of k os) e (entry (c + suc (count_of k os)) (latest k os t))))
  | inr other ↦ rw other (tallied_lem k os e (ground arith))
]

-- The picks of the loop: an entry for each key that was observed.
pub get-picks :
    (k : Key) (os : List Observation)
    → count_of k os < 2 ^ 32
    → get key_eq k (tally os [] []).0
      ≡ (if eqb (count_of k os) 0 then none else entry (count_of k os) (latest k os 0))
unfolding get
get-picks k os h = get-tally k os [] [] ∙ ground (arith, tallied_lem k os none)

pub Uniq-tally :
    (os : List Observation) (picks : Picks) (totals : Totals)
    → Uniq key_eq key_to_true key_from_true picks
    → Uniq key_eq key_to_true key_from_true (tally os picks totals).0
unfolding tally add_pick
Uniq-tally [] picks totals h = h
Uniq-tally (o ∷ os) picks totals h =
    Uniq-tally os (add_pick o picks) (add_total o totals)
      (Uniq-insert key_eq key_to_true key_from_true (key_of o) _ picks h)

get-add_total :
    (h : String) (o : Observation) (totals : Totals)
    → unwrap_or (get ◌==◌ h (add_total o totals)) 0 ≡ (
        if o.host == h
        then (unwrap_or (get ◌==◌ h totals) 0 + 1) % 2 ^ 32
        else unwrap_or (get ◌==◌ h totals) 0)
unfolding add_total
get-add_total h o totals = elim (Bool-cases (o.host == h)) [
  | inl e ↦ rw e (
      subst
        (λ j.
          unwrap_or (get ◌==◌ j (add_total o totals)) 0
          ≡ (unwrap_or (get ◌==◌ j totals) 0 + 1) % 2 ^ 32)
        (text_from_true o.host h e)
        (ap (λ x. unwrap_or x 0)
          (get-insert_self ◌==◌ text_to_true text_from_true o.host _ totals)))
  | inr e ↦
      rw e (
        ap (λ x. unwrap_or x 0)
          (get-insert_ne ◌==◌ text_to_true text_from_true h o.host _ totals e))
]

get-tally_total :
    (h : String) (os : List Observation) (picks : Picks) (totals : Totals)
    → unwrap_or (get ◌==◌ h totals) 0 + total_of h os < 2 ^ 32
    → unwrap_or (get ◌==◌ h (tally os picks totals).1) 0
      ≡ unwrap_or (get ◌==◌ h totals) 0 + total_of h os
unfolding tally
get-tally_total h [] picks totals room = omega arith
get-tally_total h (o ∷ os) picks totals room =
    let step = get-add_total h o totals in
    let wrap = wrapped (unwrap_or (get ◌==◌ h totals) 0) in
    let rest = get-tally_total h os (add_pick o picks) (add_total o totals) in
    ground (arith, step, wrap, rest)

pub get-totals :
    (h : String) (os : List Observation)
    → total_of h os < 2 ^ 32
    → unwrap_or (get ◌==◌ h (tally os [] []).1) 0 ≡ total_of h os
unfolding get
get-totals h os room = ground (arith, get-tally_total h os [] [])

host_same : (o : Observation) (k : Key) → key_eq (key_of o) k ≡ true → (o.host == k.host) ≡ true
unfolding key_eq
host_same o k h = ground arith

pub count_of-total_of : (k : Key) (os : List Observation) → count_of k os ≤ total_of k.host os
count_of-total_of k [] = omega arith
count_of-total_of k (o ∷ os) = ground (arith, count_of-total_of k os, host_same o k)

pub total_of-length : (h : String) (os : List Observation) → total_of h os ≤ length os
total_of-length h [] = omega arith
total_of-length h (o ∷ os) = ground (arith, total_of-length h os)
