-- ===== src/Mac/Opener/Detection.antt =====
-- Which app is found to have opened a URL (crates/platform-mac/src/opener.rs).
use link_pilot.Prelude.{
  ℕ, String, ◌≡◌, refl, ◌≤◌, ap, sym, ◌∙◌, Bool, true, false, ◌&&◌, Option, none, some, List, [],
  ◌∷◌, All, find, arith, if◌then◌else◌, ltb, eqb, ◌-◌, ◌==◌, length, eq_iff, Bool-cases, inl, inr,
}
use link_pilot.Prelude.Int.{ℤ, pos, negsuc}
use link_pilot.Core.Platform.{OpenerApp}
use link_pilot.Mac.Opener.{
  RecentApp, Ring, stale_after, ring_capacity, eq_int, eq_option, detect, drop_oldest, push_new,
  push_unique, is_self, poll, poll_loop,
}

-- The app that was in front last, other than the one with the identifier `own`.
abbrev pub latest : String → List (Option RecentApp) → Option RecentApp → Option RecentApp
latest own [] found = found
latest own (none ∷ answers) found = latest own answers found
latest own (some app ∷ answers) found =
    latest own answers (if is_self own app.bundle_id then found else some app)

-- The times of the answers rise.
abbrev pub InOrder : ℕ → List (Option RecentApp) → Type 0
InOrder t [] = Unit
InOrder t (none ∷ answers) = InOrder t answers
InOrder t (some app ∷ answers) = (t ≤ app.seen) × InOrder app.seen answers

abbrev pub seen_lately : ℕ → Option RecentApp → Option OpenerApp
seen_lately now none = none
seen_lately now (some app) =
    if ltb (now - app.seen) stale_after
    then some
        (record { name = app.name; bundle_id = app.bundle_id; executable = none; pid = app.pid })
    else none

-- Apps with the same bundle and the same process have the same name.
abbrev pub Named : (Option String → Option ℤ → String) → List (Option RecentApp) → Type 0
Named name_of [] = Unit
Named name_of (none ∷ answers) = Named name_of answers
Named name_of (some app ∷ answers) =
    (app.name ≡ name_of app.bundle_id app.pid) × Named name_of answers

abbrev NamedLast : (Option String → Option ℤ → String) → Option RecentApp → Type 0
NamedLast name_of none = Unit
NamedLast name_of (some app) = app.name ≡ name_of app.bundle_id app.pid

-- The back of the ring is the app that was in front last, and the others are older.
abbrev Shows : Ring → Option RecentApp → Type 0
Shows [] none = Unit
Shows [] (some app) = ⊥
Shows (head ∷ ring) none = ⊥
Shows (head ∷ ring) (some app) =
    (head.seen ≡ app.seen)
    × (head.name ≡ app.name)
    × (head.bundle_id ≡ app.bundle_id)
    × (head.pid ≡ app.pid)
    × All (λ a. a.seen ≤ app.seen) ring

eq_int-true : (a b : ℤ) → eq_int a b ≡ true → a ≡ b
eq_int-true (pos a) (pos b) h = ground arith
eq_int-true (pos a) (negsuc b) h = cc
eq_int-true (negsuc a) (pos b) h = cc
eq_int-true (negsuc a) (negsuc b) h = ground arith

eq_option-true :
    {A : Type 0} (eq : A → A → Bool) (sound : (a b : A) → eq a b ≡ true → a ≡ b) (a b : Option A)
    → eq_option eq a b ≡ true
    → a ≡ b
eq_option-true eq sound none none h = refl
eq_option-true eq sound none (some b) h = cc
eq_option-true eq sound (some a) none h = cc
eq_option-true eq sound (some a) (some b) h = ap some (sound a b h)

All-drop_oldest :
    (t : ℕ) (ring : Ring) → All (λ a. a.seen ≤ t) ring → All (λ a. a.seen ≤ t) (drop_oldest ring)
unfolding drop_oldest
All-drop_oldest t [] h = tt
All-drop_oldest t (a ∷ []) h = tt
All-drop_oldest t (a ∷ b ∷ ring) h = (h.0, All-drop_oldest t (b ∷ ring) h.1)

All-older :
    (s t : ℕ) (ring : Ring) → s ≤ t → All (λ a. a.seen ≤ s) ring → All (λ a. a.seen ≤ t) ring
All-older s t [] h older = tt
All-older s t (a ∷ ring) h older = (omega arith, All-older s t ring h older.1)

-- Nothing of what is older than a stale one is fresh.
find-stale :
    (now t : ℕ) (ring : Ring)
    → ltb (now - t) stale_after ≡ false
    → All (λ a. a.seen ≤ t) ring
    → find (λ a. ltb (now - a.seen) stale_after) ring ≡ none
find-stale now t [] stale h = refl
find-stale now t (a ∷ ring) stale h = ground (arith, find-stale now t ring stale h.1)

push_new-Shows :
    (app : RecentApp) (ring : Ring)
    → All (λ a. a.seen ≤ app.seen) ring
    → Shows (push_new app ring) (some app)
unfolding push_new
push_new-Shows app ring h = (
  refl,
  refl,
  refl,
  refl,
  elim (Bool-cases (eqb (length ring) ring_capacity)) [
    | inl full ↦ rw full (All-drop_oldest app.seen ring h)
    | inr room ↦ rw room h
  ],
)

-- The app in front last was seen by then.
abbrev Until : ℕ → Option RecentApp → Type 0
Until t none = Unit
Until t (some app) = app.seen ≤ t

Shows-older :
    (t : ℕ) (ring : Ring) (found : Option RecentApp)
    → Shows ring found
    → Until t found
    → All (λ a. a.seen ≤ t) ring
Shows-older t [] found h until = tt
Shows-older t (head ∷ ring) none h until = absurd h
Shows-older t (head ∷ ring) (some app) h until = (omega arith, All-older app.seen t ring until h.4)

-- The name that stands in the ring is that of the app in front.
same_name :
    (name_of : Option String → Option ℤ → String) (app head : RecentApp) (ring : Ring)
    (found : Option RecentApp)
    → Shows (head ∷ ring) found
    → NamedLast name_of found
    → app.name ≡ name_of app.bundle_id app.pid
    → head.bundle_id ≡ app.bundle_id
    → head.pid ≡ app.pid
    → head.name ≡ app.name
same_name name_of app head ring none h last named b p = absurd h
same_name name_of app head ring (some a) h last named b p =
    h.1 ∙ last ∙ (λ i. name_of (sym h.2 i) (sym h.3 i)) ∙ (λ i. name_of (b i) (p i)) ∙ sym named

push_unique-Shows :
    (name_of : Option String → Option ℤ → String) (app : RecentApp) (ring : Ring)
    (found : Option RecentApp)
    → Shows ring found
    → Until app.seen found
    → NamedLast name_of found
    → app.name ≡ name_of app.bundle_id app.pid
    → Shows (push_unique app ring) (some app)
unfolding push_unique
push_unique-Shows name_of app [] found h until last named = push_new-Shows app [] tt
push_unique-Shows name_of app (head ∷ ring) found h until last named =
    elim (Bool-cases
      (eq_option ◌==◌ head.bundle_id app.bundle_id && eq_option eq_int head.pid app.pid)) [
        | inl same ↦
            let b =
              eq_option-true ◌==◌ (λ a b e. (eq_iff a b).0 e) head.bundle_id app.bundle_id
                (ground arith) in
            let p = eq_option-true eq_int eq_int-true head.pid app.pid (ground arith) in
            rw same (
              refl,
              same_name name_of app head ring found h last named b p,
              b,
              p,
              (Shows-older app.seen (head ∷ ring) found h until).1,
            )
        | inr other ↦
            rw other
              (push_new-Shows app (head ∷ ring) (Shows-older app.seen (head ∷ ring) found h until))
      ]

poll-Shows :
    (name_of : Option String → Option ℤ → String) (own : String) (app : RecentApp) (ring : Ring)
    (found : Option RecentApp)
    → Shows ring found
    → Until app.seen found
    → NamedLast name_of found
    → app.name ≡ name_of app.bundle_id app.pid
    → Shows (poll own (some app) ring) (if is_self own app.bundle_id then found else some app)
unfolding poll
poll-Shows name_of own app ring found h until last named =
    elim (Bool-cases (is_self own app.bundle_id)) [
      | inl self ↦ rw self h
      | inr other ↦ rw other (push_unique-Shows name_of app ring found h until last named)
    ]

Until-later :
    (t : ℕ) (own : Bool) (app : RecentApp) (found : Option RecentApp)
    → Until t found
    → t ≤ app.seen
    → Until app.seen (if own then found else some app)
Until-later t true app none until h = tt
Until-later t true app (some a) until h = omega arith
Until-later t false app found until h = omega arith

NamedLast-later :
    (name_of : Option String → Option ℤ → String) (own : Bool) (app : RecentApp)
    (found : Option RecentApp)
    → NamedLast name_of found
    → app.name ≡ name_of app.bundle_id app.pid
    → NamedLast name_of (if own then found else some app)
NamedLast-later name_of true app found last named = last
NamedLast-later name_of false app found last named = named

Until-trans : (s t : ℕ) (found : Option RecentApp) → Until s found → s ≤ t → Until t found
Until-trans s t none until h = tt
Until-trans s t (some a) until h = omega arith

poll_loop-Shows :
    (name_of : Option String → Option ℤ → String) (own : String) (answers : List (Option RecentApp))
    (t : ℕ) (ring : Ring) (found : Option RecentApp)
    → InOrder t answers
    → Until t found
    → Named name_of answers
    → NamedLast name_of found
    → Shows ring found
    → Shows (poll_loop own answers ring) (latest own answers found)
unfolding poll_loop poll
poll_loop-Shows name_of own [] t ring found order until named last h = h
poll_loop-Shows name_of own (none ∷ answers) t ring found order until named last h =
    poll_loop-Shows name_of own answers t ring found order until named last h
poll_loop-Shows name_of own (some app ∷ answers) t ring found order until named last h =
    poll_loop-Shows name_of own answers app.seen _ _ order.1
      (Until-later t (is_self own app.bundle_id) app found until order.0) named.1
      (NamedLast-later name_of (is_self own app.bundle_id) app found last named.0)
      (poll-Shows name_of own app ring found h (Until-trans t app.seen found until order.0) last
        named.0)

detect-Shows :
    (now : ℕ) (ring : Ring) (found : Option RecentApp)
    → Shows ring found
    → detect now ring ≡ seen_lately now found
unfolding detect
detect-Shows now [] none h = refl
detect-Shows now [] (some app) h = absurd h
detect-Shows now (head ∷ ring) none h = absurd h
detect-Shows now (head ∷ ring) (some app) h = elim (Bool-cases (ltb (now - app.seen) stale_after)) [
  | inl fresh ↦
      rw (h.0, fresh)
        (λ i. some (record { name = h.1 i; bundle_id = h.2 i; executable = none; pid = h.3 i }))
  | inr stale ↦ rw (h.0, stale, find-stale now app.seen ring stale h.4)
]

-- After any turns of the poller, at rising times, the app that is found at a time is the last one
-- that was in front and is not LinkPilot, with its name, its bundle and its process, where it was seen
-- less than 30 seconds ago; otherwise none is found. The ring of eight loses nothing that matters. Apps
-- with the same bundle and the same process, or without them, must have the same name.
pub detect-poll_loop :
    (name_of : Option String → Option ℤ → String) (own : String) (answers : List (Option RecentApp))
    (now : ℕ)
    → InOrder 0 answers
    → Named name_of answers
    → detect now (poll_loop own answers []) ≡ seen_lately now (latest own answers none)
detect-poll_loop name_of own answers now order named =
    detect-Shows now (poll_loop own answers []) (latest own answers none)
      (poll_loop-Shows name_of own answers 0 [] none order tt named tt tt)
