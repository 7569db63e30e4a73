-- ===== src/Cli/Moves.antt =====
-- What `lpt rules move` does to the order of the rules (crates/cli/src/main.rs, `run_rules_move`).
use mathlib.Core.Option
use link_pilot.Prelude.{
  ℕ, suc, String, ◌≡◌, ◌≤◌, ◌+◌, ◌⊎◌, inl, inr, refl, ap, ◌∙◌, Bool, true, false, some, List, [],
  ◌∷◌, ◌++◌, length, length-append, take, filter, All, Split, first-cases, eqb, arith, ok,
  Bool-cases, starts_with, ◌>>=◌,
}
use link_pilot.Prelude.Updates.{position}
use link_pilot.Cli.Places.{
  drop, take-drop, length-take, insert_at-take, remove-append, position-append,
}
use link_pilot.Core.Rules.{Rule, RuleId}
use link_pilot.Core.Config.{ConfigDocument}
use link_pilot.Cli.Rules.{
  MovePosition, top, up, down, bottom, Texts, candidates, find_rule, the_one, target_index, move_to,
  moved_rules, move_rule,
}

-- Where a rule stands after a move, by the rules before and behind it, then and now.
abbrev pub Lands : MovePosition → (front back front' back' : List Rule) → Type 0
Lands top front back front' back' = front' ≡ []
Lands bottom front back front' back' = back' ≡ []
Lands up front back front' back' =
    ((front ≡ []) × (front' ≡ [])) ⊎ (suc (length front') ≡ length front)
Lands down front back front' back' =
    ((back ≡ []) × (back' ≡ [])) ⊎ (length front' ≡ suc (length front))

-- One rule, the first with the identifier, stands elsewhere; the others keep their order.
pub record Moved (id : RuleId) (pos : MovePosition) (before after : List Rule) : Type 0 where
  pub rule : Rule
  pub front : List Rule
  pub back : List Rule
  pub front' : List Rule
  pub back' : List Rule
  pub named : rule.id ≡ id
  pub was : before ≡ front ++ rule ∷ back
  pub now : after ≡ front' ++ rule ∷ back'
  pub others : front' ++ back' ≡ front ++ back
  pub lands : Lands pos front back front' back'

nil_of_length : (xs : List Rule) → length xs ≡ 0 → xs ≡ []
nil_of_length [] h = refl
nil_of_length (x ∷ xs) h = absurd (omega arith)

module _ (front back front' back' : List Rule)
    (sum : length front' + length back' ≡ length front + length back) where
  lands_lem :
      (pos : MovePosition)
      → length front' ≡ target_index pos (length front) (suc (length front + length back))
      → Lands pos front back front' back'
  unfolding target_index
  lands_lem top h = nil_of_length front' h
  lands_lem bottom h = nil_of_length back' (ground arith)
  lands_lem up h = elim (Bool-cases (eqb (length front) 0)) [
    | inl first ↦ inl (nil_of_length front (ground arith), nil_of_length front' (ground arith))
    | inr later ↦ inr (ground arith)
  ]
  lands_lem down h = elim (Bool-cases (eqb (length back) 0)) [
    | inl last ↦ inl (nil_of_length back (ground arith), nil_of_length back' (ground arith))
    | inr sooner ↦ inr (ground arith)
  ]

target_index-le : (pos : MovePosition) (i n : ℕ) → i ≤ n → target_index pos i (suc n) ≤ n
unfolding target_index
target_index-le top i n h = ground arith
target_index-le up i n h = ground arith
target_index-le down i n h = ground arith
target_index-le bottom i n h = ground arith

module _ (pos : MovePosition) (front : List Rule) (rule : Rule) (back : List Rule) where
  abbrev all_rules : List Rule
  all_rules = front ++ rule ∷ back

  abbrev index : ℕ
  index = target_index pos (length front) (length all_rules)

  count_lem : length all_rules ≡ suc (length front + length back)
  count_lem = omega (arith, length-append front (rule ∷ back))

  index-le : index ≤ length (front ++ back)
  index-le =
      rw (count_lem, length-append front back)
        (target_index-le pos (length front) (length front + length back) (omega arith))

  -- The move of a rule away from its place, and to its place.
  moved_away :
      eqb index (length front) ≡ false
      → move_to (length front) index all_rules
        ≡ some (take index (front ++ back) ++ rule ∷ drop index (front ++ back))
  unfolding move_to Option.bind
  moved_away h =
      rw (h, remove-append front rule back, insert_at-take index rule (front ++ back) index-le) refl

  moved_nowhere :
      eqb index (length front) ≡ true → move_to (length front) index all_rules ≡ some all_rules
  unfolding move_to
  moved_nowhere h = rw h refl

  move_to-Moved :
      (after : List Rule) × (move_to (length front) index all_rules ≡ some after)
      × Moved rule.id pos all_rules after
  move_to-Moved = elim (Bool-cases (eqb index (length front))) [
    | inl same ↦ (
      all_rules,
      moved_nowhere same,
      record {
        rule = rule;
        front = front;
        back = back;
        front' = front;
        back' = back;
        named = refl;
        was = refl;
        now = refl;
        others = refl;
        lands = lands_lem front back front back refl pos (ground (arith, count_lem));
      },
    )
    | inr other ↦ (
      take index (front ++ back) ++ rule ∷ drop index (front ++ back),
      moved_away other,
      record {
        rule = rule;
        front = front;
        back = back;
        front' = take index (front ++ back);
        back' = drop index (front ++ back);
        named = refl;
        was = refl;
        now = refl;
        others = take-drop index (front ++ back);
        lands =
            lands_lem front back (take index (front ++ back)) (drop index (front ++ back))
              (omega (
                arith,
                ap length (take-drop index (front ++ back)),
                length-append (take index (front ++ back)) (drop index (front ++ back)),
                length-append front back,
              ))
              pos
              (length-take index (front ++ back) index-le
                ∙ ap (target_index pos (length front)) count_lem);
      },
    )
  ]

abbrev first_id : List Rule → ℕ
first_id [] = 0
first_id (x ∷ rules) = x.id

-- A rule that a filter leaves alone is in the list.
left_alone :
    (p : Rule → Bool) (r : Rule) (rules : List Rule)
    → filter p rules ≡ r ∷ []
    → All (λ x. eqb x.id r.id ≡ false) rules
    → ⊥
left_alone p r [] h fails = cc
left_alone p r (x ∷ rules) h fails = ground (arith, left_alone p r rules, ap first_id h)

find_rule_ok :
    (texts : Texts) (rules : List Rule) (prefix : String) {r : Rule}
    → find_rule texts rules prefix ≡ ok r
    → candidates texts rules prefix ≡ r ∷ []
unfolding find_rule
find_rule_ok texts rules prefix {r} h = one (candidates texts rules prefix) h
  where
    one : (rs : List Rule) → the_one texts prefix rs ≡ ok r → rs ≡ r ∷ []
    one [] h = cc
    one (x ∷ []) h = ground arith
    one (x ∷ y ∷ rs) h = cc

moved_rules-Moved :
    (id : RuleId) (pos : MovePosition) (rules : List Rule)
    → Split (λ x. eqb x.id id) rules
    → (after : List Rule) × (moved_rules id pos rules ≡ some after) × Moved id pos rules after
unfolding moved_rules Option.bind
moved_rules-Moved id pos rules s =
    let (after, done, moved) = move_to-Moved pos s.before s.here s.after in
    let same : s.here.id ≡ id = ground (arith, s.passes) in
    let there =
      ap (λ l. position (λ x. eqb x.id id) l) s.split
      ∙ position-append (λ x. eqb x.id id) s.before s.here s.after s.fails s.passes in
    (
      after,
      rw (there, s.split, Option.bind) done,
      record {
        rule = moved.rule;
        front = moved.front;
        back = moved.back;
        front' = moved.front';
        back' = moved.back';
        named = moved.named ∙ same;
        was = s.split ∙ moved.was;
        now = moved.now;
        others = moved.others;
        lands = moved.lands;
      },
    )

-- Where a prefix names one rule, `lpt rules move` does not panic, changes the rules only, puts that
-- rule at the top, one up, one down or at the bottom, and keeps the order of the others.
pub move_rule-Moved :
    (texts : Texts) (prefix : String) (pos : MovePosition) (doc : ConfigDocument) {r : Rule}
    → find_rule texts doc.rules prefix ≡ ok r
    → (after : List Rule) × (move_rule texts prefix pos doc ≡ ok (record doc { rules = after }))
      × Moved r.id pos doc.rules after
unfolding move_rule candidates
move_rule-Moved texts prefix pos doc {r} found =
    elim (first-cases (λ (x : Rule). eqb x.id r.id) doc.rules) [
      | inl nowhere ↦ absurd (
          left_alone (λ x. starts_with (texts.show_uuid x.id) prefix) r doc.rules
            (find_rule_ok texts doc.rules prefix found) nowhere)
      | inr s ↦
          let (after, done, moved) = moved_rules-Moved r.id pos doc.rules s in
          (after, rw (found, ◌>>=◌, done) refl, moved)
    ]
