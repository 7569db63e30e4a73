-- ===== src/Core/Routing/Winner.antt =====
-- Which rule wins, described by its place in the list: `Selects`, and that the walk of
-- crates/core/src/routing.rs computes it.
use mathlib.Core.Path.{subst}
use mathlib.Core.List.{append-nil}
use link_pilot.Prelude.{
  ◌≡◌, ◌↔◌, ◌⊎◌, inl, inr, refl, sym, ap, ◌∙◌, Bool, true, false, none, some, List, [], ◌∷◌, ◌++◌,
  arith, All, All-weaken, Split, first-cases, Bool-cases,
}
use link_pilot.Core.Rules.{Rule, ask}
use link_pilot.Core.Config.{ConfigDocument}
use link_pilot.Core.Routing.Context.{UrlCrate, RoutingContext, Explained}
use link_pilot.Core.Routing.Selection.{
  Applies, applies_iff, applies-eq-false_iff, Stops, stops_iff, stops-eq-false_iff,
}
use link_pilot.Core.Routing.Evaluate.{
  default_target_decision, prefix_reason, prefix_ask_reason, explain_rule, exhausted, return_match,
  keep_first, walk_rules, evaluate_explained_with_ask_shortcut,
}
use link_pilot.Core.Routing.FirstMatch.{
  applies, stops, walk-stop, walk-skip, walk-append, walk-append_kept,
}

module _ {Url : Type 0} (urls : UrlCrate Url) (config : ConfigDocument) (ctx : RoutingContext) where
  -- `Selects pressed rules e`: among `rules`, the explained decision is `e`.
  pub data Selects (pressed : Bool) (rules : List Rule) (e : Explained) : Type 0 where
    first :
        (before : List Rule) (r : Rule) (after : List Rule)
        → rules ≡ before ++ r ∷ after
        → All (λ q. ¬ Applies urls config ctx q) before
        → Stops urls config ctx pressed r
        → e ≡ explain_rule urls r ctx
        → Selects pressed rules e
    quick :
        (before : List Rule) (a : Rule) (between : List Rule) (r : Rule) (after : List Rule)
        → pressed ≡ true
        → rules ≡ before ++ a ∷ (between ++ r ∷ after)
        → All (λ q. ¬ Applies urls config ctx q) before
        → Applies urls config ctx a
        → a.then ≡ ask
        → All (λ q. ¬ Stops urls config ctx pressed q) between
        → Stops urls config ctx pressed r
        → e ≡ record (explain_rule urls r ctx) {
          decision = prefix_reason "Ask quick open — " (explain_rule urls r ctx).decision;
        }
        → Selects pressed rules e
    kept :
        (before : List Rule) (a : Rule) (after : List Rule)
        → pressed ≡ true
        → rules ≡ before ++ a ∷ after
        → All (λ q. ¬ Applies urls config ctx q) before
        → Applies urls config ctx a
        → a.then ≡ ask
        → All (λ q. ¬ Stops urls config ctx pressed q) after
        → e ≡ record (explain_rule urls a ctx) {
          decision =
              prefix_ask_reason "Ask quick open: no later rule matched — "
                (explain_rule urls a ctx).decision;
        }
        → Selects pressed rules e
    fallback :
        All (λ q. ¬ Applies urls config ctx q) rules
        → e ≡ record {
          decision =
              default_target_decision config.default_target "default target (no rule matched)";
          explanation = none;
        }
        → Selects pressed rules e

  module _ (pressed : Bool) where
    -- What the walk computes on the two kinds of lists behind a first rule that applies.
    walk-kept :
        (a : Explained) (rest : List Rule)
        → All (λ q. stops urls config ctx pressed q ≡ false) rest
        → walk_rules urls config ctx pressed (some a) rest ≡ exhausted config (some a)
    unfolding walk_rules
    walk-kept a rest h =
        subst (λ l. walk_rules urls config ctx pressed (some a) l ≡ exhausted config (some a))
          (append-nil rest) (walk-append_kept urls config ctx pressed a rest [] h)

    walk-none :
        (rules : List Rule)
        → All (λ q. applies urls config ctx q ≡ false) rules
        → walk_rules urls config ctx pressed none rules ≡ exhausted config none
    unfolding walk_rules
    walk-none rules h =
        subst (λ l. walk_rules urls config ctx pressed none l ≡ exhausted config none)
          (append-nil rules) (walk-append urls config ctx pressed none rules [] h)

    walk-ask :
        (before : List Rule) (a : Rule) (rest : List Rule)
        → All (λ q. applies urls config ctx q ≡ false) before
        → applies urls config ctx a ≡ true
        → pressed ≡ true
        → a.then ≡ ask
        → walk_rules urls config ctx pressed none (before ++ a ∷ rest)
          ≡ walk_rules urls config ctx pressed (some (explain_rule urls a ctx)) rest
    unfolding keep_first
    walk-ask before a rest h k p q =
        walk-append urls config ctx pressed none before (a ∷ rest) h
        ∙ walk-skip urls config ctx pressed none a rest k (ground arith)

    not_applies :
        (rs : List Rule)
        → All (λ q. ¬ Applies urls config ctx q) rs
        → All (λ q. applies urls config ctx q ≡ false) rs
    not_applies = All-weaken λ q. (applies-eq-false_iff urls config ctx q).1

    not_stops :
        (rs : List Rule)
        → All (λ q. ¬ Stops urls config ctx pressed q) rs
        → All (λ q. stops urls config ctx pressed q ≡ false) rs
    not_stops = All-weaken λ q. (stops-eq-false_iff urls config ctx pressed q).1

    Selects-walk :
        {rules : List Rule} {e : Explained}
        → Selects pressed rules e
        → walk_rules urls config ctx pressed none rules ≡ e
    Selects-walk {rules} (first before r after s h k e) =
        ap (walk_rules urls config ctx pressed none) s
        ∙ walk-append urls config ctx pressed none before (r ∷ after) (not_applies before h)
        ∙ walk-stop urls config ctx pressed none r after ((stops_iff urls config ctx pressed r).1 k)
        ∙ unfold return_match in sym e
    Selects-walk (quick before a between r after p s h k asks m l e) =
        ap (walk_rules urls config ctx pressed none) s
        ∙ walk-ask before a (between ++ r ∷ after) (not_applies before h)
            ((applies_iff urls config ctx a).1 k) p asks
        ∙ walk-append_kept urls config ctx pressed _ between (r ∷ after) (not_stops between m)
        ∙ walk-stop urls config ctx pressed _ r after ((stops_iff urls config ctx pressed r).1 l)
        ∙ unfold return_match in sym e
    Selects-walk (kept before a after p s h k asks m e) =
        ap (walk_rules urls config ctx pressed none) s
        ∙ walk-ask before a after (not_applies before h) ((applies_iff urls config ctx a).1 k) p
            asks
        ∙ walk-kept (explain_rule urls a ctx) after (not_stops after m)
        ∙ unfold exhausted in sym e
    Selects-walk {rules} (fallback h e) =
        walk-none rules (not_applies rules h) ∙ unfold exhausted in sym e

    applies→not :
        (rs : List Rule)
        → All (λ q. applies urls config ctx q ≡ false) rs
        → All (λ q. ¬ Applies urls config ctx q) rs
    applies→not = All-weaken λ q. (applies-eq-false_iff urls config ctx q).0

    stops→not :
        (rs : List Rule)
        → All (λ q. stops urls config ctx pressed q ≡ false) rs
        → All (λ q. ¬ Stops urls config ctx pressed q) rs
    stops→not = All-weaken λ q. (stops-eq-false_iff urls config ctx pressed q).0

    -- A rule that applies and does not stop the walk is an `Ask` under the held shortcut.
    passed_ask :
        (r : Rule)
        → applies urls config ctx r ≡ true
        → stops urls config ctx pressed r ≡ false
        → (pressed ≡ true) × (r.then ≡ ask)
    passed_ask r h k = ground arith

    -- Behind a first rule that applies and is passed over.
    ask-Selects :
        {rules : List Rule} (s : Split (applies urls config ctx) rules)
        → stops urls config ctx pressed s.here ≡ false
        → (e : Explained) × Selects pressed rules e
    ask-Selects s h =
        let (held, asks) = passed_ask s.here s.passes h in
        let here = (applies_iff urls config ctx s.here).0 s.passes in
        let clear = applies→not s.before s.fails in
        elim (first-cases (stops urls config ctx pressed) s.after) [
          | inl no_later ↦ (
            _,
            kept s.before s.here s.after held s.split clear here asks (stops→not s.after no_later)
                refl,
          )
          | inr t ↦ (
            _,
            quick s.before s.here t.before t.here t.after held
                (s.split ∙ ap (λ l. s.before ++ s.here ∷ l) t.split) clear here asks
                (stops→not t.before t.fails) ((stops_iff urls config ctx pressed t.here).0 t.passes)
                refl,
          )
        ]

    some-Selects : (rules : List Rule) → (e : Explained) × Selects pressed rules e
    some-Selects rules = elim (first-cases (applies urls config ctx) rules) [
      | inl no_match ↦ (_, fallback (applies→not rules no_match) refl)
      | inr s ↦ elim (Bool-cases (stops urls config ctx pressed s.here)) [
        | inl stop ↦ (
          _,
          first s.before s.here s.after s.split (applies→not s.before s.fails)
              ((stops_iff urls config ctx pressed s.here).0 stop) refl,
        )
        | inr pass ↦ ask-Selects s pass
      ]
    ]

    walk-Selects :
        (rules : List Rule) → Selects pressed rules (walk_rules urls config ctx pressed none rules)
    walk-Selects rules =
        let (e, s) = some-Selects rules in subst (Selects pressed rules) (sym (Selects-walk s)) s

  -- The outcome as a whole, the kill-switch included.
  abbrev pub Decides : Bool → Explained → Type 0
  Decides pressed e =
      ((config.settings.smart_routing_enabled ≡ false)
        × (e ≡ record {
          decision =
              default_target_decision config.default_target
                "smart routing disabled — default target";
          explanation = none;
        }))
      ⊎ ((config.settings.smart_routing_enabled ≡ true) × Selects pressed config.rules e)

  -- The evaluation returns `e` exactly when `e` is the outcome described: with the switch off the
  -- default target, otherwise what `Selects` says of the rules in their order.
  pub evaluate-Decides_iff :
      (pressed : Bool) (e : Explained)
      → (evaluate_explained_with_ask_shortcut urls config ctx pressed ≡ e) ↔ Decides pressed e
  unfolding evaluate_explained_with_ask_shortcut
  evaluate-Decides_iff pressed e = (
    λ h. elim (Bool-cases config.settings.smart_routing_enabled) [
      | inl on ↦ inr (
        on,
        subst (Selects pressed config.rules) (ground arith) (walk-Selects pressed config.rules),
      )
      | inr off ↦ inl (off, ground arith)
    ],
    elim [
      | inl off ↦ rw (off.0, evaluate_explained_with_ask_shortcut) (sym off.1)
      | inr on ↦ simp on.0 (Selects-walk pressed on.1)
    ],
  )
