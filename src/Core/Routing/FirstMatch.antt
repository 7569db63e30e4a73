-- ===== src/Core/Routing/FirstMatch.antt =====
-- Which rule wins: `Router::evaluate_explained_with_ask_shortcut` of crates/core/src/routing.rs
-- against a description by position in the list.
use link_pilot.Prelude.{
  ◌≡◌, refl, ◌∙◌, Bool, true, false, not, ◌&&◌, Option, some, List, [], ◌∷◌, ◌++◌, arith, All,
}
use link_pilot.Core.Rules.{Rule}
use link_pilot.Core.Config.{ConfigDocument}
use link_pilot.Core.Routing.Context.{UrlCrate, RoutingContext, Explained, matched}
use link_pilot.Core.Routing.Matching.{eval_tree}
use link_pilot.Core.Routing.Evaluate.{
  is_ask, rule_active, explain_rule, return_match, keep_first, walk_rules,
}

module _ {Url : Type 0} (urls : UrlCrate Url) (config : ConfigDocument) (ctx : RoutingContext) where
  -- The test at the top of the loop.
  abbrev pub applies : Rule → Bool
  applies r = rule_active config.workspaces r && matched (eval_tree urls r.when ctx)

  -- The rule takes part: it applies, and it is not an `Ask` passed over by the shortcut.
  abbrev pub stops : Bool → Rule → Bool
  stops pressed r = applies r && not (pressed && is_ask r.then)

  module _ (pressed : Bool) where
    pub walk-pass :
        (skipped : Option Explained) (r : Rule) (rs : List Rule)
        → applies r ≡ false
        → walk_rules urls config ctx pressed skipped (r ∷ rs)
          ≡ walk_rules urls config ctx pressed skipped rs
    unfolding walk_rules
    walk-pass skipped r rs h = rw h

    pub walk-stop :
        (skipped : Option Explained) (r : Rule) (rs : List Rule)
        → stops pressed r ≡ true
        → walk_rules urls config ctx pressed skipped (r ∷ rs)
          ≡ return_match skipped (explain_rule urls r ctx)
    unfolding walk_rules
    walk-stop skipped r rs h = ground arith

    pub walk-skip :
        (skipped : Option Explained) (r : Rule) (rs : List Rule)
        → applies r ≡ true
        → (pressed && is_ask r.then) ≡ true
        → walk_rules urls config ctx pressed skipped (r ∷ rs)
          ≡ walk_rules urls config ctx pressed (keep_first skipped (explain_rule urls r ctx)) rs
    unfolding walk_rules
    walk-skip skipped r rs h k = rw (h, k)

    -- Rules that do not apply are passed over.
    pub walk-append :
        (skipped : Option Explained) (before rs : List Rule)
        → All (λ r. applies r ≡ false) before
        → walk_rules urls config ctx pressed skipped (before ++ rs)
          ≡ walk_rules urls config ctx pressed skipped rs
    walk-append skipped [] rs h = refl
    walk-append skipped (r ∷ before) rs h =
        walk-pass skipped r (before ++ rs) h.0 ∙ walk-append skipped before rs h.1

    -- Once an `Ask` is kept, so are the further ones under the shortcut.
    pub walk-append_kept :
        (kept : Explained) (between rs : List Rule)
        → All (λ r. stops pressed r ≡ false) between
        → walk_rules urls config ctx pressed (some kept) (between ++ rs)
          ≡ walk_rules urls config ctx pressed (some kept) rs
    unfolding walk_rules keep_first
    walk-append_kept kept [] rs h = refl
    walk-append_kept kept (r ∷ between) rs h =
        ground (arith, walk-append_kept kept between rs h.1, h.0)
