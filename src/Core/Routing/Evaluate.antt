-- ===== src/Core/Routing/Evaluate.antt =====
-- crates/core/src/routing.rs: the walk of `Router` over the rules.
use link_pilot.Prelude.{
  String, Bool, true, false, ◌&&◌, Option, none, some, List, [], ◌∷◌, ◌==◌, ◌⧺◌, if◌then◌else◌,
  find, unwrap_or,
}
use mathlib.Core.Option
use link_pilot.Core.Browser.{BrowserTarget}
use link_pilot.Core.Rules.{RuleId, Rule, Action, open_in, keep_source, ask, block}
use link_pilot.Core.Config.{ConfigDocument, Workspace}
use link_pilot.Core.Routing.Context.{
  UrlCrate, RoutingContext, RoutingDecision, open_with, allow, ask_among, blocked, Explained,
  matched,
}
use link_pilot.Core.Routing.Matching.{eval_tree}

unfoldable pub default_target_decision : BrowserTarget → String → RoutingDecision
default_target_decision default_target reason =
    if default_target.browser == "system"
    then ask_among [] (reason ⧺ "; default target not configured")
    else open_with default_target none reason

unfoldable pub decide_from_action : Action → Option RuleId → Option String → RoutingDecision
decide_from_action (open_in target) matched_rule note =
    open_with target matched_rule (unwrap_or note "matched rule")
decide_from_action keep_source matched_rule note = allow (unwrap_or note "matched rule")
decide_from_action ask matched_rule note = ask_among [] (unwrap_or note "matched rule")
decide_from_action block matched_rule note = blocked (unwrap_or note "matched rule")

-- `reason.insert_str(0, prefix)`, on every kind of decision.
unfoldable pub prefix_reason : String → RoutingDecision → RoutingDecision
prefix_reason p (open_with target rule reason) = open_with target rule (p ⧺ reason)
prefix_reason p (allow reason) = allow (p ⧺ reason)
prefix_reason p (ask_among candidates reason) = ask_among candidates (p ⧺ reason)
prefix_reason p (blocked reason) = blocked (p ⧺ reason)

-- The same on an `Ask` only.
unfoldable pub prefix_ask_reason : String → RoutingDecision → RoutingDecision
prefix_ask_reason p (ask_among candidates reason) = ask_among candidates (p ⧺ reason)
prefix_ask_reason p d = d

-- `matches!(action, Action::Ask)`
abbrev pub is_ask : Action → Bool
is_ask ask = true
is_ask _ = false

-- The workspace gate: a missing workspace counts as enabled.
unfoldable pub workspace_enabled : List Workspace → Option String → Bool
workspace_enabled workspaces none = true
workspace_enabled workspaces (some ws_id) =
    unwrap_or (Option.map (λ w. w.enabled) (find (λ w. w.id == ws_id) workspaces)) true

-- Neither of the two `continue`s at the top of the loop is taken.
unfoldable pub rule_active : List Workspace → Rule → Bool
rule_active workspaces rule = rule.enabled && workspace_enabled workspaces rule.workspace_id

-- The return behind the loop.
unfoldable pub exhausted : ConfigDocument → Option Explained → Explained
exhausted config (some explained) = record explained {
  decision = prefix_ask_reason "Ask quick open: no later rule matched — " explained.decision;
}
exhausted config none = record {
  decision = default_target_decision config.default_target "default target (no rule matched)";
  explanation = none;
}

-- The return inside the loop, on a match that is not skipped.
unfoldable pub return_match : Option Explained → Explained → Explained
return_match none explained = explained
return_match (some skipped) explained = record explained {
  decision = prefix_reason "Ask quick open — " explained.decision;
}

-- `if skipped_ask.is_none() { skipped_ask = Some(explained) }`
unfoldable pub keep_first : Option Explained → Explained → Option Explained
keep_first none explained = some explained
keep_first (some skipped) explained = some skipped

module _ {Url : Type 0} (urls : UrlCrate Url) where
  -- The record that the loop builds for a rule that matched.
  unfoldable pub explain_rule : Rule → RoutingContext → Explained
  explain_rule rule ctx = record {
    decision = decide_from_action rule.then (some rule.id) rule.note;
    explanation = some (eval_tree urls rule.when ctx);
  }

  -- The loop over the rules.
  unfoldable pub walk_rules :
      ConfigDocument → RoutingContext → Bool → Option Explained → List Rule → Explained
  walk_rules config ctx pressed skipped [] = exhausted config skipped
  walk_rules config ctx pressed skipped (rule ∷ rules) =
      let next = walk_rules config ctx pressed skipped rules in
      let skip = walk_rules config ctx pressed (keep_first skipped (explain_rule rule ctx)) rules in
      if rule_active config.workspaces rule && matched (eval_tree urls rule.when ctx)
      then (if pressed && is_ask rule.then
          then skip
          else return_match skipped (explain_rule rule ctx))
      else next

  unfoldable pub evaluate_explained_with_ask_shortcut :
      ConfigDocument → RoutingContext → Bool → Explained
  evaluate_explained_with_ask_shortcut config ctx pressed =
      if config.settings.smart_routing_enabled
      then walk_rules config ctx pressed none config.rules
      else record {
        decision =
            default_target_decision config.default_target "smart routing disabled — default target";
        explanation = none;
      }

  unfoldable pub evaluate_explained : ConfigDocument → RoutingContext → Explained
  evaluate_explained config ctx = evaluate_explained_with_ask_shortcut config ctx false

  unfoldable pub evaluate : ConfigDocument → RoutingContext → RoutingDecision
  evaluate config ctx = (evaluate_explained config ctx).decision
