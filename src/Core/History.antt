-- ===== src/Core/History.antt =====
-- crates/core/src/history.rs: the ring buffer of recent decisions.
pub mod Recency
use link_pilot.Prelude.{
  ℕ, Bool, Option, none, some, List, [], ◌∷◌, ◌++◌, reverse, take, length, eqb, if◌then◌else◌,
  is_empty,
}
use mathlib.Core.List.{tail}
use link_pilot.Core.Rules.{RuleId}
use link_pilot.Core.Routing.Context.{RoutingContext, RoutingDecision, open_with, MatcherEval}

abbrev pub default_capacity : ℕ
default_capacity = 1000

pub record RouteRecord : Type 0 where
  pub timestamp_ms : ℕ
  pub context : RoutingContext
  pub decision : RoutingDecision
  pub matched_rule : Option RuleId
  pub explanation : Option MatcherEval

-- The rule named by an `Open`.
unfoldable pub rule_of : RoutingDecision → Option RuleId
rule_of (open_with target matched_rule reason) = matched_rule
rule_of _ = none

-- `RouteRecord::with_explanation`; the first argument is what `now_ms` answers.
unfoldable pub with_explanation :
    ℕ → RoutingContext → RoutingDecision → Option MatcherEval → RouteRecord
with_explanation now context decision explanation = record {
  timestamp_ms = now;
  context = context;
  decision = decision;
  matched_rule = rule_of decision;
  explanation = explanation;
}

-- The deque has its oldest record first.
pub record RouteHistory : Type 0 where
  pub capacity : ℕ
  pub inner : List RouteRecord

abbrev pub with_capacity : ℕ → RouteHistory
with_capacity capacity = record { capacity = capacity; inner = [] }

-- `RouteHistory::new`
abbrev pub new_history : RouteHistory
new_history = with_capacity default_capacity

unfoldable pub log : RouteRecord → RouteHistory → RouteHistory
log r h =
    let kept = if eqb (length h.inner) h.capacity then tail h.inner else h.inner in
    record h { inner = kept ++ r ∷ [] }

unfoldable pub recent : ℕ → RouteHistory → List RouteRecord
recent limit h = take limit (reverse h.inner)

-- `RouteHistory::len`
unfoldable pub len : RouteHistory → ℕ
len h = length h.inner
