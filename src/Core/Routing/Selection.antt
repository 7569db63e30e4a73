-- ===== src/Core/Routing/Selection.antt =====
-- When the loop of crates/core/src/routing.rs stops at a rule, in terms of what the rule says.
use mathlib.Core.Bool.{false≢true}
use mathlib.Core.Option
use link_pilot.Prelude.{
  String, ◌≡◌, ◌≢◌, ◌↔◌, ◌⊎◌, inl, inr, refl, sym, ◌∙◌, Bool, true, false, Option, none, some, List,
  ◌==◌, arith, Bool-cases, find, unwrap_or,
}
use link_pilot.Core.Rules.{Rule, Action, ask}
use link_pilot.Core.Config.{ConfigDocument, Workspace}
use link_pilot.Core.Routing.Context.{UrlCrate, RoutingContext}
use link_pilot.Core.Routing.Semantics.{Matches}
use link_pilot.Core.Routing.Traces.{eval_tree-Matches_iff}
use link_pilot.Core.Routing.Evaluate.{is_ask, workspace_enabled, rule_active}
use link_pilot.Core.Routing.FirstMatch.{applies, stops}

-- The workspace that a rule names, if it is there, is enabled.
abbrev pub WorkspaceOpen : List Workspace → Option String → Type 0
WorkspaceOpen workspaces none = Unit {0}
WorkspaceOpen workspaces (some id) =
    (w : Workspace) → find (λ v. v.id == id) workspaces ≡ some w → w.enabled ≡ true

enabled_iff :
    (o : Option Workspace)
    → (unwrap_or (Option.map (λ w. w.enabled) o) true ≡ true)
      ↔ ((w : Workspace) → o ≡ some w → w.enabled ≡ true)
enabled_iff none = (λ _ w found. cc, λ _. refl)
enabled_iff (some v) = (λ h w found. ground arith, λ h. h v refl)

workspace_enabled_iff :
    (workspaces : List Workspace) (id : Option String)
    → (workspace_enabled workspaces id ≡ true) ↔ WorkspaceOpen workspaces id
unfolding workspace_enabled
workspace_enabled_iff workspaces none = (λ _. tt, λ _. refl)
workspace_enabled_iff workspaces (some id) = enabled_iff (find (λ v. v.id == id) workspaces)

is_ask_iff : (a : Action) → (is_ask a ≡ true) ↔ (a ≡ ask)
is_ask_iff a = (λ h. ground arith, λ h. rw h)

module _ {Url : Type 0} (urls : UrlCrate Url) (config : ConfigDocument) (ctx : RoutingContext) where
  -- The rule is enabled, its workspace is open, and its matcher holds of the context.
  abbrev pub Applies : Rule → Type 0
  Applies r =
      (r.enabled ≡ true) × WorkspaceOpen config.workspaces r.workspace_id × Matches urls r.when ctx

  pub applies_iff : (r : Rule) → (applies urls config ctx r ≡ true) ↔ Applies r
  unfolding rule_active
  applies_iff r =
      let gate = workspace_enabled_iff config.workspaces r.workspace_id in
      let tree = eval_tree-Matches_iff urls ctx r.when in
      (
        λ h. (ground arith, gate.0 (ground arith), tree.0 (ground arith)),
        λ h. rw (h.0, gate.1 h.1, tree.1 h.2),
      )

  pub applies-eq-false_iff : (r : Rule) → (applies urls config ctx r ≡ false) ↔ (¬ Applies r)
  applies-eq-false_iff r = (
    λ h a. false≢true (sym h ∙ (applies_iff r).1 a),
    λ h. elim (Bool-cases (applies urls config ctx r)) [
      | inl here ↦ absurd (h ((applies_iff r).0 here))
      | inr gone ↦ gone
    ],
  )

  -- Under the held shortcut an `Ask` that applies does not stop the walk.
  abbrev pub Stops : Bool → Rule → Type 0
  Stops pressed r = Applies r × ((pressed ≡ false) ⊎ (r.then ≢ ask))

  pub stops_iff :
      (pressed : Bool) (r : Rule) → (stops urls config ctx pressed r ≡ true) ↔ Stops pressed r
  stops_iff pressed r =
      let here = applies_iff r in
      let asks = is_ask_iff r.then in
      (
        λ h. (here.0 (ground arith), ground (arith, asks)),
        λ h. rw (here.1 h.0) (ground (arith, asks, h.1)),
      )

  pub stops-eq-false_iff :
      (pressed : Bool) (r : Rule) → (stops urls config ctx pressed r ≡ false) ↔ (¬ Stops pressed r)
  stops-eq-false_iff pressed r = (
    λ h a. false≢true (sym h ∙ (stops_iff pressed r).1 a),
    λ h. elim (Bool-cases (stops urls config ctx pressed r)) [
      | inl here ↦ absurd (h ((stops_iff pressed r).0 here))
      | inr gone ↦ gone
    ],
  )
