-- ===== src/Core/Routing/Matching.antt =====
-- crates/core/src/routing.rs: does a matcher tree hold of a context, with its trace.
use mathlib.Core.Option
use link_pilot.Prelude.{
  String, Bool, true, false, not, ◌&&◌, ◌||◌, Option, none, some, ◌==◌, ◌⧺◌, if◌then◌else◌, is_some,
  is_some_and, ok, err, all, any, is_empty, strip_prefix, strip_suffix, starts_with, ends_with,
  eq_ignore_ascii_case,
}
use link_pilot.Core.Rules.{MatcherTree, Matchers}
use link_pilot.Core.Routing.Context.{UrlCrate, RoutingContext, MatcherEval, Evals, evals, matched}

-- The leading `*.`, then a trailing `*`, then equality.
unfoldable pub glob_match : String → String → Bool
glob_match pattern value = elim (strip_prefix pattern "*.") [
  | some rest ↦ value == rest || ends_with value ("." ⧺ rest)
  | none ↦ elim (strip_suffix pattern "*") [
    | some rest ↦ starts_with value rest
    | none ↦ pattern == value
  ]
]

module _ {Url : Type 0} (urls : UrlCrate Url) where
  unfoldable pub match_host : String → String → Bool
  match_host pattern url = elim (urls.parse url) [
    | err _ ↦ false
    | ok parsed ↦ elim (urls.host_str parsed) [ none ↦ false | some host ↦ glob_match pattern host ]
  ]

  unfoldable pub match_path : String → String → Bool
  match_path pattern url = elim (urls.parse url) [
    | err _ ↦ false
    | ok parsed ↦ glob_match pattern (urls.path parsed)
  ]

-- `by_bundle` of the arm `SourceApp`: a non-empty identifier of the rule against the context's.
unfoldable pub by_bundle : Option String → Option String → Option Bool
by_bundle none ctx_bundle = none
by_bundle (some bid) ctx_bundle =
    if bid == "" then none else Option.map (λ b. eq_ignore_ascii_case b bid) ctx_bundle

-- The arm `SourceApp`, on the bundle identifier and the name of the context's source.
unfoldable pub match_source_app :
    String → Option String → (ctx_bundle app_name : Option String) → Bool
match_source_app name bundle_id ctx_bundle app_name =
    let by_name = is_some_and (λ n. eq_ignore_ascii_case n name) app_name in
    elim (by_bundle bundle_id ctx_bundle) [
      | some true ↦ true
      | some false ↦ if is_some ctx_bundle then false else by_name
      | none ↦ by_name
    ]

module _ {Url : Type 0} (urls : UrlCrate Url) where
  unfoldable mutual
    pub eval_tree : MatcherTree → RoutingContext → MatcherEval
    eval_tree MatcherTree.always ctx = MatcherEval.always true
    eval_tree (MatcherTree.all_of of) ctx =
        let children = eval_trees of ctx in
        MatcherEval.all_of
          (not (is_empty (evals children)) && all (λ c. matched c) (evals children)) children
    eval_tree (MatcherTree.any_of of) ctx =
        let children = eval_trees of ctx in
        MatcherEval.any_of (any (λ c. matched c) (evals children)) children
    eval_tree (MatcherTree.not_of of) ctx =
        let child = eval_tree of ctx in MatcherEval.not_of (not (matched child)) child
    eval_tree (MatcherTree.url_host pattern) ctx =
        MatcherEval.url_host (match_host urls pattern ctx.url) pattern
    eval_tree (MatcherTree.url_path pattern) ctx =
        MatcherEval.url_path (match_path urls pattern ctx.url) pattern
    eval_tree (MatcherTree.source_app name bundle_id) ctx =
        MatcherEval.source_app
          (match_source_app name bundle_id ctx.source.bundle_id ctx.source.app_name) name
    eval_tree (MatcherTree.source_browser browser) ctx =
        MatcherEval.source_browser
          (is_some_and (λ b. eq_ignore_ascii_case b browser) ctx.source.browser) browser
    eval_tree (MatcherTree.source_profile profile) ctx =
        MatcherEval.source_profile (is_some_and (λ p. p == profile) ctx.source.profile) profile

    -- `of.iter().map(|m| eval_tree(m, ctx)).collect()`
    pub eval_trees : Matchers → RoutingContext → Evals
    eval_trees Matchers.nil ctx = Evals.nil
    eval_trees (Matchers.cons m ms) ctx = Evals.cons (eval_tree m ctx) (eval_trees ms ctx)
