-- ===== src/Core/Routing/Traces.antt =====
-- `eval_tree` of crates/core/src/routing.rs: its verdict and the trace that the Inspector shows.
use link_pilot.Prelude.{
  ◌≡◌, ◌↔◌, ◌≢◌, ◌⊎◌, inl, inr, refl, Bool, true, false, not, ◌||◌, arith, all, any,
}
use mathlib.Core.Bool.{false≢true}
use link_pilot.Core.Rules.{MatcherTree, Matchers}
use link_pilot.Core.Routing.Context.{UrlCrate, RoutingContext, MatcherEval, Evals, evals, matched}
use link_pilot.Core.Routing.Matching.{eval_tree, eval_trees}
use link_pilot.Core.Routing.Semantics.{
  Matches, EachMatches, SomeMatches, match_host_iff, match_path_iff, match_source_app_iff,
  Present-same_iff, Present-eq_iff,
}

not_iff : {A : Type 0} (b : Bool) → ((b ≡ true) ↔ A) → (not b ≡ true) ↔ (¬ A)
not_iff true h = (λ e. cc, λ refuted. absurd (refuted (h.0 refl)))
not_iff false h = (λ _ a. cc (h.1 a), λ _. refl)

or_iff :
    {A B : Type 0} (b c : Bool) → ((b ≡ true) ↔ A) → ((c ≡ true) ↔ B) → ((b || c) ≡ true) ↔ (A ⊎ B)
or_iff true c h k = (λ _. inl (h.0 refl), λ _. refl)
or_iff false c h k =
    (λ e. inr (k.0 e), elim [ inl a ↦ absurd (false≢true (h.1 a)) | inr b ↦ k.1 b ])

cons-ne-nil : {m : MatcherTree} {ms : Matchers} → Matchers.cons m ms ≢ Matchers.nil
cons-ne-nil e = cc

module _ {Url : Type 0} (urls : UrlCrate Url) (ctx : RoutingContext) where
  mutual
    unfolding eval_tree matched

    matched-eval_tree_iff :
        (t : MatcherTree) → (matched (eval_tree urls t ctx) ≡ true) ↔ Matches urls t ctx
    matched-eval_tree_iff MatcherTree.always = (λ _. tt, λ _. refl)
    matched-eval_tree_iff (MatcherTree.all_of Matchers.nil) = (λ h. cc, λ h. absurd (h.0 refl))
    matched-eval_tree_iff (MatcherTree.all_of (Matchers.cons m ms)) =
        let each = all-matched_iff (Matchers.cons m ms) in
        (λ h. (cons-ne-nil, each.0 h), λ h. each.1 h.1)
    matched-eval_tree_iff (MatcherTree.any_of of) = any-matched_iff of
    matched-eval_tree_iff (MatcherTree.not_of of) =
        not_iff (matched (eval_tree urls of ctx)) (matched-eval_tree_iff of)
    matched-eval_tree_iff (MatcherTree.url_host pattern) = match_host_iff urls pattern ctx.url
    matched-eval_tree_iff (MatcherTree.url_path pattern) = match_path_iff urls pattern ctx.url
    matched-eval_tree_iff (MatcherTree.source_app name bundle_id) =
        match_source_app_iff name bundle_id ctx.source.bundle_id ctx.source.app_name
    matched-eval_tree_iff (MatcherTree.source_browser browser) =
        Present-same_iff ctx.source.browser browser
    matched-eval_tree_iff (MatcherTree.source_profile profile) =
        Present-eq_iff ctx.source.profile profile

    all-matched_iff :
        (ms : Matchers)
        → (all (λ c. matched c) (evals (eval_trees urls ms ctx)) ≡ true) ↔ EachMatches urls ms ctx
    all-matched_iff Matchers.nil = (λ _. tt, λ _. refl)
    all-matched_iff (Matchers.cons m ms) =
        let head = matched-eval_tree_iff m in
        let rest = all-matched_iff ms in
        (λ h. (head.0 (ground arith), rest.0 (ground arith)), λ h. rw (head.1 h.0) (rest.1 h.1))

    any-matched_iff :
        (ms : Matchers)
        → (any (λ c. matched c) (evals (eval_trees urls ms ctx)) ≡ true) ↔ SomeMatches urls ms ctx
    any-matched_iff Matchers.nil = (λ h. cc, λ h. absurd h)
    any-matched_iff (Matchers.cons m ms) =
        or_iff (matched (eval_tree urls m ctx)) _ (matched-eval_tree_iff m) (any-matched_iff ms)

  -- The verdict of `eval_tree` is the meaning of the tree.
  pub eval_tree-Matches_iff :
      (t : MatcherTree) → (matched (eval_tree urls t ctx) ≡ true) ↔ Matches urls t ctx
  eval_tree-Matches_iff t = matched-eval_tree_iff t

  -- `Traces t e`: `e` has the shape of `t`, with the labels of `t`, and the flag at each node of `e`
  -- is the meaning of the subtree of `t` in its place.
  abbrev mutual
    pub Traces : MatcherTree → MatcherEval → Type 0
    Traces MatcherTree.always e = e ≡ MatcherEval.always true
    Traces (MatcherTree.all_of of) e =
        (b : Bool) × (es : Evals) × (e ≡ MatcherEval.all_of b es)
        × ((b ≡ true) ↔ Matches urls (MatcherTree.all_of of) ctx)
        × EachTraces of es
    Traces (MatcherTree.any_of of) e =
        (b : Bool) × (es : Evals) × (e ≡ MatcherEval.any_of b es)
        × ((b ≡ true) ↔ Matches urls (MatcherTree.any_of of) ctx)
        × EachTraces of es
    Traces (MatcherTree.not_of of) e =
        (b : Bool) × (c : MatcherEval) × (e ≡ MatcherEval.not_of b c)
        × ((b ≡ true) ↔ Matches urls (MatcherTree.not_of of) ctx)
        × Traces of c
    Traces (MatcherTree.url_host pattern) e =
        (b : Bool) × (e ≡ MatcherEval.url_host b pattern)
        × ((b ≡ true) ↔ Matches urls (MatcherTree.url_host pattern) ctx)
    Traces (MatcherTree.url_path pattern) e =
        (b : Bool) × (e ≡ MatcherEval.url_path b pattern)
        × ((b ≡ true) ↔ Matches urls (MatcherTree.url_path pattern) ctx)
    Traces (MatcherTree.source_app name bundle_id) e =
        (b : Bool) × (e ≡ MatcherEval.source_app b name)
        × ((b ≡ true) ↔ Matches urls (MatcherTree.source_app name bundle_id) ctx)
    Traces (MatcherTree.source_browser browser) e =
        (b : Bool) × (e ≡ MatcherEval.source_browser b browser)
        × ((b ≡ true) ↔ Matches urls (MatcherTree.source_browser browser) ctx)
    Traces (MatcherTree.source_profile profile) e =
        (b : Bool) × (e ≡ MatcherEval.source_profile b profile)
        × ((b ≡ true) ↔ Matches urls (MatcherTree.source_profile profile) ctx)

    pub EachTraces : Matchers → Evals → Type 0
    EachTraces Matchers.nil es = es ≡ Evals.nil
    EachTraces (Matchers.cons m ms) es =
        (e : MatcherEval) × (rest : Evals) × (es ≡ Evals.cons e rest)
        × Traces m e
        × EachTraces ms rest

  mutual
    unfolding eval_tree matched

    traces : (t : MatcherTree) → Traces t (eval_tree urls t ctx)
    traces MatcherTree.always = refl
    traces (MatcherTree.all_of of) =
        (_, _, refl, eval_tree-Matches_iff (MatcherTree.all_of of), each_traces of)
    traces (MatcherTree.any_of of) =
        (_, _, refl, eval_tree-Matches_iff (MatcherTree.any_of of), each_traces of)
    traces (MatcherTree.not_of of) =
        (_, _, refl, eval_tree-Matches_iff (MatcherTree.not_of of), traces of)
    traces (MatcherTree.url_host p) = (_, refl, eval_tree-Matches_iff (MatcherTree.url_host p))
    traces (MatcherTree.url_path p) = (_, refl, eval_tree-Matches_iff (MatcherTree.url_path p))
    traces (MatcherTree.source_app n b) =
        (_, refl, eval_tree-Matches_iff (MatcherTree.source_app n b))
    traces (MatcherTree.source_browser b) =
        (_, refl, eval_tree-Matches_iff (MatcherTree.source_browser b))
    traces (MatcherTree.source_profile p) =
        (_, refl, eval_tree-Matches_iff (MatcherTree.source_profile p))

    each_traces : (ms : Matchers) → EachTraces ms (eval_trees urls ms ctx)
    each_traces Matchers.nil = refl
    each_traces (Matchers.cons m ms) = (_, _, refl, traces m, each_traces ms)

  -- The trace of `eval_tree` has the tree's shape and labels, and the flag at every node is the
  -- meaning of the subtree there.
  pub eval_tree-Traces : (t : MatcherTree) → Traces t (eval_tree urls t ctx)
  eval_tree-Traces t = traces t
