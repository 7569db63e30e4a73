-- ===== src/Cli/Building.antt =====
-- What the flags of `lpt rules add` ask for (crates/cli/src/main.rs, `build_matcher`).
use link_pilot.Prelude.{
  String, subst, ◌≡◌, ◌≢◌, ◌↔◌, refl, Option, none, some, List, [], ◌∷◌, ◌++◌, All, Result, ok,
  arith, Bool, true, false, ◌||◌, is_some, Bool-cases, inl, inr,
}
use link_pilot.Prelude.Anyhow.{Anyhow}
use link_pilot.Core.Rules.{MatcherTree}
use link_pilot.Core.Routing.Context.{UrlCrate, RoutingContext}
use link_pilot.Core.Routing.Semantics.{Matches, EachMatches}
use link_pilot.Cli.Rules.{
  RuleAddArgs, Texts, push_some, clauses_of, to_matchers, combine, build_matcher,
}

-- The flag is not given, or what it asks for holds.
abbrev pub Given : (String → Type 0) → Option String → Type 0
Given P none = Unit {0}
Given P (some s) = P s

module _ {Url : Type 0} (urls : UrlCrate Url) (ctx : RoutingContext) where
  abbrev Holds : MatcherTree → Type 0
  Holds m = Matches urls m ctx

  -- Every flag that is given asks for something that holds.
  abbrev pub Asked : RuleAddArgs → Type 0
  Asked a =
      Given (λ p. Matches urls (MatcherTree.url_host p) ctx) a.host
      × Given (λ p. Matches urls (MatcherTree.url_path p) ctx) a.path
      × Given (λ n. Matches urls (MatcherTree.source_app n a.from_app_bundle_id) ctx) a.from_app
      × Given (λ b. Matches urls (MatcherTree.source_browser b) ctx) a.from_browser
      × Given (λ p. Matches urls (MatcherTree.source_profile p) ctx) a.from_profile

  each_iff : (ms : List MatcherTree) → EachMatches urls (to_matchers ms) ctx ↔ All Holds ms
  each_iff [] = (λ h. tt, λ h. tt)
  each_iff (m ∷ ms) = (λ h. (h.0, (each_iff ms).0 h.1), λ h. (h.0, (each_iff ms).1 h.1))

  combine_iff :
      (ms : List MatcherTree) {m : MatcherTree} → combine ms ≡ ok m → Holds m ↔ All Holds ms
  unfolding combine
  combine_iff [] h = cc
  combine_iff (n ∷ []) {m} h =
      let same : n ≡ m = cc in
      subst (λ t. Holds t ↔ All Holds (n ∷ [])) same ((λ k. (k, tt)), (λ k. k.0))
  combine_iff (n ∷ o ∷ ms) {m} h =
      let same : MatcherTree.all_of (to_matchers (n ∷ o ∷ ms)) ≡ m = cc in
      subst (λ t. Holds t ↔ All Holds (n ∷ o ∷ ms)) same
        ((λ k. (each_iff (n ∷ o ∷ ms)).0 k.1), (λ k. (λ e. cc, (each_iff (n ∷ o ∷ ms)).1 k)))

  push_iff :
      (f : String → MatcherTree) (o : Option String) (ms : List MatcherTree)
      → All Holds (push_some f o ++ ms) ↔ (Given (λ s. Holds (f s)) o × All Holds ms)
  push_iff f none ms = (λ h. (tt, h), λ h. h.1)
  push_iff f (some s) ms = (λ h. h, λ h. h)

  last_iff :
      (f : String → MatcherTree) (o : Option String)
      → All Holds (push_some f o) ↔ Given (λ s. Holds (f s)) o
  last_iff f none = (λ h. tt, λ h. tt)
  last_iff f (some s) = (λ h. h.0, λ h. (h, tt))

  clauses_of_iff : (a : RuleAddArgs) → All Holds (clauses_of a) ↔ Asked a
  unfolding clauses_of
  clauses_of_iff a =
      let app = λ (name : String). MatcherTree.source_app name a.from_app_bundle_id in
      let profiles = push_some (λ p. MatcherTree.source_profile p) a.from_profile in
      let browsers = push_some (λ b. MatcherTree.source_browser b) a.from_browser ++ profiles in
      let apps = push_some app a.from_app ++ browsers in
      let paths = push_some (λ p. MatcherTree.url_path p) a.path ++ apps in
      let host = push_iff (λ p. MatcherTree.url_host p) a.host paths in
      let path = push_iff (λ p. MatcherTree.url_path p) a.path apps in
      let from_app = push_iff app a.from_app browsers in
      let browser = push_iff (λ b. MatcherTree.source_browser b) a.from_browser profiles in
      let profile = last_iff (λ p. MatcherTree.source_profile p) a.from_profile in
      (
        λ h.
            let (h1, r1) = host.0 h in
            let (h2, r2) = path.0 r1 in
            let (h3, r3) = from_app.0 r2 in
            let (h4, r4) = browser.0 r3 in (h1, h2, h3, h4, profile.0 r4),
        λ k. host.1 (k.0, path.1 (k.1, from_app.1 (k.2, browser.1 (k.3, profile.1 k.4)))),
      )

-- Some flag is given.
abbrev pub any_flag : RuleAddArgs → Bool
any_flag a =
    is_some a.host
    || (is_some a.path
        || (is_some a.from_app || (is_some a.from_browser || is_some a.from_profile)))

clauses_of-nil : (a : RuleAddArgs) → any_flag a ≡ false → clauses_of a ≡ []
unfolding clauses_of
clauses_of-nil a h = ground arith

clauses_of-ne_nil : (a : RuleAddArgs) → any_flag a ≡ true → clauses_of a ≢ []
unfolding clauses_of
clauses_of-ne_nil a h e = ground arith

combine-nil : (ms : List MatcherTree) → ms ≢ [] → (m : MatcherTree) × (combine ms ≡ ok m)
unfolding combine
combine-nil [] h = absurd (h refl)
combine-nil (m ∷ []) h = (m, refl)
combine-nil (m ∷ n ∷ ms) h = (MatcherTree.all_of (to_matchers (m ∷ n ∷ ms)), refl)

combine_err : {m : MatcherTree} → combine [] ≢ ok m
unfolding combine
combine_err h = cc

-- What the matcher of a new rule is, by the flags.
pub record Built (a : RuleAddArgs) (r : Result MatcherTree Anyhow) : Type 1 where
  -- A matcher is made exactly when some flag is given.
  pub made : (any_flag a ≡ true) ↔ ((m : MatcherTree) × (r ≡ ok m))
  -- It matches a link exactly when all that the given flags ask for holds.
  pub meant :
      {Url : Type 0} (urls : UrlCrate Url) (ctx : RoutingContext) (m : MatcherTree)
      → r ≡ ok m
      → Matches urls m ctx ↔ Asked urls ctx a

-- Without `--when-json` a matcher is made exactly when a flag is given, and it matches a link
-- exactly when all that the given flags ask for holds.
pub build_matcher-Built :
    (texts : Texts) (a : RuleAddArgs) → a.when_json ≡ none → Built a (build_matcher texts a)
unfolding build_matcher clauses_of
build_matcher-Built texts a plain = rw plain (record {
  made = (
    λ h. combine-nil (clauses_of a) (clauses_of-ne_nil a h),
    λ (m, h). elim (Bool-cases (any_flag a)) [
      | inl given ↦ given
      | inr bare ↦ absurd (combine_err (rw (clauses_of-nil a bare) at h))
    ],
  );
  meant = λ {Url} urls ctx m h. (
    λ k. (clauses_of_iff urls ctx a).0 ((combine_iff urls ctx (clauses_of a) h).0 k),
    λ k. (combine_iff urls ctx (clauses_of a) h).1 ((clauses_of_iff urls ctx a).1 k),
  );
})
