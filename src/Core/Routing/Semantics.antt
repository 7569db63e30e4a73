-- ===== src/Core/Routing/Semantics.antt =====
-- What the matchers of crates/core/src/rules.rs mean, and the traces of `eval_tree` against it.
use link_pilot.Prelude.{
  String, ◌≡◌, ◌↔◌, ◌≢◌, ◌⊎◌, inl, inr, true, Option, none, some, map, arith, eq_iff, ok, codes,
  ascii_lower, is_some_and, ◌==◌, eq_ignore_ascii_case, eq_ignore_ascii_case_iff, Option-cases,
  Result-cases,
}
use mathlib.Core.Bool.{false≢true}
use link_pilot.Core.Rules.{MatcherTree, Matchers}
use link_pilot.Core.Routing.Context.{UrlCrate, RoutingContext}
use link_pilot.Core.Routing.Matching.{match_host, match_path, by_bundle, match_source_app}
use link_pilot.Core.Routing.Globs.{Globs, glob_match_iff}

-- Equal up to the case of ASCII letters.
abbrev pub SameLetters : String → String → Type 0
SameLetters s t = map ascii_lower (codes s) ≡ map ascii_lower (codes t)

-- The optional text is there and satisfies `P`.
abbrev pub Present : (String → Type 0) → Option String → Type 0
Present P none = ⊥
Present P (some s) = P s

-- The bundle identifiers decide where the rule has a non-empty one and the context has one; the
-- display name decides otherwise.
abbrev pub AppMatches : String → Option String → (ctx_bundle app_name : Option String) → Type 0
AppMatches name none ctx_bundle app_name = Present (λ n. SameLetters n name) app_name
AppMatches name (some bid) ctx_bundle app_name =
    ((bid ≢ "") × Present (λ b. SameLetters b bid) ctx_bundle)
    ⊎ (((bid ≡ "") ⊎ (ctx_bundle ≡ none)) × Present (λ n. SameLetters n name) app_name)

module _ {Url : Type 0} (urls : UrlCrate Url) where
  abbrev pub HostMatches : String → String → Type 0
  HostMatches pattern url =
      (u : Url) × (host : String) × (urls.parse url ≡ ok u)
      × (urls.host_str u ≡ some host)
      × Globs pattern host

  abbrev pub PathMatches : String → String → Type 0
  PathMatches pattern url = (u : Url) × (urls.parse url ≡ ok u) × Globs pattern (urls.path u)

  -- `Matches tree ctx`: the tree holds of the context. An empty `All` does not hold.
  abbrev mutual
    pub Matches : MatcherTree → RoutingContext → Type 0
    Matches MatcherTree.always ctx = Unit {0}
    Matches (MatcherTree.all_of of) ctx = (of ≢ Matchers.nil) × EachMatches of ctx
    Matches (MatcherTree.any_of of) ctx = SomeMatches of ctx
    Matches (MatcherTree.not_of of) ctx = ¬ Matches of ctx
    Matches (MatcherTree.url_host pattern) ctx = HostMatches pattern ctx.url
    Matches (MatcherTree.url_path pattern) ctx = PathMatches pattern ctx.url
    Matches (MatcherTree.source_app name bundle_id) ctx =
        AppMatches name bundle_id ctx.source.bundle_id ctx.source.app_name
    Matches (MatcherTree.source_browser browser) ctx =
        Present (λ b. SameLetters b browser) ctx.source.browser
    Matches (MatcherTree.source_profile profile) ctx = Present (λ p. p ≡ profile) ctx.source.profile

    pub EachMatches : Matchers → RoutingContext → Type 0
    EachMatches Matchers.nil ctx = Unit {0}
    EachMatches (Matchers.cons m ms) ctx = Matches m ctx × EachMatches ms ctx

    pub SomeMatches : Matchers → RoutingContext → Type 0
    SomeMatches Matchers.nil ctx = ⊥
    SomeMatches (Matchers.cons m ms) ctx = Matches m ctx ⊎ SomeMatches ms ctx

  pub match_host_iff :
      (pattern url : String) → (match_host urls pattern url ≡ true) ↔ HostMatches pattern url
  unfolding match_host
  match_host_iff pattern url = (
    λ h. elim (Result-cases (urls.parse url)) [
      | inr (e, failed) ↦ absurd (false≢true (rw (failed, match_host) at h))
      | inl (u, parsed) ↦ elim (Option-cases (urls.host_str u)) [
        | inl none_there ↦ absurd (false≢true (rw (parsed, none_there, match_host) at h))
        | inr (host, there) ↦ (
          u,
          host,
          parsed,
          there,
          (glob_match_iff pattern host).0 (rw (parsed, there, match_host) at h),
        )
      ]
    ],
    λ m. rw (m.2, m.3, match_host) ((glob_match_iff pattern m.1).1 m.4),
  )

  pub match_path_iff :
      (pattern url : String) → (match_path urls pattern url ≡ true) ↔ PathMatches pattern url
  unfolding match_path
  match_path_iff pattern url = (
    λ h. elim (Result-cases (urls.parse url)) [
      | inr (e, failed) ↦ absurd (false≢true (rw (failed, match_path) at h))
      | inl (u, parsed) ↦
          (u, parsed, (glob_match_iff pattern (urls.path u)).0 (rw (parsed, match_path) at h))
    ],
    λ m. rw (m.1, match_path) ((glob_match_iff pattern (urls.path m.0)).1 m.2),
  )

pub Present-same_iff :
    (o : Option String) (t : String)
    → (is_some_and (λ s. eq_ignore_ascii_case s t) o ≡ true) ↔ Present (λ s. SameLetters s t) o
Present-same_iff none t = (λ h. false≢true h, λ h. absurd h)
Present-same_iff (some s) t = eq_ignore_ascii_case_iff s t

pub Present-eq_iff :
    (o : Option String) (t : String) → (is_some_and (λ s. s == t) o ≡ true) ↔ Present (λ s. s ≡ t) o
Present-eq_iff none t = (λ h. false≢true h, λ h. absurd h)
Present-eq_iff (some s) t = eq_iff s t

pub match_source_app_iff :
    (name : String) (bundle_id ctx_bundle app_name : Option String)
    → (match_source_app name bundle_id ctx_bundle app_name ≡ true)
      ↔ AppMatches name bundle_id ctx_bundle app_name
unfolding match_source_app by_bundle
match_source_app_iff name none ctx_bundle app_name = Present-same_iff app_name name
match_source_app_iff name (some bid) none app_name =
    let by_name = Present-same_iff app_name name in ground (arith, by_name, eq_iff bid "")
match_source_app_iff name (some bid) (some b) app_name =
    let by_name = Present-same_iff app_name name in
    let by_id = eq_ignore_ascii_case_iff b bid in ground (arith, by_name, by_id, eq_iff bid "")
