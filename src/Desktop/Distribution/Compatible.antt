-- ===== src/Desktop/Distribution/Compatible.antt =====
-- Which documents pass the checks of the edition for the App Store
-- (apps/desktop/src-tauri/src/distribution.rs).
use link_pilot.Prelude.{◌≡◌, ◌↔◌, refl, false, none, List, [], All, ok, err, ◌>>◌, arith, ◌∷◌}
use link_pilot.Core.Browser.{BrowserTarget}
use link_pilot.Core.Rules.{MatcherTree, Matchers, Action, open_in, keep_source, ask, block, Rule}
use link_pilot.Core.Config.{ConfigDocument}
use link_pilot.Desktop.Distribution.{
  Checked, app_store, validate_store_target, validate_matcher, validate_matchers, validate_action,
  validate_rules, validate_settings, validate_document,
}

-- A target that names a browser and nothing else.
pub record IsBare (target : BrowserTarget) : Type 0 where
  pub no_profile : target.profile ≡ none
  pub no_workspace : target.workspace ≡ none
  pub not_incognito : target.incognito ≡ false
  pub same_window : target.new_window ≡ false

-- No matcher in the tree asks for the source's browser or profile.
abbrev mutual
  pub IsSourceless : MatcherTree → Type 0
  IsSourceless (MatcherTree.source_browser browser) = ⊥
  IsSourceless (MatcherTree.source_profile profile) = ⊥
  IsSourceless (MatcherTree.all_of of) = AreSourceless of
  IsSourceless (MatcherTree.any_of of) = AreSourceless of
  IsSourceless (MatcherTree.not_of of) = IsSourceless of
  IsSourceless MatcherTree.always = Unit {0}
  IsSourceless (MatcherTree.url_host pattern) = Unit {0}
  IsSourceless (MatcherTree.url_path pattern) = Unit {0}
  IsSourceless (MatcherTree.source_app name bundle_id) = Unit {0}

  pub AreSourceless : Matchers → Type 0
  AreSourceless Matchers.nil = Unit {0}
  AreSourceless (Matchers.cons m ms) = IsSourceless m × AreSourceless ms

abbrev pub IsPlain : Action → Type 0
IsPlain (open_in target) = IsBare target
IsPlain keep_source = ⊥
IsPlain ask = Unit {0}
IsPlain block = Unit {0}

abbrev pub IsStoreRule : Rule → Type 0
IsStoreRule rule = IsSourceless rule.when × IsPlain rule.then

pub record IsCompatible (doc : ConfigDocument) : Type 0 where
  pub default_bare : IsBare doc.default_target
  pub no_launch_agent : doc.settings.launch_at_login ≡ false
  pub no_update_checks : doc.settings.auto_check_updates ≡ false
  pub no_profile_orders : doc.settings.profile_orders ≡ []
  pub no_custom_browsers : doc.custom_browsers ≡ []
  pub rules_plain : All IsStoreRule doc.rules

-- Two checks in a row.
both_iff :
    {P Q : Type 0} (m k : Checked)
    → (m ≡ ok tt) ↔ P
    → (k ≡ ok tt) ↔ Q
    → ((m >> k) ≡ ok tt) ↔ (P × Q)
both_iff (ok u) k p q = (λ h. (p.0 refl, q.0 h), λ (a, b). q.1 b)
both_iff (err e) k p q = (λ h. cc, λ (a, b). p.1 a)

validate_store_target_iff :
    (target : BrowserTarget) → (validate_store_target target ≡ ok tt) ↔ IsBare target
unfolding validate_store_target
validate_store_target_iff target = (λ h. ground arith, λ b. ground arith)

mutual
  unfolding validate_matcher validate_matchers

  validate_matcher_iff : (m : MatcherTree) → (validate_matcher m ≡ ok tt) ↔ IsSourceless m
  validate_matcher_iff (MatcherTree.source_browser b) = (λ h. cc, λ h. absurd h)
  validate_matcher_iff (MatcherTree.source_profile p) = (λ h. cc, λ h. absurd h)
  validate_matcher_iff (MatcherTree.all_of of) = validate_matchers_iff of
  validate_matcher_iff (MatcherTree.any_of of) = validate_matchers_iff of
  validate_matcher_iff (MatcherTree.not_of of) = validate_matcher_iff of
  validate_matcher_iff MatcherTree.always = (λ h. tt, λ h. refl)
  validate_matcher_iff (MatcherTree.url_host p) = (λ h. tt, λ h. refl)
  validate_matcher_iff (MatcherTree.url_path p) = (λ h. tt, λ h. refl)
  validate_matcher_iff (MatcherTree.source_app n b) = (λ h. tt, λ h. refl)

  validate_matchers_iff : (ms : Matchers) → (validate_matchers ms ≡ ok tt) ↔ AreSourceless ms
  validate_matchers_iff Matchers.nil = (λ h. tt, λ h. refl)
  validate_matchers_iff (Matchers.cons m ms) =
      both_iff (validate_matcher m) (validate_matchers ms) (validate_matcher_iff m)
        (validate_matchers_iff ms)

validate_action_iff : (a : Action) → (validate_action a ≡ ok tt) ↔ IsPlain a
unfolding validate_action
validate_action_iff (open_in target) = validate_store_target_iff target
validate_action_iff keep_source = (λ h. cc, λ h. absurd h)
validate_action_iff ask = (λ h. tt, λ h. refl)
validate_action_iff block = (λ h. tt, λ h. refl)

validate_rules_iff : (rules : List Rule) → (validate_rules rules ≡ ok tt) ↔ All IsStoreRule rules
unfolding validate_rules
validate_rules_iff [] = (λ h. tt, λ h. refl)
validate_rules_iff (rule ∷ rules) =
    let checks =
      both_iff (validate_matcher rule.when) (validate_action rule.then >> validate_rules rules)
        (validate_matcher_iff rule.when)
        (both_iff (validate_action rule.then) (validate_rules rules) (validate_action_iff rule.then)
          (validate_rules_iff rules)) in
    (
      λ h. (((checks.0 h).0, (checks.0 h).1.0), (checks.0 h).1.1),
      λ c. checks.1 (c.0.0, (c.0.1, c.1)),
    )

-- The settings and the custom browsers of a document for the App Store.
abbrev AllowsSettings : ConfigDocument → Type 0
AllowsSettings doc =
    (doc.settings.launch_at_login ≡ false)
    × (doc.settings.auto_check_updates ≡ false)
    × (doc.settings.profile_orders ≡ [])
    × (doc.custom_browsers ≡ [])

validate_settings_iff :
    (doc : ConfigDocument) → (validate_settings doc ≡ ok tt) ↔ AllowsSettings doc
unfolding validate_settings
validate_settings_iff doc = (λ h. ground arith, λ h. ground arith)

-- In the edition for the App Store a document is accepted exactly when it is compatible: bare
-- targets, no setting that the edition lacks, no custom browser, and rules that ask for no source
-- browser or profile and do not keep the source.
pub validate_document-IsCompatible_iff :
    (doc : ConfigDocument) → (validate_document app_store doc ≡ ok tt) ↔ IsCompatible doc
unfolding validate_document
validate_document-IsCompatible_iff doc =
    let checks =
      both_iff (validate_store_target doc.default_target)
        (validate_settings doc >> validate_rules doc.rules)
        (validate_store_target_iff doc.default_target)
        (both_iff (validate_settings doc) (validate_rules doc.rules) (validate_settings_iff doc)
          (validate_rules_iff doc.rules)) in
    (
      λ h.
          let c = checks.0 h in
          record {
            default_bare = c.0;
            no_launch_agent = c.1.0.0;
            no_update_checks = c.1.0.1;
            no_profile_orders = c.1.0.2;
            no_custom_browsers = c.1.0.3;
            rules_plain = c.1.1;
          },
      λ c. checks.1 (
        c.default_bare,
        (
          (c.no_launch_agent, c.no_update_checks, c.no_profile_orders, c.no_custom_browsers),
          c.rules_plain,
        ),
      ),
    )
