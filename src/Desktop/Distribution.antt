-- ===== src/Desktop/Distribution.antt =====
-- apps/desktop/src-tauri/src/distribution.rs: what the edition for the App Store refuses, with
-- `validate_target` of crates/platform-mac/src/store.rs. The edition, a feature of the build, is an
-- argument.
pub mod Compatible
use link_pilot.Prelude.{
  String, not, ◌||◌, List, [], ◌∷◌, Result, ok, err, ◌>>◌, if◌then◌else◌, is_some, is_empty, ◌⧺◌,
}
use link_pilot.Core.Browser.{BrowserTarget}
use link_pilot.Core.Rules.{MatcherTree, Matchers, Action, open_in, keep_source, Rule}
use link_pilot.Core.Config.{ConfigDocument}

pub data Edition : Type 0 where
  direct app_store : Edition

abbrev pub Checked : Type 0
Checked = Result (Unit {0}) String

unfoldable pub require_direct : Edition → String → Checked
require_direct direct feature = ok tt
require_direct app_store feature = err (feature ⧺ " is unavailable in the App Store edition")

-- `validate_target` of the store provider.
unfoldable pub validate_store_target : BrowserTarget → Checked
validate_store_target target =
    if is_some target.profile
      || (target.incognito || (target.new_window || is_some target.workspace))
    then err
        "The App Store edition supports browser targets without a profile, private mode, workspace or new-window flag"
    else ok tt

unfoldable pub validate_target : Edition → BrowserTarget → Checked
validate_target direct target = ok tt
validate_target app_store target = validate_store_target target

abbrev pub no_source_matching : String
no_source_matching =
    "Source browser/profile matching requires browser integration and is unavailable in the App Store edition"

unfoldable mutual
  pub validate_matcher : MatcherTree → Checked
  validate_matcher (MatcherTree.source_browser browser) = err no_source_matching
  validate_matcher (MatcherTree.source_profile profile) = err no_source_matching
  validate_matcher (MatcherTree.all_of of) = validate_matchers of
  validate_matcher (MatcherTree.any_of of) = validate_matchers of
  validate_matcher (MatcherTree.not_of of) = validate_matcher of
  validate_matcher MatcherTree.always = ok tt
  validate_matcher (MatcherTree.url_host pattern) = ok tt
  validate_matcher (MatcherTree.url_path pattern) = ok tt
  validate_matcher (MatcherTree.source_app name bundle_id) = ok tt

  -- `try_for_each`
  pub validate_matchers : Matchers → Checked
  validate_matchers Matchers.nil = ok tt
  validate_matchers (Matchers.cons m ms) = validate_matcher m >> validate_matchers ms

unfoldable pub validate_action : Action → Checked
validate_action (open_in target) = validate_store_target target
validate_action keep_source =
    err "Keep-source requires browser integration and is unavailable in the App Store edition"
validate_action _ = ok tt

unfoldable pub validate_rules : List Rule → Checked
validate_rules [] = ok tt
validate_rules (rule ∷ rules) = do
  validate_matcher rule.when
  validate_action rule.then
  validate_rules rules

unfoldable pub validate_settings : ConfigDocument → Checked
validate_settings doc =
    if doc.settings.launch_at_login
      || (doc.settings.auto_check_updates
          || (not (is_empty doc.settings.profile_orders) || not (is_empty doc.custom_browsers)))
    then err
        "App Store settings cannot enable LaunchAgents, external updates, profile ordering or custom browsers"
    else ok tt

unfoldable pub validate_document : Edition → ConfigDocument → Checked
validate_document direct doc = ok tt
validate_document app_store doc = do
  validate_store_target doc.default_target
  validate_settings doc
  validate_rules doc.rules
