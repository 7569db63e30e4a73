-- ===== src/Core/Rules.antt =====
-- crates/core/src/rules.rs: rules, their matchers and their actions.
use link_pilot.Prelude.{ℕ, String, Bool, Option, List, [], ◌∷◌}
use link_pilot.Core.Browser.{BrowserTarget}

-- `Uuid`, as its 128-bit number.
abbrev pub Uuid : Type 0
Uuid = ℕ

abbrev pub RuleId : Type 0
RuleId = Uuid

pub data RuleSource : Type 0 where
  gui file ts_compiled : RuleSource

-- `Matchers` is the `Vec<MatcherTree>` of `All` and `Any`.
mutual
  pub data MatcherTree : Type 0 where
    always : MatcherTree
    all_of any_of : Matchers → MatcherTree
    not_of : MatcherTree → MatcherTree
    url_host url_path : (pattern : String) → MatcherTree
    source_app : (name : String) (bundle_id : Option String) → MatcherTree
    source_browser source_profile : String → MatcherTree

  pub data Matchers : Type 0 where
    nil : Matchers
    cons : MatcherTree → Matchers → Matchers

-- The matchers as a list.
abbrev pub matchers : Matchers → List MatcherTree
matchers nil = []
matchers (cons m ms) = m ∷ matchers ms

pub data Action : Type 0 where
  open_in : (target : BrowserTarget) → Action
  keep_source ask block : Action

pub record Rule : Type 0 where
  pub id : RuleId
  pub enabled : Bool
  pub when : MatcherTree
  pub then : Action
  pub source : RuleSource
  pub note : Option String
  pub workspace_id : Option String
