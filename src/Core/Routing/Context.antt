-- ===== src/Core/Routing/Context.antt =====
-- crates/core/src/routing.rs: contexts, decisions and match traces.
use link_pilot.Prelude.{String, Bool, Option, List, [], ◌∷◌, Result}
use link_pilot.Core.Browser.{BrowserTarget}
use link_pilot.Core.Rules.{RuleId}

-- What the program uses of the crate `url`: `Url::parse`, with the displayed error, `host_str` and
-- `path`.
pub record UrlCrate (Url : Type 0) : Type 0 where
  pub parse : String → Result Url String
  pub host_str : Url → Option String
  pub path : Url → String

pub data SourceKind : Type 0 where
  system browser_extension cli : SourceKind

pub record Source : Type 0 where
  pub kind : SourceKind
  pub app_name : Option String
  pub bundle_id : Option String
  pub browser : Option String
  pub profile : Option String

pub record Navigation : Type 0 where
  pub transition_type : Option String
  pub is_new_tab : Option Bool
  pub is_redirect : Option Bool
  pub opener_url : Option String
  pub referrer_url : Option String

pub record Environment : Type 0 where
  pub network : Option String
  pub vpn : Option String
  pub workspace : Option String

pub record RoutingContext : Type 0 where
  pub url : String
  pub source : Source
  pub navigation : Option Navigation
  pub environment : Option Environment

pub data RoutingDecision : Type 0 where
  open_with :
      (target : BrowserTarget) (matched_rule : Option RuleId) (reason : String) → RoutingDecision
  allow : (reason : String) → RoutingDecision
  ask_among : (candidates : List BrowserTarget) (reason : String) → RoutingDecision
  blocked : (reason : String) → RoutingDecision

-- `Evals` is the `Vec<MatcherEval>` of `All` and `Any`.
mutual
  pub data MatcherEval : Type 0 where
    always : (matched : Bool) → MatcherEval
    all_of any_of : (matched : Bool) → Evals → MatcherEval
    not_of : (matched : Bool) → MatcherEval → MatcherEval
    url_host url_path : (matched : Bool) (pattern : String) → MatcherEval
    source_app : (matched : Bool) (name : String) → MatcherEval
    source_browser source_profile : (matched : Bool) → String → MatcherEval

  pub data Evals : Type 0 where
    nil : Evals
    cons : MatcherEval → Evals → Evals

-- The evaluated children as a list.
abbrev pub evals : Evals → List MatcherEval
evals Evals.nil = []
evals (Evals.cons e es) = e ∷ evals es

pub record Explained : Type 0 where
  pub decision : RoutingDecision
  pub explanation : Option MatcherEval

-- `MatcherEval::matched`
unfoldable pub matched : MatcherEval → Bool
matched (MatcherEval.always m) = m
matched (MatcherEval.all_of m _) = m
matched (MatcherEval.any_of m _) = m
matched (MatcherEval.not_of m _) = m
matched (MatcherEval.url_host m _) = m
matched (MatcherEval.url_path m _) = m
matched (MatcherEval.source_app m _) = m
matched (MatcherEval.source_browser m _) = m
matched (MatcherEval.source_profile m _) = m
