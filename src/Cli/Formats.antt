-- ===== src/Cli/Formats.antt =====
-- The texts that `lpt` prints (crates/cli/src/main.rs). `Widths` has a theorem.
use Prim.Native.String.{count}
use link_pilot.Prelude.{
  ℕ, zero, suc, String, Bool, true, false, Option, none, some, List, [], ◌∷◌, Result, ok, err, leb,
  ltb, if◌then◌else◌, unwrap_or, ◌⧺◌, ◌-◌, ◌/◌,
}
use link_pilot.Core.Browser.{BrowserTarget}
use link_pilot.Core.Rules.{MatcherTree, Matchers, Action, open_in, keep_source, ask, block}
use link_pilot.Core.Routing.Context.{
  UrlCrate, RoutingDecision, open_with, allow, ask_among, blocked,
}
pub mod Widths

-- `of.iter().map(describe_when).collect().join(separator)`
unfoldable mutual
  pub describe_when : MatcherTree → String
  describe_when MatcherTree.always = "always"
  describe_when (MatcherTree.url_host pattern) = "host " ⧺ pattern
  describe_when (MatcherTree.url_path pattern) = "path " ⧺ pattern
  describe_when (MatcherTree.source_app name bundle_id) = "from app " ⧺ name
  describe_when (MatcherTree.source_browser browser) = "from browser " ⧺ browser
  describe_when (MatcherTree.source_profile profile) = "from profile " ⧺ profile
  describe_when (MatcherTree.all_of of) = describe_joined of " AND "
  describe_when (MatcherTree.any_of of) = describe_joined of " OR "
  describe_when (MatcherTree.not_of of) = "NOT (" ⧺ (describe_when of ⧺ ")")

  pub describe_joined : Matchers → String → String
  describe_joined Matchers.nil separator = ""
  describe_joined (Matchers.cons m ms) separator = describe_when m ⧺ describe_more ms separator

  pub describe_more : Matchers → String → String
  describe_more Matchers.nil separator = ""
  describe_more (Matchers.cons m ms) separator =
      separator ⧺ (describe_when m ⧺ describe_more ms separator)

-- `profile.as_deref().map(|p| format!("/{p}")).unwrap_or_default()`
abbrev slash_profile : Option String → String
slash_profile none = ""
slash_profile (some p) = "/" ⧺ p

abbrev flags_of : (incognito new_window : Bool) → String
flags_of true true = " (incognito,new-window)"
flags_of true false = " (incognito)"
flags_of false true = " (new-window)"
flags_of false false = ""

unfoldable pub describe_action : Action → String
describe_action (open_in target) =
    "open → "
    ⧺ (target.browser
        ⧺ (slash_profile target.profile ⧺ flags_of target.incognito target.new_window))
describe_action keep_source = "keep-source"
describe_action ask = "ask"
describe_action block = "block"

-- `s.chars().take(n).collect()`
unfoldable pub take_chars : ℕ → String → String
take_chars zero s = ""
take_chars (suc n) String.[] = ""
take_chars (suc n) (String.◌∷◌ c s) = String.◌∷◌ c (take_chars n s)

unfoldable pub short_id : String → String
short_id uuid = take_chars 8 uuid

unfoldable pub truncate : String → ℕ → String
truncate s max = if leb (count s) max then s else take_chars (max - 1) s ⧺ "…"

unfoldable pub format_decision : RoutingDecision → String
format_decision (open_with target rule reason) =
    "open → " ⧺ (target.browser ⧺ slash_profile target.profile)
format_decision (allow reason) = "allow"
format_decision (blocked reason) = "block"
format_decision (ask_among candidates reason) = "ask"

-- `now` is the clock in milliseconds, and `show` the decimal text of a number.
unfoldable pub format_relative : (ℕ → String) → (now ts : ℕ) → String
format_relative show now ts =
    let delta = (now - ts) / 1000 in
    if ltb delta 60
    then show delta ⧺ "s ago"
    else if ltb delta 3600
    then show (delta / 60) ⧺ "m ago"
    else if ltb delta 86400
    then show (delta / 3600) ⧺ "h ago"
    else show (delta / 86400) ⧺ "d ago"

unfoldable pub url_host : {Url : Type 0} → UrlCrate Url → String → String
url_host urls url = elim (urls.parse url) [ ok u ↦ unwrap_or (urls.host_str u) url | err e ↦ url ]
