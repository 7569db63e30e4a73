-- ===== src/Tests/Routing.antt =====
-- Routing at concrete rules and addresses.
use link_pilot.Prelude.{◌≡◌, ◌↔◌, refl, true, some, strip_prefix, ends_with}
use link_pilot.Core.Rules.{MatcherTree, Matchers}
use link_pilot.Core.Browser.{target_of}
use link_pilot.Core.Routing.Context.{open_with, Explained, MatcherEval, matched}
use link_pilot.Core.Routing.Matching.{glob_match, match_host, eval_tree}
use link_pilot.Core.Routing.Globs.{Globs, glob_match_iff}
use link_pilot.Core.Routing.Traces.{Traces, eval_tree-Traces}
use link_pilot.Core.Routing.Evaluate.{evaluate_explained_with_ask_shortcut}
use link_pilot.Core.Routing.Winner.{Decides, evaluate-Decides_iff}
use link_pilot.Tests.Data.{web, context, config}

abbrev quick_open : Explained
quick_open = record {
  decision = open_with (target_of "chrome") (some 2) "Ask quick open — host '*.github.com'";
  explanation = some (MatcherEval.url_host true "*.github.com");
}

evaluate-Decides_iff_example :
    (evaluate_explained_with_ask_shortcut web config (context "https://api.github.com") true
      ≡ quick_open)
    ↔ Decides web config (context "https://api.github.com") true quick_open
evaluate-Decides_iff_example =
    evaluate-Decides_iff web config (context "https://api.github.com") true quick_open

glob_match_iff_example :
    (glob_match "*.github.com" "api.github.com" ≡ true) ↔ Globs "*.github.com" "api.github.com"
glob_match_iff_example = glob_match_iff "*.github.com" "api.github.com"

abbrev tree : MatcherTree
tree = MatcherTree.all_of (
    Matchers.cons (MatcherTree.url_host "*.github.com")
      (Matchers.cons (MatcherTree.not_of (MatcherTree.source_browser "arc")) Matchers.nil))

eval_tree-Traces_example :
    Traces web
      (context "https://github.com")
      tree
      (eval_tree web tree (context "https://github.com"))
eval_tree-Traces_example = eval_tree-Traces web (context "https://github.com") tree

glob_test : glob_match "*.github.com" "api.github.com" ≡ true
unfolding glob_match strip_prefix ends_with
glob_test = refl

tree_test : matched (eval_tree web tree (context "https://github.com")) ≡ true
unfolding eval_tree matched match_host glob_match strip_prefix
tree_test = refl
