-- ===== src/Cli/Rules.antt =====
-- The commands of crates/cli/src/main.rs on rules.
use link_pilot.Prelude.{
  ℕ, String, Bool, not, Option, none, some, List, [], ◌∷◌, ◌++◌, filter, Result, ok, err, map_err,
  ◌>>=◌, if◌then◌else◌, eqb, leb, ◌⧺◌, starts_with, length, ◌+◌, ◌-◌,
}
use mathlib.Core.Option
use link_pilot.Prelude.Anyhow.{Anyhow, anyhow}
use link_pilot.Prelude.Updates.{position, remove, insert_at, update_first}
use link_pilot.Core.Files.{FilePath}
use link_pilot.Core.Browser.{BrowserTarget, target_of, with_profile}
use link_pilot.Core.Rules.{Uuid, RuleId, Rule, RuleSource, MatcherTree, Matchers, Action, open_in}
use link_pilot.Core.Config.{ConfigDocument}
use link_pilot.Cli.Stores.{Env, Fresh, Run, mutate_local}

pub data MovePosition : Type 0 where
  top up down bottom : MovePosition

pub record RuleAddArgs : Type 0 where
  pub disabled : Bool
  pub note : Option String
  pub workspace : Option String
  pub host : Option String
  pub path : Option String
  pub from_app : Option String
  pub from_app_bundle_id : Option String
  pub from_browser : Option String
  pub from_profile : Option String
  pub when_json : Option String
  pub target : Option String
  pub target_profile : Option String
  pub incognito : Bool
  pub new_window : Bool
  pub keep_source : Bool
  pub ask : Bool
  pub block : Bool
  pub then_json : Option String

-- `serde_json::from_str` of a matcher and of an action, and the text of a `Uuid` and of a number.
pub record Texts : Type 0 where
  pub matcher_of : String → Result MatcherTree String
  pub action_of : String → Result Action String
  pub show_uuid : Uuid → String
  pub show : ℕ → String

-- `if let Some(x) = option { clauses.push(f(x)) }`
abbrev pub push_some : {A : Type 0} → (A → MatcherTree) → Option A → List MatcherTree
push_some f none = []
push_some f (some a) = f a ∷ []

unfoldable pub clauses_of : RuleAddArgs → List MatcherTree
clauses_of a =
    push_some (λ p. MatcherTree.url_host p) a.host
    ++ (push_some (λ p. MatcherTree.url_path p) a.path
        ++ (push_some (λ name. MatcherTree.source_app name a.from_app_bundle_id) a.from_app
            ++ (push_some (λ b. MatcherTree.source_browser b) a.from_browser
                ++ push_some (λ p. MatcherTree.source_profile p) a.from_profile)))

abbrev pub to_matchers : List MatcherTree → Matchers
to_matchers [] = Matchers.nil
to_matchers (m ∷ ms) = Matchers.cons m (to_matchers ms)

-- The `match` on the number of clauses.
unfoldable pub combine : List MatcherTree → Result MatcherTree Anyhow
combine [] = err (
    anyhow
      "rule needs at least one matcher (--host / --path / --from-app / --from-browser / --from-profile / --when-json)")
combine (m ∷ []) = ok m
combine (m ∷ n ∷ ms) = ok (MatcherTree.all_of (to_matchers (m ∷ n ∷ ms)))

-- The target of a rule or of `set-default-target`.
unfoldable pub target_with : String → Option String → Bool → Bool → BrowserTarget
target_with browser profile incognito new_window =
    let target = elim profile as (λ _. BrowserTarget) [
      | none ↦ target_of browser
      | some p ↦ with_profile (target_of browser) p
    ] in
    record target { incognito = incognito; new_window = new_window }

abbrev min : ℕ → ℕ → ℕ
min a b = if leb a b then a else b

-- The index that a rule at `idx` of `count` moves to.
unfoldable pub target_index : MovePosition → ℕ → ℕ → ℕ
target_index top idx count = 0
target_index up idx count = idx - 1
target_index down idx count = min (idx + 1) (count - 1)
target_index bottom idx count = count - 1

-- `remove` and `insert`; `none` where they would panic.
unfoldable pub move_to : ℕ → ℕ → List Rule → Option (List Rule)
move_to idx target rules =
    let moved = Option.bind (remove idx rules) (λ (rule, rest). insert_at target rule rest) in
    if eqb target idx then some rules else moved

-- `none` where the `unwrap` of the position would panic.
unfoldable pub moved_rules : RuleId → MovePosition → List Rule → Option (List Rule)
moved_rules id pos rules =
    Option.bind (position (λ r. eqb r.id id) rules)
      (λ idx. move_to idx (target_index pos idx (length rules)) rules)

module _ (texts : Texts) where
  unfoldable pub build_matcher : RuleAddArgs → Result MatcherTree Anyhow
  build_matcher a = elim a.when_json [
    | some json ↦ map_err (λ e. "parsing --when-json" ∷ e ∷ []) (texts.matcher_of json)
    | none ↦ combine (clauses_of a)
  ]

  unfoldable pub build_action : RuleAddArgs → Result Action Anyhow
  build_action a = elim a.then_json [
    | some json ↦ map_err (λ e. "parsing --then-json" ∷ e ∷ []) (texts.action_of json)
    | none ↦ elim a.target [
      | some browser ↦ ok (open_in (target_with browser a.target_profile a.incognito a.new_window))
      | none ↦
          if a.keep_source
          then ok Action.keep_source
          else if a.ask
          then ok Action.ask
          else if a.block
          then ok Action.block
          else err (
              anyhow
                "rule needs an action (--target BROWSER / --keep-source / --ask / --block / --then-json)")
    ]
  ]

  -- The rules whose identifier begins with the prefix.
  unfoldable pub candidates : List Rule → String → List Rule
  candidates rules prefix = filter (λ r. starts_with (texts.show_uuid r.id) prefix) rules

  abbrev pub the_one : String → List Rule → Result Rule Anyhow
  the_one prefix [] = err (anyhow ("no rule matches id prefix '" ⧺ (prefix ⧺ "'")))
  the_one prefix (r ∷ []) = ok r
  the_one prefix (r ∷ s ∷ many) = err (
      anyhow (
        "id prefix '"
        ⧺ (prefix
            ⧺ ("' is ambiguous — matches " ⧺ (texts.show (length (r ∷ s ∷ many)) ⧺ " rules")))))

  unfoldable pub find_rule : List Rule → String → Result Rule Anyhow
  find_rule rules prefix = the_one prefix (candidates rules prefix)

  unfoldable pub delete_rule : String → ConfigDocument → Result ConfigDocument Anyhow
  delete_rule prefix doc = do
    found ← find_rule doc.rules prefix
    ok (record doc { rules = filter (λ r. not (eqb r.id found.id)) doc.rules })

  unfoldable pub enable_rule : String → Bool → ConfigDocument → Result ConfigDocument Anyhow
  enable_rule prefix enabled doc = do
    found ← find_rule doc.rules prefix
    ok (record doc {
      rules = update_first (λ r. eqb r.id found.id) (λ r. record r { enabled = enabled }) doc.rules;
    })

  -- A panic shows as an error of its own.
  unfoldable pub move_rule : String → MovePosition → ConfigDocument → Result ConfigDocument Anyhow
  move_rule prefix pos doc = do
    found ← find_rule doc.rules prefix
    elim (moved_rules found.id pos doc.rules) [
      | none ↦ err (anyhow "panic")
      | some rules ↦ ok (record doc { rules = rules })
    ]

  -- The rule of `run_rules_add`; `id` is the fresh identifier.
  unfoldable pub rule_of : RuleId → RuleAddArgs → Result Rule Anyhow
  rule_of id args = do
    matcher ← build_matcher args
    action ← build_action args
    ok (record {
      id = id;
      enabled = not args.disabled;
      when = matcher;
      then = action;
      source = RuleSource.gui;
      note = args.note;
      workspace_id = args.workspace;
    })

  module _ {Value : Type 0} (env : Env Value) (fresh : Fresh) (config : Option FilePath) where
    unfoldable pub run_rules_add : RuleId → RuleAddArgs → Run (Unit {0})
    run_rules_add id args w = elim (rule_of id args) [
      | err e ↦ (err e, w)
      | ok rule ↦
          mutate_local env fresh config (λ doc. ok (record doc { rules = doc.rules ++ rule ∷ [] }))
            w
    ]

    unfoldable pub run_rules_delete : String → Run (Unit {0})
    run_rules_delete prefix = mutate_local env fresh config (delete_rule prefix)

    unfoldable pub run_rules_set_enabled : String → Bool → Run (Unit {0})
    run_rules_set_enabled prefix enabled =
        mutate_local env fresh config (enable_rule prefix enabled)

    unfoldable pub run_rules_move : String → MovePosition → Run (Unit {0})
    run_rules_move prefix pos = mutate_local env fresh config (move_rule prefix pos)
