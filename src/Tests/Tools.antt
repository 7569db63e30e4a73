-- ===== src/Tests/Tools.antt =====
-- The command line tool at concrete data.
use mathlib.Core.Option
use link_pilot.Prelude.{
  String, ◌≡◌, ◌≢◌, refl, false, none, some, List, [], ◌∷◌, ok, err, if◌then◌else◌, eqb,
  starts_with, strip_prefix,
}
use link_pilot.Core.Browser.{target_of}
use link_pilot.Core.Config.{document_with}
use link_pilot.Core.Files.{with_extension, file_stem, before_dot, exists, read_to_string, path_eq}
use link_pilot.Core.Rules.{Rule, MatcherTree, Action}
use link_pilot.Core.Routing.Evaluate.{
  evaluate, evaluate_explained, evaluate_explained_with_ask_shortcut, walk_rules, exhausted,
  default_target_decision,
}
use link_pilot.Core.Store.Documents.{parse_with_priority_migration, migrate}
use link_pilot.Core.Store.Stores.{
  World, tmp_path, load_or_init, load_existing, load_parsed, state_of,
}
use link_pilot.Cli.Stores.{Env, Fresh, load_store, mutate_at}
use link_pilot.Cli.Rules.{
  bottom, Texts, RuleAddArgs, find_rule, candidates, move_rule, build_matcher,
}
use link_pilot.Cli.Documents.{delete_workspace}
use link_pilot.Cli.Moves.{Moved, move_rule-Moved}
use link_pilot.Cli.Building.{Built, build_matcher-Built}
use link_pilot.Cli.Mutating.{Mutated, mutate_at-Mutated}
use link_pilot.Cli.Agreement.{Agree, edits-Agree}
use link_pilot.Ipc.Client.{ClientError}
use link_pilot.Cli.Daemons.{
  IpcError, Remote, Session, run_open, classify_ipc_error, try_daemon_route_open, open_local,
  answered, decide_local, carry_out_local,
}
use link_pilot.Cli.Daemons.Routed.{From, run_open-evaluate}
use link_pilot.Tests.Data.{web, config, json, path, world, rule, host, context, Value}

abbrev texts : Texts
texts = record {
  matcher_of = λ s. err "no JSON";
  action_of = λ s. err "no JSON";
  show_uuid = λ id. if eqb id 1 then "a1" else "b2";
  show = λ n. "2";
}

one_rule : find_rule texts config.rules "a" ≡ ok (rule 1 MatcherTree.always Action.ask)
unfolding find_rule candidates starts_with strip_prefix
one_rule = refl

move_rule-Moved_example :
    (after : List Rule) × (move_rule texts "a" bottom config ≡ ok (record config { rules = after }))
    × Moved 1 bottom config.rules after
move_rule-Moved_example = move_rule-Moved texts "a" bottom config one_rule

abbrev args : RuleAddArgs
args = record {
  disabled = false;
  note = none;
  workspace = none;
  host = some "*.github.com";
  path = none;
  from_app = some "Slack";
  from_app_bundle_id = none;
  from_browser = none;
  from_profile = none;
  when_json = none;
  target = some "chrome";
  target_profile = none;
  incognito = false;
  new_window = false;
  keep_source = false;
  ask = false;
  block = false;
  then_json = none;
}

build_matcher-Built_example : Built args (build_matcher texts args)
build_matcher-Built_example = build_matcher-Built texts args refl

edits-Agree_example : Agree config
edits-Agree_example = edits-Agree config

abbrev env : Env Value
env = record {
  json = json config;
  read_document = λ s. ok config;
  home = none;
  show_path = λ p. "path";
  show_error = λ e. "error";
  show_io = λ e. "io error";
}

abbrev fresh : Fresh
fresh = record { i = 1; j = 2; k = 3; l = 4; first = 5; second = 6 }

-- A disk with the configuration.
abbrev stored_world : World
stored_world = record world {
  disk = record { files = λ p. if path_eq p path then some "{}" else none; outcomes = [] };
}

loads : (load_store env fresh path stored_world).0 ≡ ok false
unfolding load_store load_or_init load_existing load_parsed read_to_string exists path_eq
    parse_with_priority_migration migrate Option.bind
loads = refl

tmp_apart : tmp_path path ≢ path
unfolding with_extension file_stem before_dot
tmp_apart h = cc

mutate_at-Mutated_example :
    Mutated env fresh path
      (delete_workspace "work")
      (load_store env fresh path stored_world).1
      (mutate_at env fresh path (delete_workspace "work") stored_world).0
      (mutate_at env fresh path (delete_workspace "work") stored_world).1
mutate_at-Mutated_example =
    mutate_at-Mutated env fresh path (delete_workspace "work") stored_world tmp_apart loads

-- A daemon that does not answer in time.
abbrev remote : Remote String
remote = record {
  send = λ request. err ClientError.timeout;
  show_error = λ e. "timed out";
  show_response = λ r. "response";
  urls = web;
  open_url = λ target url. ok tt;
  request_id = "r1";
}

-- A file without rules.
abbrev no_rules_env : Env Value
no_rules_env = record env {
  json = json (document_with (target_of "safari"));
  read_document = λ s. ok (document_with (target_of "safari"));
}

abbrev session : Session String
session = record { world = stored_world; printed = []; launches = [] }

late : classify_ipc_error remote ClientError.timeout ≡ IpcError.offline
unfolding classify_ipc_error
late = refl

opens :
    (run_open remote no_rules_env fresh path false false (context "https://github.com") session).0
    ≡ ok tt
unfolding run_open try_daemon_route_open open_local answered decide_local carry_out_local load_store
    load_or_init load_existing load_parsed read_to_string exists path_eq
    parse_with_priority_migration migrate Option.bind classify_ipc_error strip_prefix evaluate
    evaluate_explained evaluate_explained_with_ask_shortcut walk_rules exhausted state_of
    default_target_decision
opens = refl

run_open-evaluate_example :
    (run_open remote no_rules_env fresh path false false
      (context "https://github.com")
      session).1.printed
    ≡ evaluate remote.urls
        (load_store no_rules_env fresh path stored_world).1.state.doc
        (context "https://github.com")
      ∷ []
run_open-evaluate_example =
    run_open-evaluate remote no_rules_env fresh path (context "https://github.com") session host 5 7
      (load_store no_rules_env fresh path stored_world).1.state.doc refl
      (From.file ClientError.timeout refl late refl) opens
