-- ===== src/Tests/Data.antt =====
-- Concrete data: instances of the crates that the program uses, a configuration, a disk.
use link_pilot.Prelude.{
  ℕ, String, ◌≡◌, refl, true, Option, none, some, List, [], ◌∷◌, ok, err, if◌then◌else◌, ◌==◌,
  strip_prefix, arith, is_some,
}
use link_pilot.Prelude.Int.{ℤ}
use link_pilot.Core.Browser.{target_of}
use link_pilot.Core.Files.{FilePath, Disk}
use link_pilot.Core.Rules.{Rule, RuleSource, MatcherTree, Action}
use link_pilot.Core.Config.{ConfigDocument, document_with}
use link_pilot.Core.Store.Documents.{SerdeJson}
use link_pilot.Core.Store.Stores.{World}
use link_pilot.Core.Routing.Context.{UrlCrate, SourceKind, RoutingContext}
use link_pilot.Core.Daemon.{Runtime, Host}
use link_pilot.Core.History.{new_history}

-- Addresses of the form `https://host`, by their host.
abbrev pub web : UrlCrate String
web = record {
  parse = λ s. elim (strip_prefix s "https://") [
    | none ↦ err "relative URL without a base"
    | some host ↦ ok host
  ];
  host_str = λ host. some host;
  path = λ host. "/";
}

abbrev pub context : String → RoutingContext
context url = record {
  url = url;
  source = record {
    kind = SourceKind.system;
    app_name = some "Slack";
    bundle_id = none;
    browser = none;
    profile = none;
  };
  navigation = none;
  environment = none;
}

abbrev pub rule : ℕ → MatcherTree → Action → Rule
rule id when act = record {
  id = id;
  enabled = true;
  when = when;
  then = act;
  source = RuleSource.gui;
  note = none;
  workspace_id = none;
}

-- A rule that asks, before one that opens a domain.
abbrev pub config : ConfigDocument
config = record (document_with (target_of "safari")) {
  rules =
      rule 1 MatcherTree.always Action.ask
      ∷ rule 2 (MatcherTree.url_host "*.github.com") (Action.open_in (target_of "chrome"))
      ∷ [];
}

-- A small JSON: numbers, arrays, and objects with the members `priority` and `rules`.
mutual
  pub data Value : Type 0 where
    number : ℤ → Value
    array : Values → Value
    object : (priority rules : Slot) → Value

  pub data Slot : Type 0 where
    absent : Slot
    there : Value → Slot

  pub data Values : Type 0 where
    nil : Values
    cons : Value → Values → Values

abbrev slot : Slot → Option Value
slot absent = none
slot (there v) = some v

abbrev values : Values → List Value
values nil = []
values (cons v vs) = v ∷ values vs

abbrev of_values : List Value → Values
of_values [] = nil
of_values (v ∷ vs) = cons v (of_values vs)

values-of_values : (vs : List Value) → values (of_values vs) ≡ vs
values-of_values [] = refl
values-of_values (v ∷ vs) = rw (values-of_values vs) refl

abbrev member : String → Value → Option Value
member k (object p r) = if k == "priority" then slot p else if k == "rules" then slot r else none
member k _ = none

abbrev removed : String → Value → Value
removed k (object p r) =
    if k == "priority"
    then object absent r
    else if k == "rules"
    then object p absent
    else object p r
removed k v = v

abbrev assigned : String → Value → Value → Value
assigned k x (object p r) =
    if k == "priority"
    then object (there x) r
    else if k == "rules"
    then object p (there x)
    else object p r
assigned k x v = v

abbrev as_array : Value → Option (List Value)
as_array (array vs) = some (values vs)
as_array _ = none

abbrev as_i64 : Value → Option ℤ
as_i64 (number n) = some n
as_i64 _ = none

-- Every text is read as an object without rules, and every value as the given document.
abbrev pub json : ConfigDocument → SerdeJson Value
json doc = record {
  from_str = λ s. ok (object absent absent);
  get = member;
  as_array = as_array;
  as_i64 = as_i64;
  of_array = λ vs. array (of_values vs);
  set_member = assigned;
  remove = removed;
  from_value = λ v. ok doc;
  to_string_pretty = λ doc. ok "{}";
}

pub member-removed : (k : String) (v : Value) → member k (removed k v) ≡ none
member-removed k (number n) = refl
member-removed k (array vs) = refl
member-removed k (object p r) = ground arith

pub member-assigned :
    (k : String) (x v : Value) → is_some (member k v) ≡ true → member k (assigned k x v) ≡ some x
member-assigned k x (number n) h = cc
member-assigned k x (array vs) h = cc
member-assigned k x (object p r) h = ground arith

pub as_array-array : (vs : List Value) → as_array (array (of_values vs)) ≡ some vs
as_array-array vs = rw (values-of_values vs) refl

abbrev pub path : FilePath
path = "linkpilot.config.json" ∷ "LinkPilot" ∷ []

abbrev pub empty_disk : Disk
empty_disk = record { files = λ p. none; outcomes = [] }

abbrev pub world : World
world = record { disk = empty_disk; state = record { doc = config; last_writer_token = none } }

abbrev pub host : Host String Value
host = record {
  urls = web;
  json = json config;
  platform = record {
    is_linkpilot_default = ok true;
    installed_browsers = ok [];
    open_url = λ target url. if target.browser == "chrome" then ok tt else err "not installed";
  };
  path = path;
  path_text = "/LinkPilot/linkpilot.config.json";
  endpoint_text = "/tmp/linkpilot.sock";
  show_error = λ e. "config error";
}

abbrev pub runtime : Runtime String
runtime = record { config = world; history = new_history; version = "0.2.0"; launches = [] }
