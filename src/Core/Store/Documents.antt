-- ===== src/Core/Store/Documents.antt =====
-- crates/core/src/config/store.rs: default path, errors, parsing with the migration of `priority`.
use mathlib.Core.Option
use link_pilot.Prelude.{
  String, Bool, true, false, Option, none, some, List, map, any, unwrap_or, is_some, Result, ok,
  err, ◌>>=◌, map_err,
}
use link_pilot.Prelude.Int.{ℤ, pos, le_int}
use link_pilot.Prelude.Sorting.{sort_by}
use link_pilot.Core.Files.{FilePath, IoError, join}
use link_pilot.Core.Config.{ConfigDocument}

pub data ConfigError : Type 0 where
  io : IoError → ConfigError
  serde : String → ConfigError
  notify : String → ConfigError
  no_default_dir : ConfigError

-- `default_config_path` on macOS; the argument is the variable `HOME`.
unfoldable pub default_config_path : Option FilePath → Result FilePath ConfigError
default_config_path none = err no_default_dir
default_config_path (some home) = ok (
    join (join (join (join home "Library") "Application Support") "LinkPilot")
      "linkpilot.config.json")

-- What the program uses of `serde_json` over its `Value`: reading a text, an object's member,
-- conversions, the document of a value and the text of a document. `set_member k v` is the
-- assignment through `get_mut(k)`.
pub record SerdeJson (Value : Type 0) : Type 0 where
  pub from_str : String → Result Value String
  pub get : String → Value → Option Value
  pub as_array : Value → Option (List Value)
  pub as_i64 : Value → Option ℤ
  pub of_array : List Value → Value
  pub set_member : String → Value → Value → Value
  pub remove : String → Value → Value
  pub from_value : Value → Result ConfigDocument String
  pub to_string_pretty : ConfigDocument → Result String String

module _ {Value : Type 0} (json : SerdeJson Value) where
  -- `r.get("priority").and_then(|v| v.as_i64()).unwrap_or(0)`
  unfoldable pub priority_of : Value → ℤ
  priority_of r = unwrap_or (Option.bind (json.get "priority" r) json.as_i64) (pos 0)

  -- Only an object has members.
  unfoldable pub has_priority : Value → Bool
  has_priority r = is_some (json.get "priority" r)

  -- The comparison `pb.cmp(&pa)`.
  unfoldable pub before_by_priority : Value → Value → Bool
  before_by_priority a b = le_int (priority_of b) (priority_of a)

  unfoldable pub migrate_rules : List Value → List Value
  migrate_rules rules = map (json.remove "priority") (sort_by before_by_priority rules)

  -- The part of `parse_with_priority_migration` on the raw value.
  unfoldable pub migrate : Value → Value × Bool
  migrate value = elim (Option.bind (json.get "rules" value) json.as_array) [
    | none ↦ (value, false)
    | some rules ↦ elim (any has_priority rules) [
      | false ↦ (value, false)
      | true ↦ (json.set_member "rules" (json.of_array (migrate_rules rules)) value, true)
    ]
  ]

  unfoldable pub parse_with_priority_migration : String → Result (ConfigDocument × Bool) ConfigError
  parse_with_priority_migration raw = do
    value ← map_err serde (json.from_str raw)
    doc ← map_err serde (json.from_value (migrate value).0)
    ok (doc, (migrate value).1)
