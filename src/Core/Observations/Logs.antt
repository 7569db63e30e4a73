-- ===== src/Core/Observations/Logs.antt =====
-- crates/core/src/observations.rs: `ObservationsStore`, the operations on the log and on the file of
-- the dismissals. The write lock serializes them, so each runs alone on the disk.
use Prim.Native.Char.{Char, code}
use link_pilot.Prelude.{
  ℕ, String, Bool, false, not, ◌&&◌, ◌||◌, Option, none, some, List, [], ◌∷◌, ◌++◌, filter, length,
  all, Result, ok, err, map_err, if◌then◌else◌, ◌-◌, ◌*◌, leb, eqb, ◌⧺◌, codes,
}
use link_pilot.Prelude.Tasks.{pure, lift, gets, ◌>>=◌, ◌>>◌}
use link_pilot.Core.Files.{
  make_parent, write_through, FilePath, Disk, IoError, not_found, other, Io, parent, with_extension,
  with_file_name, exists, read_to_string, write, append_line,
}
use link_pilot.Core.Store.Documents.{ConfigError, default_config_path}
use link_pilot.Core.Observations.Entries.{
  Observation, Suggestion, DismissedSuggestion, Key, key_eq, dismissed_key, ms_per_day, ttl_cutoff,
  active_dismissals,
}
use link_pilot.Core.Observations.Aggregate.{Floats, Picks, aggregate}

-- `serde_json` on a line of the log and on the file of the dismissals.
pub record LogJson : Type 0 where
  pub to_string : Observation → Result String String
  pub from_str : String → Result Observation String
  pub dismissed_to_string_pretty : List DismissedSuggestion → Result String String
  pub dismissed_from_str : String → Result (List DismissedSuggestion) String

-- `default_observations_path` and `default_dismissed_path`; the argument is the variable `HOME`.
unfoldable pub default_observations_path : Option FilePath → Result FilePath ConfigError
default_observations_path home = elim (default_config_path home) [
  | ok config ↦ ok (with_file_name config "observations.ndjson")
  | err e ↦ err e
]

unfoldable pub default_dismissed_path : Option FilePath → Result FilePath ConfigError
default_dismissed_path home = elim (default_config_path home) [
  | ok config ↦ ok (with_file_name config "observations-dismissed.json")
  | err e ↦ err e
]

unfoldable pub write_atomic : FilePath → String → Io (Unit {0})
write_atomic path contents = write_through (with_extension path "tmp") path contents

abbrev starts_line_feed : String → Bool
starts_line_feed String.[] = false
starts_line_feed (String.◌∷◌ c s) = eqb (code c) 10

abbrev push_char : Char → List String → List String
push_char c [] = String.◌∷◌ c String.[] ∷ []
push_char c (l ∷ ls) = String.◌∷◌ c l ∷ ls

-- `BufRead::lines`: a line ends at a line feed, or at a carriage return with a line feed after it.
unfoldable pub lines : String → List String
lines String.[] = []
lines (String.◌∷◌ c s) =
    let rest = lines s in
    if eqb (code c) 10
    then "" ∷ rest
    else if eqb (code c) 13 && starts_line_feed s
    then rest
    else push_char c rest

-- `char::is_whitespace`
abbrev is_whitespace : ℕ → Bool
is_whitespace n =
    leb 9 n && leb n 13
    || eqb n 32
    || eqb n 133
    || eqb n 160
    || eqb n 5760
    || leb 8192 n && leb n 8202
    || eqb n 8232
    || eqb n 8233
    || eqb n 8239
    || eqb n 8287
    || eqb n 12288

-- `line.trim().is_empty()`
unfoldable pub is_blank : String → Bool
is_blank line = all is_whitespace (codes line)

-- What a read gives where the file may be missing.
unfoldable pub or_missing :
    {A : Type 0} → A → Result String IoError × Disk → (String → A) → Result A IoError × Disk
or_missing default (ok text, d) f = (ok (f text), d)
or_missing default (err not_found, d) f = (ok default, d)
or_missing default (err e, d) f = (err e, d)

module _ (json : LogJson) where
  unfoldable pub parse_lines : List String → List Observation
  parse_lines [] = []
  parse_lines (l ∷ ls) =
      let rest = parse_lines ls in
      if is_blank l then rest else elim (json.from_str l) [ ok obs ↦ obs ∷ rest | err e ↦ rest ]

  unfoldable pub show_lines : List Observation → Result String String
  show_lines [] = ok ""
  show_lines (o ∷ os) = elim (json.to_string o) [
    | err e ↦ err e
    | ok line ↦ elim (show_lines os) [ err e ↦ err e | ok text ↦ ok (line ⧺ ("\n" ⧺ text)) ]
  ]

  -- `serde_json::from_str(&raw).unwrap_or_default()`
  unfoldable pub entries_of : String → List DismissedSuggestion
  entries_of raw = elim (json.dismissed_from_str raw) [ ok entries ↦ entries | err e ↦ [] ]

  -- The entries of the file after a dismissal: `now` and `later` are the two readings of the clock.
  unfoldable pub mute : Key → ℕ → ℕ → List DismissedSuggestion → List DismissedSuggestion
  mute k now later entries =
      filter (λ e. leb (ttl_cutoff later) e.dismissed_at_ms)
        (filter (λ e. not (key_eq (dismissed_key e) k)) entries
          ++ record {
            host = k.host;
            browser_id = k.browser_id;
            profile_id = k.profile_id;
            dismissed_at_ms = now;
          }
            ∷ [])

  module _ (observations_path dismissed_path : FilePath) where
    unfoldable pub append_observation : Observation → Io (Unit {0})
    append_observation obs = do
      make_parent (parent observations_path)
      line ← lift (map_err other (json.to_string obs))
      append_line observations_path line

    unfoldable pub list_observations : Io (List Observation)
    list_observations d =
        or_missing [] (read_to_string observations_path d) (λ text. parse_lines (lines text))

    unfoldable pub load_dismissed : Io (List DismissedSuggestion)
    load_dismissed d = or_missing [] (read_to_string dismissed_path d) entries_of

    unfoldable pub list_suggestions :
        {F : Type 0} → Floats F → (Picks → Picks) → ℕ → Io (List (Suggestion F))
    list_suggestions floats iterate now = do
      observations ← list_observations
      dismissed ← load_dismissed
      pure (aggregate floats iterate observations (active_dismissals dismissed now))

    unfoldable pub dismiss : Key → ℕ → ℕ → Io (Unit {0})
    dismiss k now later = do
      entries ← load_dismissed
      bytes ← lift (map_err other (json.dismissed_to_string_pretty (mute k now later entries)))
      write_atomic dismissed_path bytes

    unfoldable pub clear_observations : Io (Unit {0})
    clear_observations = do
      there ← gets (exists observations_path)
      if there then write_atomic observations_path "" else pure tt

    -- `kept.len() == observations.len()`, or the rewrite of the log.
    unfoldable pub rewrite_kept : List Observation → List Observation → Io (Unit {0})
    rewrite_kept observations kept =
        if eqb (length kept) (length observations)
        then pure tt
        else lift (map_err other (show_lines kept)) >>= λ buf. write_atomic observations_path buf

    unfoldable pub retain_within : Option ℕ → ℕ → Io (Unit {0})
    retain_within none now = pure tt
    retain_within (some days) now = do
      observations ← list_observations
      rewrite_kept observations
          (filter (λ o. leb (now - days * ms_per_day) o.timestamp_ms) observations)

    -- `std::fs::copy` reads the log and writes the copy.
    unfoldable pub copied :
        FilePath → Result String IoError × Disk → Result (Unit {0}) IoError × Disk
    copied dst (ok text, d) = write dst text d
    copied dst (err not_found, d) = write dst "" d
    copied dst (err e, d) = (err e, d)

    unfoldable pub export_log : FilePath → Io (Unit {0})
    export_log dst = do
      make_parent (parent dst)
      λ d. copied dst (read_to_string observations_path d)
