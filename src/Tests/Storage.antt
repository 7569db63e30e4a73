-- ===== src/Tests/Storage.antt =====
-- The store and the observations at a concrete disk.
use mathlib.Core.Option
use link_pilot.Prelude.{codes, eqb, ◌⧺◌, length, zero, suc, ℕ, some, none, if◌then◌else◌}
use link_pilot.Prelude.{String, ◌≡◌, ◌≢◌, ◌⊎◌, refl, Bool, false, none, some, List, [], ◌∷◌, ok}
use link_pilot.Prelude.Int.{pos}
use link_pilot.Core.Config.{ConfigDocument, WriterId, default_document}
use link_pilot.Core.Files.{
  FilePath, with_extension, file_stem, before_dot, create_dir_all, write, rename, path_eq,
}
use link_pilot.Core.Store.Documents.{migrate, migrate_rules, parse_with_priority_migration}
use link_pilot.Core.Store.Stores.{
  echo, tmp_path, stamp, persist, replace, create_parent, handle_disk_change,
}
use link_pilot.Core.Store.Persisting.{Persisted, replace-Persisted}
use link_pilot.Core.Store.Watching.{replace-handle_disk_change}
use link_pilot.Core.Store.Migration.{Migrated, migrate_rules-Migrated}
use link_pilot.Core.PidFile.{Processes, pid_tmp_path, write_pid_file}
use link_pilot.Core.Files.{Disk, write_through, make_parent}
use link_pilot.Tests.Data.{
  Value, number, object, absent, there, json, path, empty_disk, world, config,
}

apart : tmp_path path ≢ path
unfolding with_extension file_stem before_dot
apart h = cc

replace-Persisted_example :
    Persisted
      (json config)
      path
      7
      WriterId.gui
      (record world { state = record world.state { doc = default_document } })
      (replace (json config) path 7 default_document WriterId.gui world).0
      (replace (json config) path 7 default_document WriterId.gui world).1
replace-Persisted_example =
    replace-Persisted (json config) path 7 WriterId.gui default_document world apart

-- The document that `replace` writes here.
abbrev stamped : ConfigDocument
stamped = (stamp 7 WriterId.gui (record world.state { doc = default_document })).doc

replace_done : (replace (json stamped) path 7 default_document WriterId.gui world).0 ≡ ok tt
unfolding replace persist create_parent create_dir_all write rename path_eq with_extension file_stem
    before_dot
replace_done = refl

reads_back :
    (text : String)
    → (json stamped).to_string_pretty stamped ≡ ok text
    → (migrated : Bool) × (parse_with_priority_migration (json stamped) text
        ≡ ok (stamped, migrated))
unfolding parse_with_priority_migration migrate Option.bind
reads_back text h = (false, refl)

replace-handle_disk_change_example :
    (((handle_disk_change
          (json stamped)
          path
          (replace (json stamped) path 7 default_document WriterId.gui world).1).0
        ≡ some echo)
      ⊎ ((handle_disk_change
            (json stamped)
            path
            (replace (json stamped) path 7 default_document WriterId.gui world).1).0
          ≡ none))
    × ((handle_disk_change
          (json stamped)
          path
          (replace (json stamped) path 7 default_document WriterId.gui world).1).1.state
        ≡ (replace (json stamped) path 7 default_document WriterId.gui world).1.state)
replace-handle_disk_change_example =
    replace-handle_disk_change (json stamped) path 7 default_document WriterId.gui world apart
      reads_back replace_done

abbrev old_rules : List Value
old_rules =
    object (there (number (pos 1))) absent
    ∷ object absent absent
    ∷ object (there (number (pos 5))) absent
    ∷ []

migrate_rules-Migrated_example :
    Migrated (json config) old_rules (migrate_rules (json config) old_rules)
migrate_rules-Migrated_example = migrate_rules-Migrated (json config) old_rules

abbrev old_document : Value
old_document = object absent (there ((json config).of_array old_rules))

abbrev log_path : FilePath
log_path = "observations.ndjson" ∷ "LinkPilot" ∷ []

log_apart : with_extension log_path "tmp" ≢ log_path
unfolding with_extension file_stem before_dot
log_apart h = cc

abbrev pid_path : FilePath
pid_path = "linkpilot-daemon.pid" ∷ "LinkPilot" ∷ []

-- Numbers in unary; only the process 3 runs.
abbrev processes : Processes
processes = record {
  show = unary;
  parse = λ s. some (length (codes s));
  kill = λ pid. if eqb pid 3 then none else some 3;
}
  where
    unary : ℕ → String
    unary zero = ""
    unary (suc n) = "1" ⧺ unary n

pid_apart : pid_tmp_path pid_path ≢ pid_path
unfolding pid_tmp_path
pid_apart h = cc

abbrev with_pid : Disk
with_pid = record empty_disk { files = λ p. if path_eq p pid_path then some "1111" else none }

pid_written : (write_pid_file processes pid_path 3 with_pid).0 ≡ ok tt
unfolding write_pid_file write_through make_parent create_dir_all write rename path_eq pid_tmp_path
pid_written = refl
