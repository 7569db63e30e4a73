-- ===== src/Core/Store/Stores.antt =====
-- crates/core/src/config/store.rs: `ConfigStore`. Its state is the document in memory and the token
-- of the last write; `World` adds the disk.
use link_pilot.Prelude.{Bool, true, false, Option, none, some, ok, err, if◌then◌else◌, eqb, map_err}
use link_pilot.Prelude.Tasks.{Task, pure, lift, gets, modify, within, ◌>>=◌, ◌>>◌}
use link_pilot.Core.Files.{
  FilePath, Disk, parent, with_extension, exists, create_dir_all, read_to_string, write, rename, Io,
}
use link_pilot.Core.Rules.{Uuid, RuleId}
use link_pilot.Core.Config.{ConfigDocument, WriterId, demo}
use link_pilot.Core.Store.Documents.{
  ConfigError, io, serde, SerdeJson, parse_with_priority_migration,
}

pub data ChangeOrigin : Type 0 where
  echo external : ChangeOrigin

pub record State : Type 0 where
  pub doc : ConfigDocument
  pub last_writer_token : Option Uuid

pub record World : Type 0 where
  pub disk : Disk
  pub state : State

abbrev pub Stored : Type 0 → Type 0
Stored A = Task World ConfigError A

-- A file operation in a method of the store.
abbrev pub on_disk : {A : Type 0} → Io A → Stored A
on_disk = within (λ w. w.disk) (λ d w. record w { disk = d }) io

-- The name that `persist` writes to first.
abbrev pub tmp_path : FilePath → FilePath
tmp_path path = with_extension path "json.tmp"

-- The stamp of `persist`: the token and the writer in the document, the token in the state.
unfoldable pub stamp : Uuid → WriterId → State → State
stamp token writer s = record {
  doc = record s.doc {
    meta = record { last_writer_token = some token; last_writer = some writer };
  };
  last_writer_token = some token;
}

-- `if let Some(parent) = path.parent() { create_dir_all(parent)? }`
unfoldable pub create_parent : Option FilePath → Stored (Unit {0})
create_parent none = pure tt
create_parent (some dir) = on_disk (create_dir_all dir)

-- The state that a parsed document starts with.
unfoldable pub state_of : ConfigDocument → State
state_of doc = record { doc = doc; last_writer_token = doc.meta.last_writer_token }

unfoldable pub origin_of : Option Uuid → Option Uuid → ChangeOrigin
origin_of (some disk) (some remembered) = if eqb disk remembered then echo else external
origin_of _ _ = external

-- The part of `handle_disk_change` under the lock.
unfoldable pub absorb : ConfigDocument → State → Option ChangeOrigin × State
absorb parsed s = elim (origin_of parsed.meta.last_writer_token s.last_writer_token) [
  | echo ↦ (some echo, s)
  | external ↦ (some external, state_of parsed)
]

module _ {Value : Type 0} (json : SerdeJson Value) (path : FilePath) where
  -- `token` is the fresh `Uuid::new_v4()`.
  unfoldable pub persist : Uuid → WriterId → Stored (Unit {0})
  persist token writer = do
    create_parent (parent path)
    modify (λ w. record w { state = stamp token writer w.state })
    doc ← gets (λ w. w.state.doc)
    text ← lift (map_err serde (json.to_string_pretty doc))
    on_disk (write (tmp_path path) text)
    on_disk (rename (tmp_path path) path)

  unfoldable pub replace : Uuid → ConfigDocument → WriterId → Stored (Unit {0})
  replace token doc writer = do
    modify (λ w. record w { state = record w.state { doc = doc } })
    persist token writer

  -- The store of an existing file; `persist` runs when the document was migrated.
  unfoldable pub load_parsed : Uuid → ConfigDocument × Bool → Stored Bool
  load_parsed token (doc, migrated) = do
    modify (λ w. record w { state = state_of doc })
    if migrated then persist token WriterId.cli else pure tt
    pure false

  unfoldable pub load_existing : Uuid → Stored Bool
  load_existing token = do
    raw ← on_disk (read_to_string path)
    parsed ← lift (parse_with_priority_migration json raw)
    load_parsed token parsed

  unfoldable pub create : Uuid → (i j k l : RuleId) → Stored Bool
  create token i j k l = do
    modify (λ w. record w { state = record { doc = demo i j k l; last_writer_token = none } })
    persist token WriterId.cli
    pure true

  -- `load_or_init`, with `true` for a file that was just created; `ids` are the four identifiers of
  -- the demo rules. The state before it is not read.
  unfoldable pub load_or_init : Uuid → (i j k l : RuleId) → Stored Bool
  load_or_init token i j k l = do
    there ← gets (λ w. exists path w.disk)
    if there then load_existing token else create token i j k l

  -- `handle_disk_change`: the origin passed to `on_change`, or `none` where it returns before.
  unfoldable pub handle_disk_change : World → Option ChangeOrigin × World
  handle_disk_change w =
      let (raw, d) = read_to_string path w.disk in
      elim raw [
        | err e ↦ (none, record w { disk = d })
        | ok text ↦ elim (parse_with_priority_migration json text) [
          | err e ↦ (none, record w { disk = d })
          | ok p ↦ let (origin, s) = absorb p.0 w.state in (origin, record { disk = d; state = s })
        ]
      ]
