-- ===== src/Cli/Stores.antt =====
-- How the commands of crates/cli/src/main.rs read and change the configuration.
use link_pilot.Prelude.{String, Bool, Option, none, some, Result, ok, map_err, ◌⧺◌, ◌∷◌, []}
use link_pilot.Prelude.Anyhow.{Anyhow, anyhow}
use link_pilot.Prelude.Tasks.{Task, lift, gets, within, ◌>>=◌}
use link_pilot.Core.Files.{FilePath, IoError}
use link_pilot.Core.Rules.{Uuid, RuleId}
use link_pilot.Core.Config.{ConfigDocument, WriterId}
use link_pilot.Core.Store.Documents.{ConfigError, SerdeJson, default_config_path}
use link_pilot.Core.Store.Stores.{World, load_or_init, replace}

-- The crates, the variable `HOME`, and how a path and an error are displayed.
pub record Env (Value : Type 0) : Type 0 where
  pub json : SerdeJson Value
  pub read_document : String → Result ConfigDocument String
  pub home : Option FilePath
  pub show_path : FilePath → String
  pub show_error : ConfigError → String
  pub show_io : IoError → String

-- The fresh identifiers of a run: those of the demo document, and the tokens of two saves.
pub record Fresh : Type 0 where
  pub i : RuleId
  pub j : RuleId
  pub k : RuleId
  pub l : RuleId
  pub first : Uuid
  pub second : Uuid

abbrev pub Run : Type 0 → Type 0
Run A = Task World Anyhow A

module _ {Value : Type 0} (env : Env Value) (fresh : Fresh) where
  -- The path of `load_store`.
  unfoldable pub store_path : Option FilePath → Result FilePath Anyhow
  store_path (some path) = ok path
  store_path none =
      map_err (λ e. "resolving default config path" ∷ env.show_error e ∷ [])
        (default_config_path env.home)

  unfoldable pub load_store : FilePath → Run Bool
  load_store path =
      within (λ w. w) (λ w _. w)
        (λ e. ("loading config from " ⧺ env.show_path path) ∷ env.show_error e ∷ [])
        (load_or_init env.json path fresh.first fresh.i fresh.j fresh.k fresh.l)

  -- `store.replace(doc, writer).map_err(|e| anyhow!("writing config: {e}"))`
  unfoldable pub write_config : FilePath → ConfigDocument → WriterId → Run (Unit {0})
  write_config path doc writer =
      within (λ w. w) (λ w _. w) (λ e. anyhow ("writing config: " ⧺ env.show_error e))
        (replace env.json path fresh.second doc writer)

  unfoldable pub mutate_at :
      FilePath → (ConfigDocument → Result ConfigDocument Anyhow) → Run (Unit {0})
  mutate_at path mutator = do
    created ← load_store path
    doc ← gets (λ w. w.state.doc)
    changed ← lift (mutator doc)
    write_config path changed WriterId.cli

  -- `mutate_local`; the mutator gives the changed document.
  unfoldable pub mutate_local :
      Option FilePath → (ConfigDocument → Result ConfigDocument Anyhow) → Run (Unit {0})
  mutate_local config mutator = do path ← lift (store_path config); mutate_at path mutator
