-- ===== src/Cli/Mutating.antt =====
-- What a command that changes the configuration leaves behind (crates/cli/src/main.rs,
-- `mutate_local`).
use link_pilot.Prelude.{
  String, ◌≡◌, ◌≢◌, inl, inr, refl, sym, ◌∙◌, Bool, Result, ok, err, Result-cases, some,
}
use link_pilot.Prelude.Anyhow.{Anyhow}
use link_pilot.Core.Files.{FilePath}
use link_pilot.Core.Config.{ConfigDocument, WriterId}
use link_pilot.Core.Store.Stores.{World, tmp_path, stamp, replace}
use link_pilot.Core.Store.Persisting.{replace-Persisted}
use link_pilot.Cli.Stores.{Env, Fresh, load_store, write_config, mutate_at}

module _ {Value : Type 0} (env : Env Value) (fresh : Fresh) (path : FilePath)
    (mutator : ConfigDocument → Result ConfigDocument Anyhow) where
  -- From the world in which the configuration was loaded, to the end of the command.
  pub record Mutated (loaded : World) (r : Result (Unit {0}) Anyhow) (after : World) : Type 0 where
    -- An error of the mutator is the command's, and nothing is written.
    pub refused : (e : Anyhow) → mutator loaded.state.doc ≡ err e → (r ≡ err e) × (after ≡ loaded)
    -- On success the file has the text of the changed document, stamped.
    pub saved :
        r ≡ ok tt
        → (doc : ConfigDocument) × (text : String) × (mutator loaded.state.doc ≡ ok doc)
          × (after.state ≡ stamp fresh.second WriterId.cli (record loaded.state { doc = doc }))
          × (env.json.to_string_pretty after.state.doc ≡ ok text)
          × (after.disk.files path ≡ some text)
    -- After any error the file is what it was.
    pub kept : (e : Anyhow) → r ≡ err e → after.disk.files path ≡ loaded.disk.files path

  -- A command that has loaded the configuration leaves the file with the text of the document as the
  -- mutator changed it, or, if the mutator or an operation of the system fails, as it was after
  -- loading. The temporary name must differ.
  pub mutate_at-Mutated :
      (w : World) {created : Bool}
      → tmp_path path ≢ path
      → (load_store env fresh path w).0 ≡ ok created
      → Mutated
          (load_store env fresh path w).1
          (mutate_at env fresh path mutator w).0
          (mutate_at env fresh path mutator w).1
  unfolding mutate_at write_config
  mutate_at-Mutated w apart loads =
      let w' : World = (load_store env fresh path w).1 in
      elim (Result-cases (mutator w'.state.doc)) [
        | inr (e, bad) ↦
            rw (loads, bad)
              (record {
                refused = λ e' h. (cc (sym bad ∙ h), refl);
                saved = λ h. cc;
                kept = λ e' h. refl;
              })
        | inl (doc, good) ↦
            let p = replace-Persisted env.json path fresh.second WriterId.cli doc w' apart in
            elim (Result-cases (replace env.json path fresh.second doc WriterId.cli w').0) [
              | inl (u, done) ↦
                  let s = p.saved done in
                  rw (loads, good, done)
                    (record {
                      refused = λ e' h. cc;
                      saved = λ h. (doc, s.0, good, s.1, s.2, s.3);
                      kept = λ e' h. cc;
                    })
              | inr (e, failed) ↦
                  rw (loads, good, failed)
                    (record {
                      refused = λ e' h. cc;
                      saved = λ h. cc;
                      kept = λ e' h. p.kept e failed;
                    })
            ]
      ]
