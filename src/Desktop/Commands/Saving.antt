-- ===== src/Desktop/Commands/Saving.antt =====
-- What becomes of a document that a command saves (apps/desktop/src-tauri/src/commands/mod.rs): the
-- checks of the edition come first, and the file is replaced as a whole or left alone.
use link_pilot.Prelude.{
  String, ◌≡◌, ◌≢◌, ◌⊎◌, inl, inr, refl, ap, ◌∙◌, some, Result, ok, err, Result-cases, subst, sym,
}
use link_pilot.Core.Rules.{Uuid}
use link_pilot.Core.Config.{ConfigDocument, WriterId, Meta}
use link_pilot.Core.Store.Stores.{tmp_path, stamp, replace}
use link_pilot.Core.Store.Persisting.{replace-Persisted}
use link_pilot.Core.Store.Memory.{state-replace}
use link_pilot.Desktop.Distribution.{validate_document}
use link_pilot.Desktop.Commands.Base.{App, Shell, save, replace_config, edit}

-- A document with other metadata.
abbrev pub Remarked : ConfigDocument → ConfigDocument → Type 0
Remarked doc doc' = (m : Meta) × (doc' ≡ record doc { meta = m })

module _ {Url Value : Type 0} (shell : Shell Url Value) (token : Uuid) where
  -- The document that the edition allows is in memory, up to its metadata.
  replace_config-Remarked :
      (doc : ConfigDocument) (app : App Url)
      → validate_document shell.edition doc ≡ ok tt
      → Remarked doc (replace_config shell token doc app).1.config.state.doc
  unfolding replace_config save stamp
  replace_config-Remarked doc app accepted =
      elim (state-replace shell.json shell.path token WriterId.gui doc app.config) [
        | inl plain ↦ (doc.meta, rw accepted (ap (λ s. s.doc) plain))
        | inr stamped ↦ (
          record { last_writer_token = some token; last_writer = some WriterId.gui },
          rw accepted (ap (λ s. s.doc) stamped),
        )
      ]

  -- Nothing has happened, or the document in memory is the one to save, up to its metadata.
  replace_config-cases :
      (doc : ConfigDocument) (app : App Url)
      → ((replace_config shell token doc app).1 ≡ app)
        ⊎ Remarked doc (replace_config shell token doc app).1.config.state.doc
  unfolding replace_config save
  replace_config-cases doc app = elim (Result-cases (validate_document shell.edition doc)) [
    | inr (e, refused) ↦ inl (rw refused refl)
    | inl (u, accepted) ↦ inr (replace_config-Remarked doc app accepted)
  ]

  -- A predicate that does not look at the metadata and that holds of a document is kept by its save.
  pub replace_config-keeps :
      (P : ConfigDocument → Type 0)
      → ((doc : ConfigDocument) (m : Meta) → P doc → P (record doc { meta = m }))
      → (doc : ConfigDocument) (app : App Url) → P doc
      → P app.config.state.doc
      → P (replace_config shell token doc app).1.config.state.doc
  replace_config-keeps P marked doc app new h = elim (replace_config-cases doc app) [
    | inl same ↦ subst (λ (a : App Url). P a.config.state.doc) (sym same) h
    | inr (m, saved) ↦ subst P (sym saved) (marked doc m new)
  ]

  -- So it is by a command whose change keeps it.
  pub edit-keeps :
      (P : ConfigDocument → Type 0)
      → ((doc : ConfigDocument) (m : Meta) → P doc → P (record doc { meta = m }))
      → (change : ConfigDocument → ConfigDocument) → (app : App Url)
      → P (change app.config.state.doc)
      → P app.config.state.doc
      → P (edit shell token change app).1.config.state.doc
  unfolding edit
  edit-keeps P marked change app keeps h =
      replace_config-keeps P marked (change app.config.state.doc) app keeps h

  -- What a save does to the app, by its result.
  pub record Saved (doc : ConfigDocument) (before : App Url) (r : Result (Unit {0}) String)
      (after : App Url) : Type 0 where
    -- On success the document is one that the edition allows, the document in memory is the
    -- stamped one, and the file holds its text.
    pub saved :
        r ≡ ok tt
        → (text : String) × (validate_document shell.edition doc ≡ ok tt)
          × (after.config.state
              ≡ stamp token WriterId.gui (record before.config.state { doc = doc }))
          × (shell.json.to_string_pretty after.config.state.doc ≡ ok text)
          × (after.config.disk.files shell.path ≡ some text)
    -- A document that the edition does not allow is refused, and nothing changes.
    pub refused :
        (e : String) → validate_document shell.edition doc ≡ err e → (r ≡ err e) × (after ≡ before)
    -- A document that the edition allows is in memory, up to its metadata, also where the save of it
    -- failed.
    pub in_memory :
        validate_document shell.edition doc ≡ ok tt → Remarked doc after.config.state.doc
    -- After any error the file is what it was.
    pub kept :
        (e : String)
        → r ≡ err e
        → after.config.disk.files shell.path ≡ before.config.disk.files shell.path

  -- `replace_config` refuses a document that the edition does not allow before anything changes;
  -- otherwise it leaves the file with the text of the stamped document, which is the one in memory,
  -- or after an error, at whichever operation, the file as it was, but in memory the new document, up
  -- to its metadata. The temporary name must differ.
  pub replace_config-Saved :
      (doc : ConfigDocument) (app : App Url)
      → tmp_path shell.path ≢ shell.path
      → Saved doc app (replace_config shell token doc app).0 (replace_config shell token doc app).1
  unfolding replace_config save
  replace_config-Saved doc app apart =
      let remarked = replace_config-Remarked doc app in
      let p = replace-Persisted shell.json shell.path token WriterId.gui doc app.config apart in
      elim (Result-cases (validate_document shell.edition doc)) [
        | inr (e, unfit) ↦ rw unfit (record {
          saved = λ h. cc;
          refused = λ e' h. (sym unfit ∙ h, refl);
          in_memory = λ h. cc;
          kept = λ e' h. refl;
        })
        | inl (u, fit) ↦
            elim (Result-cases
              (replace shell.json shell.path token doc WriterId.gui app.config).0) [
                | inl (v, done) ↦
                    let s = p.saved done in
                    rw (fit, done)
                      (record {
                        saved = λ h. (s.0, fit, s.1, s.2, s.3);
                        refused = λ e h. cc;
                        in_memory = λ h. rw fit at (remarked fit);
                        kept = λ e h. cc;
                      })
                | inr (e, failed) ↦
                    rw (fit, failed)
                      (record {
                        saved = λ h. cc;
                        refused = λ e' h. cc;
                        in_memory = λ h. rw fit at (remarked fit);
                        kept = λ e' h. p.kept e failed;
                      })
              ]
      ]
