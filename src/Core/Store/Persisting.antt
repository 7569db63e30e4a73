-- ===== src/Core/Store/Persisting.antt =====
-- Writing the configuration (crates/core/src/config/store.rs): the file is replaced as a whole or
-- left alone, whatever operation of the system fails.
use link_pilot.Prelude.{
  String, ◌≡◌, ◌≢◌, inl, inr, refl, ap, ◌∙◌, Option, none, some, Result, ok, err, arith,
  Result-cases,
}
use link_pilot.Prelude.Tasks.{◌>>◌}
use link_pilot.Core.Files.{FilePath, Disk, parent, write, rename}
use link_pilot.Core.Files.Laws.{
  files-create_dir_all, write_ok, write_err, rename_err, stored_self, stored_ne, rename_puts,
}
use link_pilot.Core.Rules.{Uuid}
use link_pilot.Core.Config.{ConfigDocument, WriterId}
use link_pilot.Core.Store.Documents.{ConfigError, SerdeJson}
use link_pilot.Core.Store.Stores.{
  World, Stored, on_disk, tmp_path, stamp, create_parent, persist, replace,
}

files-create_parent :
    (dir : Option FilePath) (w : World) → (create_parent dir w).1.disk.files ≡ w.disk.files
unfolding create_parent
files-create_parent none w = refl
files-create_parent (some dir) w = files-create_dir_all w.disk dir

pub state-create_parent :
    (dir : Option FilePath) (w : World) → (create_parent dir w).1.state ≡ w.state
unfolding create_parent
state-create_parent none w = refl
state-create_parent (some dir) w = refl

-- The last two steps of `persist`.
abbrev put_text : FilePath → String → Stored (Unit {0})
put_text path text = on_disk (write (tmp_path path) text) >> on_disk (rename (tmp_path path) path)

module _ (path : FilePath) (text : String) (w : World) where
  abbrev d' : Disk
  d' = (write (tmp_path path) text w.disk).1

  written_there :
      (write (tmp_path path) text w.disk).0 ≡ ok tt → d'.files (tmp_path path) ≡ some text
  written_there h =
      ap (λ f. f (tmp_path path)) (write_ok w.disk (tmp_path path) text h)
      ∙ stored_self w.disk.files (tmp_path path) (some text)

  kept_here :
      tmp_path path ≢ path
      → (write (tmp_path path) text w.disk).0 ≡ ok tt
      → d'.files path ≡ w.disk.files path
  kept_here apart h =
      ap (λ f. f path) (write_ok w.disk (tmp_path path) text h)
      ∙ stored_ne w.disk.files (tmp_path path) path (some text) apart

  pub put_text_ok :
      (put_text path text w).0 ≡ ok tt → (put_text path text w).1.disk.files path ≡ some text
  put_text_ok h = ground (arith, written_there, rename_puts (tmp_path path) path d' text)

  pub put_text_err :
      (e : ConfigError)
      → tmp_path path ≢ path
      → (put_text path text w).0 ≡ err e
      → (put_text path text w).1.disk.files path ≡ w.disk.files path
  put_text_err e apart h = elim (Result-cases (write (tmp_path path) text w.disk).0) [
    | inr (e', failed) ↦
        rw (failed) (ap (λ f. f path) (write_err w.disk (tmp_path path) text e' failed))
    | inl (u, written) ↦ elim (Result-cases (rename (tmp_path path) path d').0) [
      | inr (e', failed) ↦ rw written (
          ap (λ f. f path) (rename_err d' (tmp_path path) path e' failed) ∙ kept_here apart written)
      | inl (v, renamed) ↦ cc
    ]
  ]

  pub state-put_text : (put_text path text w).1.state ≡ w.state
  state-put_text = ground arith

module _ {Value : Type 0} (json : SerdeJson Value) (path : FilePath) (token : Uuid)
    (writer : WriterId) where
  -- What `persist` does to a world, by its result.
  pub record Persisted (before : World) (r : Result (Unit {0}) ConfigError) (after : World)
      : Type 0 where
    -- On success the file holds the text of the stamped document, which is the one in memory.
    pub saved :
        r ≡ ok tt
        → (text : String) × (after.state ≡ stamp token writer before.state)
          × (json.to_string_pretty after.state.doc ≡ ok text)
          × (after.disk.files path ≡ some text)
    -- On an error the file is what it was.
    pub kept : (e : ConfigError) → r ≡ err e → after.disk.files path ≡ before.disk.files path
    -- Either way the document in memory has the rules that it had.
    pub rules_kept : after.state.doc.rules ≡ before.state.doc.rules

  pub persist-Persisted :
      (w : World)
      → tmp_path path ≢ path
      → Persisted w (persist json path token writer w).0 (persist json path token writer w).1
  unfolding persist stamp
  persist-Persisted w apart =
      let wc : World = (create_parent (parent path) w).1 in
      let files_c = files-create_parent (parent path) w in
      let state_c = state-create_parent (parent path) w in
      let w2 : World = record wc { state = stamp token writer wc.state } in
      elim (Result-cases (create_parent (parent path) w).0) [
        | inr (e, failed) ↦ rw failed (record {
          saved = λ h. cc;
          kept = λ e' h. ap (λ f. f path) files_c;
          rules_kept = ap (λ s. s.doc.rules) state_c;
        })
        | inl (u, created) ↦ elim (Result-cases (json.to_string_pretty w2.state.doc)) [
          | inr (e, failed) ↦
              rw (created, failed)
                (record {
                  saved = λ h. cc;
                  kept = λ e' h. ap (λ f. f path) files_c;
                  rules_kept = ap (λ s. s.doc.rules) state_c;
                })
          | inl (text, shown) ↦
              rw (created, shown)
                (record {
                  saved = λ h. (
                    text,
                    state-put_text path text w2 ∙ ap (stamp token writer) state_c,
                    ap (λ s. json.to_string_pretty s.doc) (state-put_text path text w2) ∙ shown,
                    put_text_ok path text w2 h,
                  );
                  kept = λ e' h. put_text_err path text w2 e' apart h ∙ ap (λ f. f path) files_c;
                  rules_kept =
                      ap (λ s. s.doc.rules)
                        (state-put_text path text w2 ∙ ap (stamp token writer) state_c);
                })
        ]
      ]

  -- `replace` puts the document in memory whatever happens then, and persists it: on success the file
  -- holds the text of the stamped document, on an error the file is what it was.
  pub replace-Persisted :
      (doc : ConfigDocument) (w : World)
      → tmp_path path ≢ path
      → Persisted
          (record w { state = record w.state { doc = doc } })
          (replace json path token doc writer w).0
          (replace json path token doc writer w).1
  unfolding replace
  replace-Persisted doc w apart =
      persist-Persisted (record w { state = record w.state { doc = doc } }) apart
