-- ===== src/Core/Store/Watching.antt =====
-- The watcher of the configuration file (crates/core/src/config/store.rs): own writes and those of
-- others.
use link_pilot.Prelude.{
  String, ◌≡◌, ◌≢◌, ◌⊎◌, ◌↔◌, inl, inr, refl, sym, ap, ◌∙◌, subst, Bool, Option, none, some, ok,
  arith, Result-cases,
}
use link_pilot.Core.Files.{FilePath, read_to_string}
use link_pilot.Core.Files.Laws.{read_to_string_ok}
use link_pilot.Core.Rules.{Uuid}
use link_pilot.Core.Config.{ConfigDocument, WriterId}
use link_pilot.Core.Store.Documents.{SerdeJson, parse_with_priority_migration}
use link_pilot.Core.Store.Stores.{
  ChangeOrigin, echo, external, State, World, tmp_path, stamp, replace, state_of, origin_of, absorb,
  handle_disk_change,
}
use link_pilot.Core.Store.Persisting.{replace-Persisted}

-- The two tokens are there and equal.
abbrev pub SameToken : ConfigDocument → State → Type 0
SameToken parsed s =
    (t : Uuid) × (parsed.meta.last_writer_token ≡ some t) × (s.last_writer_token ≡ some t)

ChangeOrigin-cases : (o : ChangeOrigin) → (o ≡ echo) ⊎ (o ≡ external)
ChangeOrigin-cases echo = inl refl
ChangeOrigin-cases external = inr refl

external≢echo : external ≢ echo
external≢echo h = cc

origin_of-echo_iff :
    (a b : Option Uuid) → (origin_of a b ≡ echo) ↔ ((t : Uuid) × (a ≡ some t) × (b ≡ some t))
unfolding origin_of
origin_of-echo_iff none b = (λ h. cc, λ h. cc (h.1))
origin_of-echo_iff (some t) none = (λ h. cc, λ h. cc (h.2))
origin_of-echo_iff (some t) (some u) = (λ h. (t, refl, ground arith), λ h. ground (arith, h.1, h.2))

-- A change is an echo exactly when both tokens are there and equal; then nothing changes, and
-- otherwise the document on disk and its token are taken over.
pub absorb_lem :
    (parsed : ConfigDocument) (s : State)
    → (SameToken parsed s × (absorb parsed s ≡ (some echo, s)))
      ⊎ ((¬ SameToken parsed s) × (absorb parsed s ≡ (some external, state_of parsed)))
unfolding absorb
absorb_lem parsed s =
    elim (ChangeOrigin-cases (origin_of parsed.meta.last_writer_token s.last_writer_token)) [
      | inl same ↦
          rw (same, absorb)
            (inl
              ((origin_of-echo_iff parsed.meta.last_writer_token s.last_writer_token).0 same, refl))
      | inr other ↦
          rw (other, absorb)
            (inr (
              λ h. external≢echo (
                  sym other
                  ∙ (origin_of-echo_iff parsed.meta.last_writer_token s.last_writer_token).1 h),
              refl,
            ))
    ]

absorb_own :
    (parsed : ConfigDocument) (s : State) → SameToken parsed s → absorb parsed s ≡ (some echo, s)
absorb_own parsed s h = elim (absorb_lem parsed s) [ inl (k, e) ↦ e | inr (k, e) ↦ absurd (k h) ]

-- Reading the same file again does not change the state once more.
pub absorb_twice :
    (parsed : ConfigDocument) (s : State)
    → (absorb parsed (absorb parsed s).1).1 ≡ (absorb parsed s).1
unfolding absorb state_of origin_of
absorb_twice parsed s = ground arith

module _ {Value : Type 0} (json : SerdeJson Value) (path : FilePath) where
  -- Reading back the text of the document gives the document.
  abbrev pub ReadsBack : ConfigDocument → Type 0
  ReadsBack doc =
      (text : String)
      → json.to_string_pretty doc ≡ ok text
      → (migrated : Bool) × (parse_with_priority_migration json text ≡ ok (doc, migrated))

  -- The watcher on a file that holds the document in memory, whose token the state has.
  own_write :
      (w : World) (t : Uuid) (text : String)
      → ReadsBack w.state.doc
      → w.state.last_writer_token ≡ some t
      → w.state.doc.meta.last_writer_token ≡ some t
      → json.to_string_pretty w.state.doc ≡ ok text
      → w.disk.files path ≡ some text
      → (((handle_disk_change json path w).0 ≡ some echo)
          ⊎ ((handle_disk_change json path w).0 ≡ none))
        × ((handle_disk_change json path w).1.state ≡ w.state)
  unfolding handle_disk_change
  own_write w t text trips held token shown there =
      elim (Result-cases (read_to_string path w.disk).0) [
        | inr (e, failed) ↦ rw (failed, handle_disk_change) (inr refl, refl)
        | inl (raw, got) ↦
            let same : raw ≡ text = ground (arith, read_to_string_ok w.disk path got) in
            let (migrated, parses) = trips text shown in
            let own : absorb w.state.doc w.state ≡ (some echo, w.state) =
              absorb_own w.state.doc w.state (t, token, held) in
            rw (got, same, parses, own, handle_disk_change) (inl refl, refl)
      ]

  -- After a successful `replace` the watcher takes the new file for an echo, or cannot read it, and
  -- keeps the state, provided that the stamped document reads back as it was written.
  pub replace-handle_disk_change :
      (token : Uuid) (doc : ConfigDocument) (writer : WriterId) (w : World)
      → tmp_path path ≢ path
      → ReadsBack (stamp token writer (record w.state { doc = doc })).doc
      → (replace json path token doc writer w).0 ≡ ok tt
      → (((handle_disk_change json path (replace json path token doc writer w).1).0 ≡ some echo)
          ⊎ ((handle_disk_change json path (replace json path token doc writer w).1).0 ≡ none))
        × ((handle_disk_change json path (replace json path token doc writer w).1).1.state
            ≡ (replace json path token doc writer w).1.state)
  unfolding stamp
  replace-handle_disk_change token doc writer w apart trips done =
      let (text, state, shown, there) =
        (replace-Persisted json path token writer doc w apart).saved done in
      own_write (replace json path token doc writer w).1 token text
        (subst (λ s. ReadsBack s.doc) (sym state) trips) (ap (λ s. s.last_writer_token) state)
        (ap (λ s. s.doc.meta.last_writer_token) state) shown there
