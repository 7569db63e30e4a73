-- ===== src/Core/Store/Memory.antt =====
-- The document in memory after `replace` (crates/core/src/config/store.rs), whatever its result.
use link_pilot.Prelude.{◌≡◌, ◌⊎◌, inl, inr, ap, ◌∙◌, Result-cases}
use link_pilot.Core.Files.{FilePath, parent}
use link_pilot.Core.Rules.{Uuid}
use link_pilot.Core.Config.{ConfigDocument, WriterId}
use link_pilot.Core.Store.Documents.{SerdeJson}
use link_pilot.Core.Store.Stores.{World, stamp, create_parent, persist, replace}
use link_pilot.Core.Store.Persisting.{state-create_parent, state-put_text}

module _ {Value : Type 0} (json : SerdeJson Value) (path : FilePath) (token : Uuid)
    (writer : WriterId) where
  state-persist :
      (w : World)
      → ((persist json path token writer w).1.state ≡ w.state)
        ⊎ ((persist json path token writer w).1.state ≡ stamp token writer w.state)
  unfolding persist
  state-persist w =
      let wc : World = (create_parent (parent path) w).1 in
      let same = state-create_parent (parent path) w in
      let w2 : World = record wc { state = stamp token writer wc.state } in
      elim (Result-cases (create_parent (parent path) w).0) [
        | inr (e, failed) ↦ inl (rw failed same)
        | inl (u, created) ↦ elim (Result-cases (json.to_string_pretty w2.state.doc)) [
          | inr (e, failed) ↦ inr (rw (created, failed) (ap (stamp token writer) same))
          | inl (text, shown) ↦
              inr (rw (created, shown) (state-put_text path text w2 ∙ ap (stamp token writer) same))
        ]
      ]

  -- The document given, with or without the stamp.
  pub state-replace :
      (doc : ConfigDocument) (w : World)
      → ((replace json path token doc writer w).1.state ≡ record w.state { doc = doc })
        ⊎ ((replace json path token doc writer w).1.state
            ≡ stamp token writer (record w.state { doc = doc }))
  unfolding replace
  state-replace doc w = state-persist (record w { state = record w.state { doc = doc } })
