-- ===== src/Core/Observations/Muting.antt =====
-- What `dismiss` and `active_dismissals` (crates/core/src/observations.rs) show of a dismissal.
use link_pilot.Prelude.{
  ℕ, ◌≡◌, ◌∙◌, Bool, false, List, [], ◌∷◌, any, arith, ◌≤◌, ◌+◌, ◌*◌, leb, if◌then◌else◌, inl, inr,
  Bool-cases,
}
use link_pilot.Core.Observations.Entries.{
  DismissedSuggestion, Key, key_eq, dismissed_key, ttl_cutoff, active_dismissals,
  dismissal_ttl_days, ms_per_day,
}
use link_pilot.Core.Observations.Counts.{key_from_true, key_to_true}
use link_pilot.Core.Observations.Logs.{LogJson, mute}

-- The tuple is muted at the time.
abbrev pub muted : Key → List DismissedSuggestion → ℕ → Bool
muted k entries now = any (key_eq k) (active_dismissals entries now)

module _ (json : LogJson) (k : Key) (now later : ℕ) where
  muted_self :
      (entries : List DismissedSuggestion) (t : ℕ)
      → ttl_cutoff later ≤ now
      → muted k (mute json k now later entries) t ≡ leb (ttl_cutoff t) now
  unfolding mute active_dismissals
  muted_self [] t h = ground (arith, key_to_true k k)
  muted_self (e ∷ es) t h =
      ground
        (arith, muted_self es t, key_from_true k (dismissed_key e), key_to_true (dismissed_key e) k)

  muted_other :
      (j : Key) (entries : List DismissedSuggestion) (t : ℕ)
      → key_eq j k ≡ false
      → later ≤ t
      → muted j (mute json k now later entries) t ≡ muted j entries t
  unfolding mute active_dismissals
  muted_other j [] t h le = ground arith
  muted_other j (e ∷ es) t h le = ground (
    arith,
    muted_other j es t,
    key_from_true j (dismissed_key e),
    key_from_true (dismissed_key e) k,
    key_to_true j k,
  )

  -- A dismissed tuple is muted until 30 days after the dismissal, and from then on the other tuples
  -- are muted as before; the clock must not move by 30 days between its two readings.
  pub mute-muted :
      (j : Key) (entries : List DismissedSuggestion) (t : ℕ)
      → ttl_cutoff later ≤ now
      → later ≤ t
      → muted j (mute json k now later entries) t
        ≡ (if key_eq j k then leb t (now + dismissal_ttl_days * ms_per_day) else muted j entries t)
  mute-muted j entries t h le = elim (Bool-cases (key_eq j k)) [
    | inr other ↦ rw other (muted_other j entries t other le)
    | inl same ↦ rw (same, key_from_true j k same) (muted_self entries t h ∙ ground arith)
  ]
