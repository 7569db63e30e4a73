-- ===== src/Desktop/Picker/Blocked.antt =====
-- A window that is not built (apps/desktop/src-tauri/src/picker.rs): `show_picker` returns and leaves
-- its sender in the slot.
use link_pilot.Prelude.{
  ℕ, suc, true, eqb, Bool-cases, arith, ◌≡◌, ◌∙◌, ap, sym, refl, ◌⊎◌, inl, inr, Option, none, some,
  List, [], ◌∷◌,
}
use link_pilot.Desktop.Picker.{
  PickerSession, PickerPick, Phase, Room, Event, show, built, failed, resolve, deliver, receive,
  expire, clear_session, clear_pending, in_phase, step, run, show-busy, of_call, delivered, claim,
  put,
}

-- Nothing of a call that has returned is left to run.
abbrev pub IsOver : Option Phase → Type 0
IsOver phase = (phase ≡ none) ⊎ ((p : Option PickerPick) × (phase ≡ some (Phase.done p)))

-- No answer of the front end is among the events.
abbrev pub NoAnswer : List Event → Type 0
NoAnswer [] = Unit
NoAnswer (resolve picked ∷ events) = ⊥
NoAnswer (_ ∷ events) = NoAnswer events

NoAnswer-head : (e : Event) (events : List Event) → NoAnswer (e ∷ events) → NoAnswer (e ∷ [])
NoAnswer-head (resolve picked) events h = h
NoAnswer-head _ events h = tt

NoAnswer-tail : (e : Event) (events : List Event) → NoAnswer (e ∷ events) → NoAnswer events
NoAnswer-tail (resolve picked) events h = absurd h
NoAnswer-tail _ events h = h

in_phase-done : (e : Event) (p : Option PickerPick) (r : Room) → in_phase e (Phase.done p) r ≡ r
unfolding in_phase
in_phase-done (built n) p r = refl
in_phase-done _ p r = refl

of_call-over : (e : Event) (phase : Option Phase) (r : Room) → IsOver phase → of_call e phase r ≡ r
of_call-over e phase r (inl h) = rw h
of_call-over e phase r (inr (p, h)) = rw h (in_phase-done e p r)

delivered-none :
    (n : ℕ) (o : Option (Option PickerSession × Option PickerPick)) (r : Room)
    → o ≡ none
    → delivered n o r ≡ r
delivered-none n o r h = rw h refl

module _ (r : Room) (n : ℕ) (held : r.slot.pending ≡ some n) (over : (m : ℕ) → IsOver (r.phases m))
    (idle : (m : ℕ) → r.hands m ≡ none) where
  step-stuck : (e : Event) → NoAnswer (e ∷ []) → step e r ≡ r
  unfolding step
  step-stuck (show shown) h = show-busy shown r n held
  step-stuck (resolve picked) h = absurd h
  step-stuck (deliver m) h = delivered-none m (r.hands m) r (idle m)
  step-stuck (built m) h = of_call-over (built m) (r.phases m) r (over m)
  step-stuck (failed m) h = of_call-over (failed m) (r.phases m) r (over m)
  step-stuck (receive m) h = of_call-over (receive m) (r.phases m) r (over m)
  step-stuck (expire m) h = of_call-over (expire m) (r.phases m) r (over m)
  step-stuck (clear_session m) h = of_call-over (clear_session m) (r.phases m) r (over m)
  step-stuck (clear_pending m) h = of_call-over (clear_pending m) (r.phases m) r (over m)

  run-stuck : (events : List Event) → NoAnswer events → run events r ≡ r
  unfolding run
  run-stuck [] h = refl
  run-stuck (e ∷ events) h =
      ap (run events) (step-stuck e (NoAnswer-head e events h))
      ∙ run-stuck events (NoAnswer-tail e events h)

-- A call that is dropped before its window is built.
module _ (r : Room) (shown : PickerSession) (free : r.slot.pending ≡ none) where
  abbrev after_failure : Room
  after_failure = step (failed r.next) (step (show shown) r)

  -- What the two steps leave.
  abbrev remaining : Room
  remaining = record r {
    slot = record { session = some shown; pending = some r.next };
    next = suc r.next;
    asked = put r.next shown r.asked;
    phases = put r.next (Phase.done none) (put r.next Phase.opening r.phases);
  }

  after_failure-left : after_failure ≡ remaining
  unfolding step claim in_phase
  after_failure-left =
      let same : eqb r.next r.next ≡ true = ground arith in
      rw (free, claim) (rw (same, in_phase) refl)

  remaining-IsOver : ((m : ℕ) → IsOver (r.phases m)) → (m : ℕ) → IsOver (remaining.phases m)
  remaining-IsOver over m = elim (Bool-cases (eqb r.next m)) [
    | inl same ↦ inr (none, rw same refl)
    | inr other ↦ rw other (over m)
  ]

-- Where no call of `show_picker` and no answer of the front end is under way and no sender stands in the
-- slot, a call whose window cannot be built leaves its sender in the slot, and from then on nothing but an answer of the front
-- end changes the slot: every further call is dropped, and no step frees the slot.
pub run-failed :
    (r : Room) (shown : PickerSession) (events : List Event)
    → r.slot.pending ≡ none
    → ((m : ℕ) → IsOver (r.phases m))
    → ((m : ℕ) → r.hands m ≡ none)
    → NoAnswer events
    → ((run (show shown ∷ failed r.next ∷ events) r).slot.pending ≡ some r.next)
      × (run (show shown ∷ failed r.next ∷ events) r ≡ run (show shown ∷ failed r.next ∷ []) r)
unfolding run
run-failed r shown events free over idle quiet =
    let left = after_failure-left r shown free in
    let stuck =
      run-stuck (remaining r shown free) r.next refl (remaining-IsOver r shown free over) idle
        events quiet in
    (
      ap (λ q. (run events q).slot.pending) left ∙ ap (λ q. q.slot.pending) stuck,
      ap (run events) left ∙ stuck ∙ sym left,
    )
