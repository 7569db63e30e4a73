-- ===== src/Desktop/Picker/Turns.antt =====
-- Whose pick an ask gets, under every order of the steps (apps/desktop/src-tauri/src/picker.rs).
use link_pilot.Prelude.{ℕ, ◌<◌, ◌≡◌, ◌⊎◌, Option, none, some}
use link_pilot.Desktop.Picker.{
  PickerSession, PickerPick, Phase, Room, Event, show, built, failed, resolve, deliver, receive,
  expire, clear_session, clear_pending,
}

-- The pick that a call got.
abbrev pick_in : Phase → Option PickerPick
pick_in Phase.opening = none
pick_in Phase.waiting = none
pick_in (Phase.woken p) = p
pick_in (Phase.cleared p) = p
pick_in (Phase.done p) = p

abbrev IsOwn : Option PickerSession → Option PickerSession → Type 0
IsOwn own shown = (shown ≡ own) ⊎ (shown ≡ none)

abbrev Sent : Type 0
Sent = Option PickerSession × Option PickerPick

abbrev HasMessage : Room → ℕ → PickerPick → Type 0
HasMessage r n p = (shown : Option PickerSession) × (r.sent n ≡ some (shown, some p))

record IsSound (r : Room) : Type 0 where
  held : (n : ℕ) → r.slot.pending ≡ some n → IsOwn (r.asked n) r.slot.session
  behind_next : (n : ℕ) → r.slot.pending ≡ some n → n < r.next
  sent_old : (n : ℕ) (m : Sent) → r.sent n ≡ some m → n < r.next
  mailed : (n : ℕ) (m : Sent) → r.sent n ≡ some m → IsOwn (r.asked n) m.0
  hand_old : (n : ℕ) (m : Sent) → r.hands n ≡ some m → n < r.next
  in_hand : (n : ℕ) (m : Sent) → r.hands n ≡ some m → IsOwn (r.asked n) m.0
  old : (n : ℕ) (phase : Phase) → r.phases n ≡ some phase → n < r.next
  received :
      (n : ℕ) (phase : Phase) (p : PickerPick)
      → r.phases n ≡ some phase
      → pick_in phase ≡ some p
      → HasMessage r n p

abbrev number : Event → ℕ
number (show shown) = 0
number (resolve picked) = 0
number (deliver n) = n
number (built n) = n
number (failed n) = n
number (receive n) = n
number (expire n) = n
number (clear_session n) = n
number (clear_pending n) = n
