-- ===== src/Desktop/Picker.antt =====
-- apps/desktop/src-tauri/src/picker.rs: the slot of the picker, which one ask at a time holds, and the
-- steps of the threads and of the front end that use it. `Turns` and `Blocked` have theorems.
use link_pilot.Prelude.{
  ℕ, zero, suc, String, Bool, true, false, Option, none, some, List, [], ◌∷◌, if◌then◌else◌, eqb,
  ◌≡◌, ap, arith,
}
use link_pilot.Core.Config.{PickerStyle}
pub mod Turns
pub mod Blocked

pub record PickerProfile : Type 0 where
  pub id : String
  pub name : String
  pub email : Option String
  pub accent_color : Option String
  pub is_default : Bool

pub record PickerChoice : Type 0 where
  pub id : String
  pub name : String
  pub bundle_id : Option String
  pub app_path : Option String
  pub icon_data_url : Option String
  pub profiles : List PickerProfile
  pub default_profile_id : Option String

pub record PickerSession : Type 0 where
  pub url : String
  pub choices : List PickerChoice
  pub style : PickerStyle

pub record PickerPick : Type 0 where
  pub browser_id : String
  pub profile_id : Option String

-- A sender is the number of the call of `show_picker` at the other end of its channel.
pub record PickerState : Type 0 where
  pub session : Option PickerSession
  pub pending : Option ℕ

-- The block under both locks in `show_picker`: `false` where the call is dropped.
unfoldable pub claim : ℕ → PickerSession → PickerState → Bool × PickerState
claim ask shown s = elim s.pending [
  | some other ↦ (false, s)
  | none ↦ (true, record { session = some shown; pending = some ask })
]

-- What `picker_session` answers.
abbrev pub picker_session : PickerState → Option PickerSession
picker_session s = s.session

-- `take` on the pending sender, in `picker_resolve`.
abbrev pub take_sender : PickerState → Option ℕ × PickerState
take_sender s = (s.pending, record s { pending = none })

-- How far a call of `show_picker` has come: before its window is built, at the wait, and after the
-- wait with what it got, before each of the two locks, and at its end.
pub data Phase : Type 0 where
  opening waiting : Phase
  woken cleared done : Option PickerPick → Phase

-- The slot, the next number, the session each call came with, how far each has come, the messages for
-- which the front end has taken the sender and that it has yet to send, and the first message in each
-- channel, each with the session that stood in the slot when its sender was taken.
pub record Room : Type 0 where
  pub slot : PickerState
  pub next : ℕ
  pub asked : ℕ → Option PickerSession
  pub phases : ℕ → Option Phase
  pub hands : ℕ → Option (Option PickerSession × Option PickerPick)
  pub sent : ℕ → Option (Option PickerSession × Option PickerPick)

module _ {A : Type 0} where
  abbrev pub put : ℕ → A → (ℕ → Option A) → ℕ → Option A
  put n a f m = if eqb n m then some a else f m

  abbrev pub emptied : ℕ → (ℕ → Option A) → ℕ → Option A
  emptied n f m = if eqb n m then none else f m

  -- A second message stands behind the first.
  abbrev pub behind : Option A → A → A
  behind none a = a
  behind (some first) a = first

abbrev pub empty_room : Room
empty_room = record {
  slot = record { session = none; pending = none };
  next = 0;
  asked = λ n. none;
  phases = λ n. none;
  hands = λ n. none;
  sent = λ n. none;
}

-- A call with its session; the window of a call that is built, or is not; an answer of the front end,
-- which takes the sender, and its message to a call, which is sent after the lock is released; a call
-- that gets its message, or waits no longer; and the two locks at its end.
pub data Event : Type 0 where
  show : PickerSession → Event
  built failed : ℕ → Event
  resolve : Option PickerPick → Event
  deliver receive expire clear_session clear_pending : ℕ → Event

abbrev entered : PickerSession → Bool × PickerState → Room → Room
entered shown (false, s) r = r
entered shown (true, s) r = record r {
  slot = s;
  next = suc r.next;
  asked = put r.next shown r.asked;
  phases = put r.next Phase.opening r.phases;
}

-- `picker_resolve`, up to the release of the lock.
abbrev taken : Option PickerPick → Option ℕ → Room → Room
taken picked none r = r
taken picked (some n) r = record r {
  slot = (take_sender r.slot).1;
  hands = put n (picker_session r.slot, picked) r.hands;
}

-- Its `tx.send`.
abbrev delivered : ℕ → Option (Option PickerSession × Option PickerPick) → Room → Room
delivered n none r = r
delivered n (some letter) r = record r {
  hands = emptied n r.hands;
  sent = put n (behind (r.sent n) letter) r.sent;
}

abbrev at : ℕ → Phase → Room → Room
at n phase r = record r { phases = put n phase r.phases }

abbrev got : ℕ → Option (Option PickerSession × Option PickerPick) → Room → Room
got n none r = r
got n (some (shown, picked)) r = at n (Phase.woken picked) r

-- A step that the phase of its call does not allow changes nothing.
unfoldable pub in_phase : Event → Phase → Room → Room
in_phase (built n) Phase.opening r = at n Phase.waiting r
in_phase (failed n) Phase.opening r = at n (Phase.done none) r
in_phase (receive n) Phase.waiting r = got n (r.sent n) r
in_phase (expire n) Phase.waiting r = at n (Phase.woken none) r
in_phase (clear_session n) (Phase.woken picked) r =
    at n (Phase.cleared picked) (record r { slot = record r.slot { session = none } })
in_phase (clear_pending n) (Phase.cleared picked) r =
    at n (Phase.done picked) (record r { slot = record r.slot { pending = none } })
in_phase _ _ r = r

abbrev of_call : Event → Option Phase → Room → Room
of_call e none r = r
of_call e (some phase) r = in_phase e phase r

unfoldable pub step : Event → Room → Room
unfolding claim in_phase
step (show shown) r = entered shown (claim r.next shown r.slot) r
step (resolve picked) r = taken picked r.slot.pending r
step (deliver n) r = delivered n (r.hands n) r
step (built n) r = of_call (built n) (r.phases n) r
step (failed n) r = of_call (failed n) (r.phases n) r
step (receive n) r = of_call (receive n) (r.phases n) r
step (expire n) r = of_call (expire n) (r.phases n) r
step (clear_session n) r = of_call (clear_session n) (r.phases n) r
step (clear_pending n) r = of_call (clear_pending n) (r.phases n) r

unfoldable pub run : List Event → Room → Room
run [] r = r
run (e ∷ events) r = run events (step e r)

claim-busy :
    (ask : ℕ) (shown : PickerSession) (s : PickerState) (n : ℕ)
    → s.pending ≡ some n
    → claim ask shown s ≡ (false, s)
unfolding claim
claim-busy ask shown s n h = ground arith

-- A call that finds the slot taken changes nothing.
pub show-busy :
    (shown : PickerSession) (r : Room) (n : ℕ) → r.slot.pending ≡ some n → step (show shown) r ≡ r
unfolding step
show-busy shown r n h = ap (λ c. entered shown c r) (claim-busy r.next shown r.slot n h)
