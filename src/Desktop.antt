-- ===== src/Desktop.antt =====
-- apps/desktop/src-tauri: the desktop app. `Dispatch` takes a routing decision and launches or asks,
-- `Picker` is the slot of the picker and `Asking` the thread of an ask, `Handler` the ways in from the
-- socket and from the system, `Commands` are the calls of the front end, `Distribution` the checks of
-- the edition, `Downloads` and `Releases` the updates; `Outcomes` has theorems.
pub mod Commands
pub mod Picker
pub mod Asking
pub mod Dispatch
pub mod Distribution
pub mod Downloads
pub mod Releases
pub mod Outcomes
pub mod Handler
