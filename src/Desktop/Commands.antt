-- ===== src/Desktop/Commands.antt =====
-- apps/desktop/src-tauri/src/commands/mod.rs: the commands that the app's front end calls. `Base` has
-- the app's state, `Edits` what they do to a document, `Calls` the commands, `Calling` their runs
-- in sequence; `Saving`, `Keeping`, `Identifiers`, `Groups`, `Merging` and `Orders` have theorems.
pub mod Base
pub mod Edits
pub mod Suggestions
pub mod Calls
pub mod Saving
pub mod Calling
pub mod Keeping
pub mod Identifiers
pub mod Merging
pub mod Orders
pub mod Groups
