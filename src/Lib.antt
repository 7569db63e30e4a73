-- ===== src/Lib.antt =====
-- LinkPilot decides in which browser, and with which profile, an address opens. This library models
-- the core of it and proves what makes the parts correct.
--
-- The program. crates/core has the routing engine, the configuration with its store, the history of
-- decisions, the observations of what a user picks, and the daemon's state behind its request
-- handler. crates/ipc frames the messages between the daemon and its clients and serves their
-- connections. apps/desktop is the app around them: it takes a decision and launches a browser or
-- shows a picker, and its commands change the configuration. crates/cli is the tool `lpt`, which
-- asks the daemon or reads and changes the configuration itself. crates/updater replaces the
-- installed app and goes back on a failure. crates/platform-mac finds and starts browsers. An address comes in as a routing context; the engine
-- walks the rules of the configuration and gives a decision with a trace; the daemon logs it and
-- launches, or the app does, with fallbacks.
--
-- The files. Prelude has shared types and lemmas: lists, texts as Rust's `str`, `Result`, a stable
-- `sort_by`, `HashMap` as a list of entries, the order of texts, `i64`, `Task`, a computation on a state
-- that may return early with an error, changes of a list by identifier, chains of errors as in the crate
-- anyhow, and the parsing of texts.
--   Core.Files       std::fs and std::path: a disk on which any operation may fail
--   Core.Browser     crates/core/src/browser.rs, its types
--   Core.Platform    crates/core/src/platform.rs, the error and the opener of an address
--   Core.Inventory   crates/core/src/inventory.rs: `Accents` the colour of a profile, `RoundTrip` a theorem
--   Core.Profiles    crates/core/src/browser.rs, `apply_profile_order`
--   Core.Rules       crates/core/src/rules.rs
--   Core.Config      crates/core/src/config/mod.rs
--   Core.Routing     crates/core/src/routing.rs: `Context` its types, `Matching` the matchers,
--                    `Evaluate` the walk; `Globs`, `Semantics`, `Traces`, `Selection`, `FirstMatch`
--                    and `Winner` what they mean
--   Core.Store       crates/core/src/config/store.rs: `Documents` parsing and migration, `Stores` the
--                    methods of `ConfigStore`; `Persisting`, `Watching`, `Migration` and `Memory`
--                    their theorems
--   Core.History     crates/core/src/history.rs
--   Core.Observations  crates/core/src/observations.rs: `Entries` the data, `Aggregate` the
--                    suggestions, `Logs` the files; `Counts`, `Suggesting`, `Muting`, `Writing` theorems
--   Core.Protocol    crates/core/src/protocol.rs
--   Core.Endpoint    crates/core/src/endpoint.rs
--   Core.Daemon      crates/core/src/daemon.rs, `DaemonRuntime::handle`
--   Core.PidFile     crates/core/src/daemon.rs, the functions on the PID file
--   Ipc.Transport    crates/ipc/src/transport.rs
--   Ipc.Server       crates/ipc/src/server.rs, the loop of a connection
--   Ipc.Client       crates/ipc/src/client.rs, one request; `Exchanges` both ends of a connection
--   Desktop.Dispatch apps/desktop/src-tauri/src/dispatch.rs, from a decision to a launch or a picker
--   Desktop.Picker   apps/desktop/src-tauri/src/picker.rs, the slot of the picker and the steps of its
--                    calls and of the front end; `Turns` and `Blocked` theorems
--   Desktop.Asking   apps/desktop/src-tauri/src/dispatch.rs, `resolve_ask` and the thread around it:
--                    `Offers` what is offered, `Preview` the preview of picker.rs, the others
--                    theorems
--   Desktop.Handler  apps/desktop/src-tauri/src/ipc_host.rs and url_handler.rs; `Agreement` theorems
--   Desktop.Commands  apps/desktop/src-tauri/src/commands/mod.rs, the commands on the configuration and
--                    on routes: `Base` the app's state, `Edits` the changes of a document, `Calls` the
--                    commands, `Suggestions` those of suggestions.rs, `Calling` their runs in sequence,
--                    as the table of handlers in lib.rs lists them; the others theorems
--   Desktop.Distribution  apps/desktop/src-tauri/src/distribution.rs with `validate_target` of
--                    crates/platform-mac/src/store.rs; the feature app-store is the type `Edition`
--   Desktop.Downloads, Desktop.Releases  commands/mod.rs, the download of an update, and the check for
--                    one: versions, the list of digests, the feed, and the answer in `Metadata`
--   Cli              crates/cli/src/main.rs: `Stores`, `Rules`, `Documents`, `Daemons`, `Formats` the
--                    code, the others theorems
--   Updater          crates/updater/src/lib.rs: `Jobs`, `Headers`, `Machines`, `Waits`, `Transactions`,
--                    `Workers`, `Agents`, `Startup` the code, the others theorems
--   Mac              crates/platform-mac/src: `Opener` the app that opened an address, `Inventory` the
--                    browsers, with their table in `Registry`, `Launcher` the start of a browser
--   Tests            runs and the theorems at concrete data
-- Functions have the names of the source in snake_case. A method that changes an object behind a lock
-- takes the object's state and gives the new one; `?` is the bind of `Result` or of `Task`.
--
-- Parameters. The crate `url` is a record with `parse`, `host_str` and `path`; `serde_json` is a
-- record for each use of it; `f32` and the order in which a HashMap is read are parameters of the
-- aggregation; the platform's launcher and inventory are answers. So are the runs of `curl` and
-- `shasum`, `client::send` for the command line, what the tokio runtime and the socket answer to the
-- client, what the system tells the updater of files and processes, the crate semver, and the control
-- of the daemon's service by `launchctl`. The inventory of an ask, `show_picker` for the thread of an
-- ask, what `plutil` and `NSWorkspace` answer, and `Path::exists` are arguments. The clock, fresh
-- identifiers and process-wide variables are arguments. What a theorem relies on of them is among its hypotheses.
--
-- Bounds and fuel. A disk takes the outcomes of its operations from a list, so a run covers a
-- failure anywhere. Counts of observations wrap at 2^32 as `u32` does. A frame is at most 4 MiB, as
-- in the source. Five loops have fuel, one unit for each turn: for that of a connection, one more
-- than the number of frames is enough; for the waits of the updater, one more than the tenths of
-- a second from the first look at the clock to the deadline, and the worker around them has their fuel;
-- for the search of the feed of releases, one more than its characters. The picker and the poller of
-- the opener run over a list of events, of any length. The turns of a loop are numbered, and the clock
-- and the system's answers are functions of the turn.
--
-- Not modelled: the threads of the file watcher and the accept loop of the server, which belong to
-- the crates notify and tokio; `DaemonRuntime::bootstrap`; the picker's window and its icons; the
-- updater's `prepare`, and what runs the system's programs (`verify_app`); the printing
-- commands of `lpt`, its `config compile` and its commands on the daemon's process; the app's dialogs,
-- icons and services, its windows and tray, the TypeScript front end, the rest of crates/platform-mac,
-- which calls the system's libraries, and the launcher of the edition for the App Store.
mod Prelude
pub mod Core
pub mod Ipc
pub mod Desktop
pub mod Cli
pub mod Updater
pub mod Mac
mod Tests
