-- ===== src/Cli.antt =====
-- crates/cli/src/main.rs: the command line tool `lpt`. `Stores` has the access to the configuration,
-- `Rules` and `Documents` the commands, `Daemons` the calls of the daemon, `Formats` the
-- texts; `Places`, `Moves`, `Building`, `Mutating` and `Agreement` have theorems.
pub mod Stores
pub mod Rules
pub mod Documents
pub mod Daemons
pub mod Formats
mod Places
pub mod Moves
pub mod Mutating
pub mod Building
pub mod Agreement
