-- ===== src/Updater.antt =====
-- crates/updater/src/lib.rs: updates of the installed app, outside of the App Store. `Jobs` has the job
-- file and the checks of it, `Headers` the reading of a Mach-O header, `Machines` the swap of the
-- bundles and the processes, `Waits` the loops with a deadline, `Transactions` the update itself,
-- `Workers` the process around it, `Agents` the control of the daemon, `Startup` the start of the updated app; `Validity`, `Deadlines`,
-- `Rollback`, `Installing`, `Updates`, `Endings`, `Working` and `Runs` have theorems.
pub mod Jobs
pub mod Headers
pub mod Machines
pub mod Waits
pub mod Transactions
pub mod Workers
pub mod Agents
pub mod Working
pub mod Runs
pub mod Startup
pub mod Deadlines
pub mod Rollback
pub mod Installing
pub mod Updates
pub mod Endings
pub mod Validity
