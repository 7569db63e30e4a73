-- ===== src/Core/Files.antt =====
-- The file system and the paths of Rust's standard library, as far as crates/core uses them.
--
-- A path is the list of its components, the last one first. A `Disk` holds the contents of the
-- regular files, and a list of outcomes for the operations to come: an operation takes the next
-- outcome from the list, fails with an error other than `NotFound` if it is one, and goes ahead
-- otherwise, also when the list is used up; `NotFound` is the answer for a file that is not there. So a
-- run covers any failure of the system at any operation.
mod Paths
mod Disks
pub mod Laws
pub mod Writing
unfoldable pub use Paths.*
unfoldable pub use Disks.*
