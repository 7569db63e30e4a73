-- ===== src/Core/Observations/Writing.antt =====
-- `write_atomic` of crates/core/src/observations.rs.
use link_pilot.Prelude.{String, ◌≢◌}
use link_pilot.Core.Files.{FilePath, Disk, with_extension}
use link_pilot.Core.Files.Writing.{Whole, write_through-Whole}
use link_pilot.Core.Observations.Logs.{write_atomic}

-- Writing atomically replaces the file as a whole, or fails and leaves it as it was, at whichever step
-- it fails; the temporary name must differ from the file's.
pub write_atomic-Whole :
    (path : FilePath) (contents : String) (d : Disk)
    → with_extension path "tmp" ≢ path
    → Whole path contents d (write_atomic path contents d).0 (write_atomic path contents d).1
unfolding write_atomic
write_atomic-Whole path contents d apart =
    write_through-Whole (with_extension path "tmp") path contents apart d
