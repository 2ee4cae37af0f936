-- ===== src/Tests.antt =====
-- Concrete instances of what the development takes from outside, runs of the definitions, and the
-- theorems at concrete inputs.
mod Register
mod Rows
mod SyncRuns
mod FsRuns
mod NetRuns
mod TrustRuns
mod Postcards
mod PresenceRuns
mod MountRuns
mod ConfigRuns
mod Slicing
mod HeldRuns
mod WatchRuns
