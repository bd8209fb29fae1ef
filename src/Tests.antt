-- ===== src/Tests.antt =====
-- Runs at concrete inputs, and the theorems applied to them.
mod Regions
mod Writes
mod Services
mod Commits
mod Locks
mod Reads
mod Ranges
mod Requests
mod Scans
mod Batches
mod Keys
mod Indexes
