-- ===== src/Tests.antt =====
-- Runs of the code at concrete inputs, where the conditions of the theorems hold.
mod Registry
mod Rows
mod Evidence
mod Limits
mod Gate
mod Sources
mod Paging
mod Codes
mod Paths
mod Ids
mod Sweep
mod Times
