-- ===== src/Tests.antt =====
-- The definitions run on small inputs, and the theorems at concrete inputs.
mod Wire
mod Calls
mod Operations
mod Disk
mod Runs
mod Examples
mod Served
mod Started
mod Files
mod Stores
mod Sessions
mod Free
mod Texts
mod Cells
