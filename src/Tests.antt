-- ===== src/Tests.antt =====
-- Concrete runs: the fixtures, and the theorems applied to them.
pub mod Fixtures
pub mod Sessions
pub mod Screens
pub mod Rows
pub mod Trusts
pub mod Updates
pub mod Checksums
pub mod Discoveries
pub mod Downloads
pub mod Scans
pub mod Probes
