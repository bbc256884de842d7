-- ===== src/Sync.antt =====
-- The two-way synchroniser (jornada/sync).
pub mod State
pub mod Model
pub mod Linked
pub mod Pairing
pub mod Plan
pub mod Apply
pub mod Refresh
mod Examples
