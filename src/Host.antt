-- ===== src/Host.antt =====
-- The host application, src/mdrack.
pub mod Changes
pub mod Scoring
