-- ===== src/Media.antt =====
-- packages/mdrack-media: timed text of audio and video as resource graphs.
pub mod Common
pub mod Policies
pub mod Records
pub mod Grouper
pub mod Identifiers
