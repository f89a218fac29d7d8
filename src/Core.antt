-- ===== src/Core.antt =====
-- packages/mdrack-core: the kernel that knows no provider and no storage.
pub mod Errors
pub mod Json
pub mod Common
pub mod RequestId
pub mod Records
pub mod Search
pub mod Fusion
pub mod Retrieval
pub mod Freeze
pub mod Validation
pub mod Checks
pub mod Discovery
pub mod Publication
pub mod Indexing
