-- ===== src/Core/Retrieval.antt =====
-- packages/mdrack-core/src/mdrack_core/application/retrieval.py: the definitions in the first four
-- children, what they do in the others.
pub mod Scoping
pub mod Branches
pub mod Units
pub mod Service
pub mod Scope
pub mod Candidates
pub mod Grouping
pub mod Groups
pub mod Items
pub mod Outcomes
pub mod Runs
