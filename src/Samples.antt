-- ===== src/Samples.antt =====
-- The theorems at concrete inputs: two branches that rank the units of two resources, and ports
-- that answer, misrank or fail.
mod Values
mod Runs
mod Graphs
mod Stores
mod Media
mod Host
