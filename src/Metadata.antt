-- ===== src/Metadata.antt =====
-- Metadata-only commits: python/deltaswamp/engine/metadata.py.
pub mod Protocol
pub mod Wanted
pub mod Upgrade
pub mod Readers
pub mod Schema
pub mod Columns
pub mod Accepted
pub mod Edits
pub mod Rename
pub mod Distinct
pub mod Partitions
pub mod Kept
pub mod Dropped
pub mod Widening
pub mod Values
pub mod Ids
