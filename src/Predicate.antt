-- ===== src/Predicate.antt =====
-- SQL predicates: python/deltaswamp/predicate.py.
pub mod Tree
pub mod Skip
pub mod Meaning
pub mod Atoms
pub mod Pairs
pub mod Leaves
pub mod Sound
pub mod Prefix
