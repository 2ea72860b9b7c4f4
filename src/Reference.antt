-- ===== src/Reference.antt =====
-- Table references: python/deltaswamp/identity.py.
pub mod Split
pub mod Parse
pub mod Uri
pub mod Whole
pub mod Quoting
pub mod Names
