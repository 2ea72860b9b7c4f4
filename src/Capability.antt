-- ===== src/Capability.antt =====
-- The conformance matrix of python/deltaswamp/capability.py: engines, operations and table
-- features, which engine serves what, and the names of the features on the wire.
pub mod Names
pub mod Matrix
pub mod Routing
pub mod Wire
pub mod RoundTrip
pub mod Versions
pub mod Consistency
