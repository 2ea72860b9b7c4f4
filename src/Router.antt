-- ===== src/Router.antt =====
-- The router of python/deltaswamp/router.py.
pub mod Types
pub mod Features
pub mod Refusals
pub mod Preference
pub mod Calendar
pub mod Catalog
pub mod Choose
pub mod Walk
pub mod Serving
pub mod Choice
pub mod Guarantees
pub mod Answers
pub mod Promises
pub mod Requests
pub mod Refused
pub mod Order
pub mod Closure
pub mod EngineFor
pub mod Writable
pub mod Stranding
