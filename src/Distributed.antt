-- ===== src/Distributed.antt =====
-- Distributed reads: python/deltaswamp/distributed.py.
pub mod Balance
pub mod Parts
pub mod Loads
