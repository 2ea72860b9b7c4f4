-- ===== src/Credentials.antt =====
-- Storage credentials: python/deltaswamp/credentials/base.py, broker.py and refresh.py, and what a
-- plan ships of them (python/deltaswamp/distributed.py).
pub mod Vended
pub mod Shipped
pub mod Serving
pub mod Slots
pub mod Refresh
pub mod Timing
