-- ===== src/Datetimes.antt =====
-- Data files with dates that Spark rebases: python/deltaswamp/engine/calendar.py.
pub mod Stats
pub mod Cleared
