-- ===== src/Sql.antt =====
-- SQL text: python/deltaswamp/engine/sql_text.py.
pub mod Literals
