-- ===== src/Util.antt =====
-- tool/util.c: numbers as text, and patterns.
pub mod Glob
pub mod Number
