-- ===== src/Constant/Tests.antt =====
-- The theorems about constants (dbcc-constant.c) at concrete constants.
