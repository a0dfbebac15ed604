-- ===== src/Descriptors/Tests.antt =====
-- The descriptor tables with concrete values.
