-- ===== src/Interrupts/Tests.antt =====
-- Interrupts with handlers that are numbers.
