-- ===== src/Validation/Checks.antt =====
-- The validation theorem at a frame that is refused.
