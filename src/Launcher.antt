-- ===== src/Launcher.antt =====
-- The launcher (retina/launcher/src/retina/launcher): the pass/fail criteria of a test.
pub mod Criteria
