-- ===== src/Agent.antt =====
-- The agent (retina/agent/src/retina/agent): what runs and stops the software under test.
pub mod Time
pub mod Executor
pub mod Sut
