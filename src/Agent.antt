-- ===== src/Agent.antt =====
-- merlya/agent: the parts of the agent that are no model call.
pub mod History
pub mod Tracker
pub mod Confirmation
mod Examples
