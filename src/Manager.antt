-- ===== src/Manager.antt =====
-- src/backend/agent_manager_process.cpp and src/flowagent/core/agent_manager.cpp with their headers: the
-- agents that are connected, and the commands that they get.
pub mod Fields
pub mod Agents
pub mod Held
pub mod Process
pub mod Actions
pub mod Command
pub mod Dispatch
pub mod Kept
pub mod Answers
pub mod Queue
pub mod Loop
pub mod Stops
mod Tests
