-- ===== src/Agent.antt =====
-- The agents of src/flowagent/agents: BaseAgent with its storage of results, and the client through which
-- it reaches a node on another machine.
pub mod Storage
pub mod Remote
pub mod Base
pub mod Topics
pub mod Launch
pub mod Connection
pub mod Goals
pub mod Answers
pub mod Waiting
pub mod Timeouts
pub mod Listening
pub mod Pings
pub mod Sessions
pub mod Reconnect
pub mod Feed
pub mod Copy
pub mod Local
mod Tests
