-- ===== src/Script.antt =====
-- src/flowagent/core/script_executor.cpp and its header: the process that runs a script, its output and
-- its dialogs.
pub mod Lines
pub mod Chunks
pub mod History
pub mod Recall
pub mod Dialog
pub mod Executor
pub mod Lifecycle
pub mod Frame
pub mod Stream
pub mod Runs
pub mod Sound
pub mod Reach
mod Tests
