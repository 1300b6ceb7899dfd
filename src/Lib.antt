-- ===== src/Lib.antt =====
-- A verification library of the XREAL BSP RGB tool: the parts of the C++ program that decide whether a
-- frame is whole, whether a device is started once, and when the tool is stopped.
--
-- The program. A workflow controller (src/workflow) takes the user's clicks, the replies of the agent
-- manager and the watchdog's statuses, and drives the one-click flow Connect, watchdog healthy,
-- start_device, ready. The agent watchdog (src/backend) checks the primary agent in a thread, initializes
-- a device that came back, and stops the tool when a healthy one fails; the status signal that it sends is
-- what the controller's handleStatusUpdate reads. The agent manager process (src/backend) runs the
-- commands of both, urgent ones first, on the agents that the agent manager (src/flowagent/core) holds,
-- and tells the watchdog what they did; an agent (src/flowagent/agents) sends its commands to a node, in a
-- child process or on another machine, and waits for the result; the node (src/subnodes) runs one command
-- at a time. A script executor (src/flowagent/core) runs Python scripts in a process, shows what they
-- print and asks what they ask. Nodes announce their data to a registry (src/common, src/backend). A
-- device process writes camera frames into a ring in shared memory (src/common), from which the preview
-- threads of the tool read the newest one. A status page says how much of the user guide works (src/bsp).
--
-- Files and code.
--   Prelude: names of the libraries, Boolean tests, integers, dictionaries keyed by text.
--   Platform: what the tool takes from Qt and the JSON library, as records of functions. Nothing of them
--     is defined; the theorems hold for every choice, but for the one of Registry/Delivery, which names
--     what it relies on.
--   CameraShm: src/common/camera_shared_memory.cpp and its header in include/recordlab/common. Meta is the
--     frame header and its bytes (Meta/Laws its laws), Ring the writer and the reader with writeFrame as
--     `write_frame` and readLatestFrame as `read_latest`, Ring/Writes their calls one after another,
--     Ring/Lane the writer in the steps between which a reader can look, Ring/Interleaving a read that
--     runs while the writer goes on, Ring/Restart a writer that is created again.
--   Workflow: src/workflow/workflow_controller.cpp. Workflow holds the state and the helpers, Requests the
--     slots of the user, Results handleCommandResult, Status handleStatusUpdate, Run all of them as
--     events; View, StatusView, Actions, Cases, Invariant, Frugal, OneClick and Stop hold the proofs.
--   Watchdog: src/backend/agent_watchdog.cpp. Watchdog holds the agents and their registration, Check the
--     health check with its handlers and initDevice, Summary the two summaries; Flags and Primary are
--     about the primary agent; Reference tells what a check does without the code, Outcome, Resume and
--     Rounds compare the two, Recovery draws the conclusions.
--   Guide: src/bsp/bsp_guide_status.cpp, how much of the user guide can be followed; Guide/Percent is about
--     the percentages, Guide/Blockers about the blocking items.
--   Script: src/flowagent/core/script_executor.cpp. Lines is processOutputBytes, History and Dialog are the
--     dialogs and what their fields remember, Executor is what happens with a printed line, Lifecycle the
--     start, the stop and the end of a process; Chunks, Recall, Frame, Stream, Runs, Sound and Reach hold
--     the proofs.
--   Manager: src/backend/agent_manager_process.cpp and src/flowagent/core/agent_manager.cpp. Fields is JSON
--     objects as lists of fields, Agents the AgentManager, Process the queues and the synchronous calls,
--     Actions the handlers of single actions, Command the command for an agent, Dispatch processCommand,
--     Stops the callback that initialises a device; Held, Kept, Answers, Queue and Loop hold the proofs.
--     The manager's calls of the watchdog are the functions of Watchdog. An agent is of any type with the
--     operations of AgentClass.
--   Registry: src/backend/data_registry_server.cpp and src/common/data_registry_client.cpp, the data that nodes
--     announce; Registry/Delivery sends an announcement from one to the other.
--   Limiter: include/recordlab/common/rate_limiter.h, with Limiter/Spacing about the messages let through.
--   Agent: src/flowagent/agents. Storage, Base, Topics, Launch, Connection and Copy are base_agent.cpp: the
--     results of goals, the commands, the topics, the child process, connect and disconnect, copies of
--     folders; Remote is legacy_remote_action_client.cpp, Local localhost_agent.cpp. Goals, Answers, Waiting
--     and Timeouts hold the proofs about commands, Listening, Pings, Sessions and Reconnect those about
--     connections, Feed those about topics.
--   Subnode: src/subnodes/base_subnode.cpp. Subnode is its connection, Publishing what it sends,
--     Commands what the threads of its goals do; Stops and Answers hold the proofs.
--   A function has the name of its source in snake case; what the source does in one body and the model
--   in several functions is said where they stand.
--
-- State and effects. A method is a function from the object's fields to the new fields. Signals, callback
-- calls and the log are lists in the state, newest first. Texts with arguments are kept as a template with
-- its arguments. Numbers of 64 bits wrap where the
-- writer counts frames; the theorems that need it say that the counter does not. A reader's scan, copy and
-- second load see three states of the segment, with any number of the writer's steps between; the bytes of
-- a frame are taken to be visible once its number is, as the release store has it. Loops are structural
-- recursion but for two that have fuel and the wait for a reply, which goes through a list of rounds and
-- has no result where they end too soon; each takes 100 milliseconds at least, so that more rounds than a
-- hundredth of the time limit are enough. processOutputBytes gets one more than the bytes in its buffer,
-- of which every round removes at least one; processLoop takes at most one command a round and goes on
-- with empty queues; as many rounds as commands wait empty them, as long as nothing is sent meanwhile. A
-- call that the source leaves undefined (a null client, an `int` or int64_t that overflows) has no result.
-- What another part of the system or the user answers (a process, a file, a dialog, an agent) is an
-- argument.
--
-- Not modelled. The watchdog's thread loop and calls of other threads while it waits for a callback (each
-- of its functions is one step), the JSON of a check's reply and of the status snapshot, the console
-- output, QSharedMemory beyond its answers, the events that Qt delivers while a script's dialog is open,
-- extractRequiredAgents (regular expressions), messages that come between the two looks of a waiting
-- command at its storage, a counter of topic messages beyond 2^31, what the device nodes do in their
-- commands, the start and stop of the manager's thread, its configuration files and subscriptions, and the
-- parts of the tool that are user interface, file lookup or calls of the vendor's SDK.
pub mod Prelude
pub mod Platform
pub mod CameraShm
pub mod Workflow
pub mod Watchdog
pub mod Agent
pub mod Guide
pub mod Limiter
pub mod Manager
pub mod Registry
pub mod Script
pub mod Subnode
