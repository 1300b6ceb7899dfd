-- ===== src/Subnode.antt =====
-- BaseSubnode of src/subnodes/base_subnode.cpp, the node that carries out an agent's commands: its
-- connection, its publishers with their rate limiters, and the commands that every node has. The virtual
-- functions of a derived class and the message system answer by arguments.
pub mod Publishing
pub mod Commands
pub mod Stops
pub mod Answers
mod Tests
use Prim.Native.String.{◌++◌}
use text.Mathlib.Text.{◌==◌}
use xreal_bsp_rgb_tool.Prelude.{
  ℕ, ◌+◌, Bool, true, false, not, ◌&&◌, List, [], ◌∷◌, Option, none, some, String, if◌then◌else◌,
}
use xreal_bsp_rgb_tool.Prelude.{◌==◌ as same_ℕ}
use xreal_bsp_rgb_tool.Prelude.Int.{ℤ, pos}
use xreal_bsp_rgb_tool.Prelude.Maps.{insert, contains}
use xreal_bsp_rgb_tool.Prelude.Tables.{Table, blank, put, has, emplace}
use xreal_bsp_rgb_tool.Platform.{Text, JsonLib}
use xreal_bsp_rgb_tool.Manager.Fields.{◌>>=◌, Fields, value_flag, with_message, done}
use xreal_bsp_rgb_tool.Limiter.{RateLimiter, check}
use xreal_bsp_rgb_tool.Registry.{DataRegistryClient}

-- The handler of a command: one of those that every node registers, or a derived class's.
pub data Handler : Type 0 where
  check_handler : Handler
  estop_handler : Handler
  sleep_handler : Handler
  topics_handler : Handler
  root_path_handler : Handler
  device_handler : Handler

-- A goal that an action thread has taken from its data.
pub record Goal (Json : Type 0) : Type 0 where
  pub goal_id : ℕ
  pub cmd_name : String
  pub params : Json

-- The sleep command that holds the lock on commands.
pub record Sleep : Type 0 where
  pub goal_id : ℕ
  pub duration : ℤ
  pub elapsed : ℕ

-- `waiting` are the goals whose threads wait for the lock on commands, `sleeping` the command that holds
-- it across time; every other handler runs in one step. `results` are those that were sent, newest
-- first, as are `feedbacks` with the goal and `published` with the port.
pub record Subnode (Json : Type 0) : Type 0 where
  pub name : String
  pub root_path : String
  pub is_connected : Bool
  pub estop_flag : Bool
  pub is_shutting_down : Bool
  pub action_server : Bool
  pub publishers : Table String
  pub rate_limiters : Table RateLimiter
  pub agent_topics : List (ℕ × String)
  pub cmd_handlers : List (String × Handler)
  pub waiting : List (Goal Json)
  pub sleeping : Option Sleep
  pub results : List (ℕ × Json × Bool)
  pub published : List (ℕ × Json)
  pub feedbacks : List (ℕ × Json)
  pub registry_client : Option DataRegistryClient

-- registerBuiltinCommands.
abbrev pub builtin_commands : List (String × Handler)
builtin_commands =
    ("check", check_handler)
    ∷ ("estop", estop_handler)
    ∷ ("sleep", sleep_handler)
    ∷ ("get_agent_topics", topics_handler)
    ∷ ("get_root_path", root_path_handler)
    ∷ []

module _ {Json : Type 0} where
  -- The registry's client is missing where its constructor throws.
  abbrev pub new_subnode : String → String → Option DataRegistryClient → Subnode Json
  new_subnode name root client = record {
    name = name;
    root_path = root;
    is_connected = false;
    estop_flag = false;
    is_shutting_down = false;
    action_server = false;
    publishers = blank;
    rate_limiters = blank;
    agent_topics = [];
    cmd_handlers = builtin_commands;
    waiting = [];
    sleeping = none;
    results = [];
    published = [];
    feedbacks = [];
    registry_client = client;
  }

  unfoldable pub register_cmd : String → Subnode Json → Subnode Json
  register_cmd name s = record s { cmd_handlers = insert name device_handler s.cmd_handlers }

  unfoldable pub close_action_server : Subnode Json → Subnode Json
  close_action_server s = record s { action_server = false }

  -- The limiters have the ports of the publishers.
  unfoldable pub close_all_publishers : Subnode Json → Subnode Json
  close_all_publishers s = record s { publishers = blank; rate_limiters = blank }

  unfoldable pub disconnect_subnode : Subnode Json → Subnode Json × Bool × String
  unfolding close_action_server close_all_publishers
  disconnect_subnode s = (
    record (close_all_publishers (close_action_server (record s { is_shutting_down = true }))) {
      is_connected = false;
    },
    true,
    "Disconnected",
  )

  -- A server that is there is closed first; `refused` is the exception of the new one's constructor.
  unfoldable pub create_action_server : Option String → Subnode Json → Subnode Json × Bool × String
  unfolding close_action_server
  create_action_server (some e) s = (close_action_server s, false, e)
  create_action_server none s =
      (record (close_action_server s) { action_server = true }, true, "ActionServer created")

  unfoldable pub note_connected : Subnode Json × Bool × String → Subnode Json × Bool × String
  note_connected (s, true, m) = (record s { is_connected = true }, true, "Connected")
  note_connected (s, false, m) = (s, false, m)

  unfoldable pub connect_subnode : Option String → Subnode Json → Subnode Json × Bool × String
  unfolding create_action_server note_connected
  connect_subnode refused s =
      note_connected (create_action_server refused (record s { estop_flag = false }))

  -- sendResult; whether the server publishes it without an exception is not seen.
  unfoldable pub send_result : ℕ → Json → Bool → Subnode Json → Subnode Json
  send_result id result ok s =
      if s.is_shutting_down
      then s
      else if s.action_server
      then record s { results = (id, result, ok) ∷ s.results }
      else s

module _ (J : JsonLib) where
  open J use {Json, as_object, of_fields, of_text, of_bool}

  -- The result of release, estop and check by that of the derived class; none where `value` throws.
  unfoldable pub passed_on : Json → Option Json
  unfolding value_flag
  passed_on j = do
    fields ← as_object j
    ok ← value_flag J "success" false fields
    some (if ok then of_fields (with_message J true "") else j)

  unfoldable pub with_default : String → Json → Fields J → Fields J
  with_default key v fields = if contains key fields then fields else insert key v fields

  unfoldable pub check_result : Json → Option Json
  unfolding value_flag with_default
  check_result j = do
    fields ← as_object j
    ok ← value_flag J "success" false fields
    some (
        if ok
        then of_fields
            (with_default "message" (of_text "") (with_default "success" (of_bool true) fields))
        else j)
