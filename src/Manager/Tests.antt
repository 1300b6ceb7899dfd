-- ===== src/Manager/Tests.antt =====
-- Concrete commands and agents, and the theorems of the manager applied to them.
use text.Mathlib.Text.{◌==◌}
use xreal_bsp_rgb_tool.Prelude.{
  ◌≡◌, refl, Bool, true, false, List, [], ◌∷◌, ◌++◌, Option, none, some, String, if◌then◌else◌,
  arith,
}
use xreal_bsp_rgb_tool.Prelude.Int.{pos}
use xreal_bsp_rgb_tool.Prelude.Maps.{lookup}
use xreal_bsp_rgb_tool.Platform.{Text, JsonLib}
use xreal_bsp_rgb_tool.Watchdog.Primary.{OnePrimary, empty_watchdog, run, run-empty-OnePrimary}
use xreal_bsp_rgb_tool.Watchdog.Check.{Hooks}
use xreal_bsp_rgb_tool.Manager.Fields.{Fields, value_text}
use xreal_bsp_rgb_tool.Manager.Agents.{AgentClass, stop_all_agents}
use xreal_bsp_rgb_tool.Manager.Process.{Process, end_sync, process_loop}
use xreal_bsp_rgb_tool.Manager.Actions.{Outside}
use xreal_bsp_rgb_tool.Manager.Dispatch.{process_command, run_action, repeated_agent, repeated_name}
use xreal_bsp_rgb_tool.Manager.Answers.{end_sync-process_command}
use xreal_bsp_rgb_tool.Manager.Queue.{take_all, send_all, chosen, take_all-send_all}
use xreal_bsp_rgb_tool.Manager.Loop.{all_readable, is_idle, process_loop-idle}
use xreal_bsp_rgb_tool.Manager.Stops.{restores, emergency_stop-restores}

-- JSON values that are texts, Booleans or anything else.
pub data Document : Type 0 where
  leaf : String → Document
  answer : Bool → Document
  other_value : Document

text_of : Document → Option String
text_of (leaf s) = some s
text_of (answer b) = none
text_of other_value = none

flag_in : Document → Option Bool
flag_in (answer b) = some b
flag_in (leaf s) = none
flag_in other_value = none

abbrev plain_text : Text
plain_text = record {
  trimmed = λ s. s;
  contains_insensitive = λ s t. s == t;
  number = λ z. "1";
  to_int = λ s. pos 0;
}

abbrev documents : JsonLib
documents = record {
  Json = Document;
  find = λ key d. none;
  as_string = text_of;
  as_bool = flag_in;
  as_int = λ d. none;
  as_array = λ d. none;
  get_int = λ d. none;
  as_object = λ d. some [];
  as_float_text = λ d. none;
  parse = λ s. none;
  dump = λ d. "{}";
  is_empty = λ d. true;
  null = other_value;
  of_text = leaf;
  of_bool = answer;
  of_int = λ z. other_value;
  of_texts = λ ss. other_value;
  of_fields = λ fs. other_value;
  value_bool = λ d key b. some b;
}

-- An agent that is its own connection.
abbrev switches : AgentClass Document Bool
switches = record {
  make_agent = λ setup. false;
  connect = λ a. some (true, true, "connected");
  disconnect = λ a. some false;
  is_connected = λ a. a;
  cmd = λ name params wait limit a. (
    a,
    record {
      success = true;
      message = name;
      result = other_value;
      feedback = other_value;
      status_value = pos 0;
    },
  );
}

abbrev outside : Outside (Fields documents)
outside = record {
  agent_error = λ s. "agent error";
  command_error = λ c. "command error";
  stoi = λ s. none;
  now = 7;
}

abbrev ready : Process documents Bool
ready = record {
  agents = record {
    agent_configs = ("glasses_bsp_node", []) ∷ [];
    connected_agents = [];
    primary_agents = "glasses_bsp_node" ∷ [];
    status_changes = [];
  };
  watchdog = record { registered_agents = []; primary_agent = ""; effects = [] };
  init_param_overrides = [];
  last_start_device_params = [];
  restore_start_device_after_init = ("glasses_bsp_node", true) ∷ [];
  running = true;
  urgent_command_queue = [];
  command_queue = [];
  sync_results = ("req_9", []) ∷ [];
  request_counter = 1;
  signals = [];
}

abbrev init_command : Fields documents
init_command =
    ("action", leaf "init_agent")
    ∷ ("agent_name", leaf "glasses_bsp_node")
    ∷ ("request_id", leaf "req_1")
    ∷ []

abbrev stop_command : Fields documents
stop_command = ("action", leaf "emergency_stop") ∷ ("reason", leaf "button") ∷ []

abbrev waiting : Process documents Bool
waiting = record ready {
  urgent_command_queue = stop_command ∷ [];
  command_queue = init_command ∷ [];
}

no_hooks : Hooks Document
no_hooks = record { init_device = none; number = λ z. "" }

ready-OnePrimary : OnePrimary ready.watchdog
unfolding run empty_watchdog
ready-OnePrimary = run-empty-OnePrimary no_hooks []

end_sync-process_command_example :
    (r : Process documents Bool) × (process_command plain_text documents switches outside
        init_command ready
      ≡ some r)
    × (lookup "request_id" (end_sync plain_text documents "req_1" r).0 ≡ some (leaf "req_1"))
    × (lookup "action" (end_sync plain_text documents "req_1" r).0 ≡ some (leaf "init_agent"))
    × (lookup "req_9" (end_sync plain_text documents "req_1" r).1.sync_results
        ≡ (if "req_1" == "req_9" then none else lookup "req_9" ready.sync_results))
unfolding repeated_agent repeated_name value_text text_of
end_sync-process_command_example =
    end_sync-process_command plain_text documents switches outside init_command ready "init_agent"
      "req_1" "req_9" (some "glasses_bsp_node") none refl refl refl refl refl

process_loop-idle_example :
    (r : Process documents Bool) × (process_loop plain_text documents
        (process_command plain_text documents switches outside)
        3
        waiting
      ≡ some r)
    × (is_idle plain_text documents switches outside r ≡ true)
    × OnePrimary r.watchdog
unfolding all_readable text_of value_text repeated_agent repeated_name
process_loop-idle_example =
    process_loop-idle plain_text documents switches outside 3 waiting (omega arith) refl refl
      ready-OnePrimary

abbrev sends : List (Fields documents × Bool)
sends = (init_command, false) ∷ (stop_command, true) ∷ ([], false) ∷ []

take_all-send_all_example :
    take_all plain_text documents 3 (send_all plain_text documents sends ready)
    ≡ chosen true sends ++ chosen false sends
take_all-send_all_example =
    take_all-send_all plain_text documents sends 3 ready refl refl (omega arith)

emergency_stop-restores_example :
    ((run_action plain_text documents switches outside "emergency_stop" stop_command
        ready).0.watchdog.primary_agent
      ≡ "")
    × (restores plain_text documents "glasses_bsp_node"
          (run_action plain_text documents switches outside "emergency_stop" stop_command ready).0
        ≡ false)
    × ((run_action plain_text documents switches outside "emergency_stop" stop_command
          ready).0.agents
        ≡ (stop_all_agents documents switches outside.agent_error ready.agents).0)
unfolding value_text text_of
emergency_stop-restores_example =
    emergency_stop-restores plain_text documents switches outside stop_command ready "button"
      "glasses_bsp_node" refl
