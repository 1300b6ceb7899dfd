-- ===== src/Manager/Command.antt =====
-- AgentManagerProcess: a command for an agent, as processCommand carries it out.
use Prim.Native.String.{◌++◌}
use text.Mathlib.Text.{◌==◌}
use xreal_bsp_rgb_tool.Prelude.{
  Bool, true, false, ◌&&◌, ◌||◌, [], ◌∷◌, Option, none, some, String, if◌then◌else◌,
}
use xreal_bsp_rgb_tool.Prelude.Int.{ℤ, pos}
use xreal_bsp_rgb_tool.Prelude.Maps.{insert}
use xreal_bsp_rgb_tool.Platform.{Text, JsonLib}
use xreal_bsp_rgb_tool.Watchdog.{
  mark_agent_initializing, mark_agent_healthy, mark_agent_disconnected,
}
use xreal_bsp_rgb_tool.Manager.Fields.{◌>>=◌, Fields, value_text, value_json, done, with_error}
use xreal_bsp_rgb_tool.Manager.Agents.{AgentClass, CmdReply, is_primary_agent, get_agent}
use xreal_bsp_rgb_tool.Manager.Process.{Process, command_timeout_seconds}
use xreal_bsp_rgb_tool.Manager.Actions.{Outside, Handled}

-- jsonBoolField
json_bool_field : (J : JsonLib) → String → J.Json → Bool
json_bool_field J key object = elim (J.find key object) [
  | none ↦ false
  | some v ↦ elim (J.as_bool v) [ none ↦ false | some b ↦ b ]
]

-- The test of a payload in runtimeStateStarted.
payload_started : (J : JsonLib) → J.Json → Bool
unfolding json_bool_field
payload_started J payload =
    json_bool_field J "started" payload
    || elim (J.find "device" payload) [ none ↦ false | some d ↦ json_bool_field J "started" d ]

-- What a command for an agent gives, before it is made a result.
pub record Outcome (J : JsonLib) : Type 0 where
  pub success : Bool
  pub message : String
  pub fields : Fields J

module _ (q : Text) (J : JsonLib) {A : Type 0} (C : AgentClass J.Json A)
    (o : Outside (Fields J)) where
  open J use {
    Json, as_string, as_bool, as_array, as_object, is_empty, of_fields, of_texts, of_text, of_bool,
    of_int,
  }

  abbrev P : Type 0
  P = Process J A

  -- runtimeStateStarted
  unfoldable pub runtime_state_started : A → A × Bool
  unfolding payload_started command_timeout_seconds
  runtime_state_started agent =
      let r =
        C.cmd "get_bsp_runtime_state" (of_fields []) true
          (command_timeout_seconds "get_bsp_runtime_state") agent in
      (r.0, r.1.success && payload_started J r.1.result)

  agent_fields : String → Bool → String → Json → Json → ℤ → Fields J
  agent_fields name b message result feedback value = done J b (
      ("message", of_text message)
      ∷ ("result", result)
      ∷ ("feedback", feedback)
      ∷ ("status_value", of_int value)
      ∷ ("data", of_fields (("agent", of_text name) ∷ []))
      ∷ [])

  already_started : String → Outcome J
  unfolding agent_fields
  already_started name = record {
    success = true;
    message = "Already started";
    fields =
        agent_fields name true "Already started" (of_fields (("started", of_bool true) ∷ []))
          (of_fields []) (pos 0);
  }

  reply_outcome : String → CmdReply Json → Outcome J
  unfolding agent_fields
  reply_outcome name r = record {
    success = r.success;
    message = r.message;
    fields = agent_fields name r.success r.message r.result r.feedback r.status_value;
  }

  -- The command itself; a start of a primary agent that runs already is left out.
  unfoldable pub call_agent : String → Bool → String → Json → A → A × Outcome J
  unfolding runtime_state_started already_started reply_outcome command_timeout_seconds
  call_agent name primary command params agent =
      let asked : A × Bool =
        if primary && command == "start_device"
        then runtime_state_started agent
        else (agent, false) in
      if asked.1
      then (asked.0, already_started name)
      else (let r = C.cmd command params true (command_timeout_seconds command) asked.0 in
          (r.0, reply_outcome name r.1))

  -- What the manager and the watchdog note of a primary agent's command.
  unfoldable pub note_command : String → String → Json → Outcome J → P → P
  note_command name command params r p =
      if command == "init_device"
      then (if r.success
          then record p { watchdog = mark_agent_healthy name true o.now p.watchdog }
          else record p { watchdog = mark_agent_disconnected name r.message p.watchdog })
      else if command == "start_device" || command == "restart_device"
      then (if r.success || q.contains_insensitive r.message "Already started"
          then record p {
            last_start_device_params = insert name params p.last_start_device_params;
            restore_start_device_after_init = insert name true p.restore_start_device_after_init;
            watchdog = mark_agent_healthy name false o.now p.watchdog;
          }
          else p)
      else if (command == "stop_device" || command == "release_device") && r.success
      then record p {
        restore_start_device_after_init = insert name false p.restore_start_device_after_init;
        watchdog = mark_agent_disconnected name (command ++ " completed") p.watchdog;
      }
      else p

  unfoldable pub announce_init : String → String → P → P
  announce_init name command p =
      if command == "init_device"
      then record p {
        watchdog = mark_agent_initializing name "Explicit init_device in progress" p.watchdog;
      }
      else p

  -- The agent as it is behind the command.
  unfoldable pub keep_called : String → A → P → P
  keep_called name agent p = record p {
    agents = record p.agents { connected_agents = insert name agent p.agents.connected_agents };
  }

  unfoldable pub announce : Bool → String → String → P → P
  unfolding announce_init
  announce primary name command p = if primary then announce_init name command p else p

  unfoldable pub settle : Bool → String → String → Json → Outcome J → P → P
  unfolding note_command
  settle primary name command params r p =
      if primary then note_command name command params r p else p

  -- A command for an agent that is connected.
  unfoldable pub command_agent : String → String → Json → A → P → Handled q J C o
  unfolding call_agent settle is_primary_agent announce keep_called
  command_agent name command params agent p =
      let primary = is_primary_agent J C o.agent_error name p.agents in
      let r = call_agent name primary command params agent in
      (
        settle primary name command params r.1
            (keep_called name r.0 (announce primary name command p)),
        some r.1.fields,
      )

  -- The agent, the command and the parameters that send_agent_command reads, from the command itself or
  -- from its args; nothing where that throws.
  unfoldable pub decode_command : Fields J → Option (String × String × Json)
  unfolding value_text value_json
  decode_command c =
      let args = as_object (value_json J "args" c) in
      let params = value_json J "params" c in
      do
        name ← value_text J "agent_name" "" c
        own ← value_text J "cmd_name" "" c
        command ← (if own == "" then args >>= value_text J "cmd_name" "" else some own)
        given ←
            (if is_empty params
              then args >>= (λ fields. some (value_json J "params" fields))
              else some params)
        some (name, command, given)

  -- send_agent_command
  unfoldable pub send_agent_command : Fields J → P → Handled q J C o
  unfolding decode_command command_agent get_agent
  send_agent_command c p = elim (decode_command c) [
    | none ↦ (p, none)
    | some (name, command, params) ↦
        if command == ""
        then (p, some (with_error J "cmd_name required"))
        else elim (get_agent J C o.agent_error name p.agents) [
          | none ↦ (p, some (with_error J (name ++ " not initialized")))
          | some agent ↦ command_agent name command params agent p
        ]
  ]
