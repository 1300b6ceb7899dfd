-- ===== src/Manager/Dispatch.antt =====
-- AgentManagerProcess: processCommand as a whole.
use Prim.Native.String.{◌++◌}
use text.Mathlib.Text.{◌==◌}
use xreal_bsp_rgb_tool.Prelude.{true, List, [], ◌∷◌, Option, none, some, String, if◌then◌else◌}
use xreal_bsp_rgb_tool.Prelude.Maps.{lookup, insert}
use xreal_bsp_rgb_tool.Platform.{Text, JsonLib}
use xreal_bsp_rgb_tool.Manager.Fields.{◌>>=◌, Fields, value_text, value_json, done, with_error}
use xreal_bsp_rgb_tool.Manager.Agents.{AgentClass, agent_classes, names_of}
use xreal_bsp_rgb_tool.Manager.Process.{Process, command_result, dialog_request}
use xreal_bsp_rgb_tool.Manager.Actions.{
  Outside, Handled, init_agent, handle_watchdog_init_params, handle_release, handle_stop_all,
  handle_stop_agents, handle_emergency_stop, handle_shutdown,
}
use xreal_bsp_rgb_tool.Manager.Command.{send_agent_command}

texts_of : (J : JsonLib) → List J.Json → Option (List String)
texts_of J [] = some []
texts_of J (x ∷ xs) = do s ← J.as_string x; rest ← texts_of J xs; some (s ∷ rest)

module _ (q : Text) (J : JsonLib) {A : Type 0} (C : AgentClass J.Json A)
    (o : Outside (Fields J)) where
  open J use {
    Json, as_string, as_bool, as_array, as_object, is_empty, of_fields, of_texts, of_text, of_bool,
    of_int,
  }

  abbrev P : Type 0
  P = Process J A

  -- A handler of a text that the command holds under a key.
  unfoldable pub on_text : Option String → (String → P → Handled q J C o) → P → Handled q J C o
  on_text none f p = (p, none)
  on_text (some s) f p = f s p

  unfoldable pub with_text :
      String → String → Fields J → (String → P → Handled q J C o) → P → Handled q J C o
  unfolding on_text value_text
  with_text key default c f p = on_text (value_text J key default c) f p

  unfoldable pub stop_listed : Option (List String) → P → Handled q J C o
  unfolding handle_stop_agents
  stop_listed none p = (p, none)
  stop_listed (some names) p = handle_stop_agents q J C o names p

  unfoldable pub agent_names : Fields J → Option (List String)
  unfolding texts_of
  agent_names c = elim (lookup "agent_names" c) [
    | none ↦ some []
    | some v ↦ as_array v >>= texts_of J
  ]

  names_under : String → List String → Fields J
  names_under key names = done J true (("data", of_fields ((key, of_texts names) ∷ [])) ∷ [])

  -- The `try` block of processCommand.
  unfoldable pub run_action : String → Fields J → P → Handled q J C o
  unfolding init_agent handle_watchdog_init_params handle_release handle_stop_all stop_listed
      with_text send_agent_command handle_emergency_stop handle_shutdown agent_names names_under
      value_text value_json names_of
  run_action action c p =
      if action == "init_agent"
      then with_text "agent_name" "" c (init_agent q J C o) p
      else if action == "set_watchdog_init_params"
      then with_text "agent_name" "" c
          (λ name. handle_watchdog_init_params q J C o name (value_json J "params" c)) p
      else if action == "release_agent"
      then with_text "agent_name" "" c (handle_release q J C o) p
      else if action == "stop_all_agents"
      then handle_stop_all q J C o p
      else if action == "stop_agents"
      then stop_listed (agent_names c) p
      else if action == "send_agent_command"
      then send_agent_command q J C o c p
      else if action == "get_status"
      then (
        p,
        some (
            done J true (("connected_agents", of_texts (names_of p.agents.connected_agents)) ∷ [])),
      )
      else if action == "get_available_agents"
      then (p, some (names_under "available_agents" (names_of agent_classes)))
      else if action == "get_primary_agents"
      then (p, some (names_under "primary_agents" p.agents.primary_agents))
      else if action == "show_dialog"
      then (record p { signals = dialog_request c ∷ p.signals }, some (done J true []))
      else if action == "emergency_stop"
      then with_text "reason" "Unknown" c (λ reason. handle_emergency_stop q J C o) p
      else if action == "shutdown"
      then handle_shutdown q J C o p
      else (p, some (with_error J ("Unknown action: " ++ action)))

  -- The name of the agent's command that the result repeats; nothing where reading it throws.
  unfoldable pub repeated_name : Fields J → Option (Option String)
  unfolding value_text
  repeated_name c = elim (lookup "cmd_name" c) [
    | some v ↦ as_string v >>= λ s. some (some s)
    | none ↦ elim (lookup "args" c) [
      | none ↦ some none
      | some args ↦ elim (as_object args) [
        | none ↦ some none
        | some fields ↦ elim (lookup "cmd_name" fields) [
          | none ↦ some none
          | some v ↦ as_string v >>= λ s. some (some s)
        ]
      ]
    ]
  ]

  unfoldable pub repeated_agent : Fields J → Option (Option String)
  repeated_agent c = elim (lookup "agent_name" c) [
    | none ↦ some none
    | some v ↦ as_string v >>= λ s. some (some s)
  ]

  unfoldable pub set_text : String → Option String → Fields J → Fields J
  set_text key none fields = fields
  set_text key (some s) fields = insert key (of_text s) fields

  -- The result goes to the one who waits for its id, and out as a signal.
  unfoldable pub publish_result : String → Fields J → P → P
  publish_result id result p =
      if id == ""
      then record p { signals = command_result result ∷ p.signals }
      else (let full = insert "request_id" (of_text id) result in
          record p {
            sync_results = insert id full p.sync_results;
            signals = command_result full ∷ p.signals;
          })

  unfoldable pub result_of : Fields J → Option (Fields J) → Fields J
  result_of c none = with_error J (o.command_error c)
  result_of c (some fields) = fields

  -- processCommand; nothing where it throws, which is outside its `try` block.
  unfoldable pub process_command : Fields J → P → Option P
  unfolding value_text run_action repeated_agent repeated_name set_text publish_result result_of
  process_command c p = do
    action ← value_text J "action" "" c
    id ← value_text J "request_id" "" c
    agent ← repeated_agent c
    command ← repeated_name c
    let r = run_action action c p in
        some (
          publish_result id
            (set_text "cmd_name" command
              (set_text "agent_name" agent (insert "action" (of_text action) (result_of c r.1))))
            r.0)
