-- ===== src/Manager/Actions.antt =====
-- AgentManagerProcess::processCommand: what each action does, and the result that it gives. A handler
-- gives the process and the fields of the result, or nothing in their place where it throws, which
-- keeps what it had done.
use text.Mathlib.Text.{◌==◌}
use xreal_bsp_rgb_tool.Prelude.{
  ℕ, Bool, true, false, not, ◌&&◌, ◌||◌, List, [], ◌∷◌, Option, none, some, String, if◌then◌else◌,
}
use xreal_bsp_rgb_tool.Prelude.Int.{ℤ}
use xreal_bsp_rgb_tool.Prelude.Maps.{lookup, insert}
use xreal_bsp_rgb_tool.Platform.{Text, JsonLib}
use xreal_bsp_rgb_tool.Watchdog.{
  Watchdog, register_primary_agent, update_primary_agent_init_device_params,
  unregister_primary_agent, set_agent_device_config,
}
use xreal_bsp_rgb_tool.Manager.Fields.{Fields, value_flag, done, with_message}
use xreal_bsp_rgb_tool.Manager.Agents.{
  AgentClass, initialize_agent, release_agent, release_all, stop_all_agents, stop_agents,
  tally_fields, is_primary_agent, get_agent_config, get_init_device_params,
}
use xreal_bsp_rgb_tool.Manager.Process.{Process}

abbrev pub primary_bsp_agent : String
primary_bsp_agent = "glasses_bsp_node"

-- What the handlers take from outside: the text of an exception, by the agent or the command that it
-- is about, std::stoi (nothing where it throws) and the time.
pub record Outside (Command : Type 0) : Type 0 where
  pub agent_error : String → String
  pub command_error : Command → String
  pub stoi : String → Option ℤ
  pub now : ℕ

unfoldable pub clear_all : List (String × Bool) → List (String × Bool)
clear_all [] = []
clear_all ((name, b) ∷ rest) = (name, false) ∷ clear_all rest

module _ (q : Text) (J : JsonLib) {A : Type 0} (C : AgentClass J.Json A)
    (o : Outside (Fields J)) where
  open J use {
    Json, as_string, as_bool, as_array, as_object, is_empty, of_fields, of_texts, of_text, of_bool,
    of_int,
  }

  abbrev P : Type 0
  P = Process J A

  abbrev pub Handled : Type 0
  Handled = P × Option (Fields J)

  abbrev on_watchdog : (Watchdog Json → Watchdog Json) → P → P
  on_watchdog f p = record p { watchdog = f p.watchdog }

  abbrev set_restore : String → Bool → P → P
  set_restore name b p = record p {
    restore_start_device_after_init = insert name b p.restore_start_device_after_init;
  }

  abbrev clear_restores : P → P
  clear_restores p = record p {
    restore_start_device_after_init = clear_all p.restore_start_device_after_init;
  }

  -- What init_agent remembers of an agent that is to be started by itself.
  unfoldable pub auto_start : String → P → P
  auto_start name p =
      if name == primary_bsp_agent
      then set_restore name true (record p {
        last_start_device_params =
            insert name (of_fields (("camera_mode", of_text "rgb") ∷ []))
              p.last_start_device_params;
      })
      else p

  -- The devices of a configuration, a later one in front; an entry that is no number or no text is left
  -- out.
  device_entries : Fields J → List (ℤ × String) → List (ℤ × String)
  device_entries [] devices = devices
  device_entries ((key, value) ∷ rest) devices = device_entries rest (elim (o.stoi key) [
    | none ↦ devices
    | some id ↦ elim (as_string value) [ none ↦ devices | some name ↦ (id, name) ∷ devices ]
  ])

  unfoldable pub supported_devices : Fields J → List (ℤ × String)
  unfolding device_entries
  supported_devices config = elim (lookup "supported_devices" config) [
    | none ↦ []
    | some v ↦ elim (as_object v) [ none ↦ [] | some entries ↦ device_entries entries [] ]
  ]

  unfoldable pub configure_devices : String → Fields J → Fields J → P → Handled
  unfolding supported_devices value_flag
  configure_devices name config result p =
      elim (value_flag J "suppress_disconnect_dialog" false config) [
        | none ↦ (p, none)
        | some suppress ↦ (
          on_watchdog (set_agent_device_config name (supported_devices config) suppress) p,
          some result,
        )
      ]

  unfoldable pub init_result : String → Bool → String → Fields J
  init_result name b message =
      done J b (("message", of_text message) ∷ ("agent_name", of_text name) ∷ [])

  -- The registration, with the parameters that were set for the watchdog or those of the configuration.
  unfoldable pub register_watch : String → P → P
  unfolding get_init_device_params
  register_watch name p =
      on_watchdog
        (register_primary_agent name (elim (lookup name p.init_param_overrides) [
          | none ↦ get_init_device_params J C o.agent_error name p.agents
          | some overriding ↦ overriding
        ]))
        p

  unfoldable pub watch_agent : String → Fields J → P → Handled
  unfolding auto_start configure_devices register_watch get_agent_config
  watch_agent name result p =
      configure_devices name (get_agent_config J C o.agent_error name p.agents) result
        (auto_start name (register_watch name p))

  -- init_agent
  unfoldable pub init_agent : String → P → Handled
  unfolding initialize_agent is_primary_agent watch_agent init_result
  init_agent name p =
      let r = initialize_agent J C o.agent_error name p.agents in
      let next = record p { agents = r.0 } in
      let result = init_result name r.1 r.2 in
      if r.1 && is_primary_agent J C o.agent_error name r.0
      then watch_agent name result next
      else (next, some result)

  -- set_watchdog_init_params
  unfoldable pub handle_watchdog_init_params : String → Json → P → Handled
  unfolding is_primary_agent
  handle_watchdog_init_params name params p =
      if name == "" || not (is_primary_agent J C o.agent_error name p.agents)
      then (p, some (with_message J false "primary agent_name required"))
      else (
        on_watchdog (update_primary_agent_init_device_params name params)
            (record p { init_param_overrides = insert name params p.init_param_overrides }),
        some (with_message J true "watchdog init params updated"),
      )

  unfoldable pub leave_primary : String → P → P
  leave_primary name p = set_restore name false (on_watchdog unregister_primary_agent p)

  -- release_agent
  unfoldable pub handle_release : String → P → Handled
  unfolding leave_primary is_primary_agent release_agent
  handle_release name p =
      let left =
        if is_primary_agent J C o.agent_error name p.agents then leave_primary name p else p in
      let r = release_agent J C o.agent_error name left.agents in
      (record left { agents = r.0 }, some (with_message J r.1 r.2))

  -- stop_all_agents
  unfoldable pub handle_stop_all : P → Handled
  unfolding stop_all_agents tally_fields
  handle_stop_all p =
      let left = clear_restores (on_watchdog unregister_primary_agent p) in
      let r = stop_all_agents J C o.agent_error left.agents in
      (record left { agents = r.0 }, some (tally_fields J C o.agent_error "stopped" r.1))

  unfoldable pub leave_first_primary : List String → P → P
  unfolding leave_primary is_primary_agent
  leave_first_primary [] p = p
  leave_first_primary (name ∷ names) p =
      if is_primary_agent J C o.agent_error name p.agents
      then leave_primary name p
      else leave_first_primary names p

  -- stop_agents
  unfoldable pub handle_stop_agents : List String → P → Handled
  unfolding leave_first_primary stop_agents tally_fields
  handle_stop_agents names p =
      let left = leave_first_primary names p in
      let r = stop_agents J C o.agent_error names left.agents in
      (record left { agents = r.0 }, some (tally_fields J C o.agent_error "stopped" r.1))

  -- emergency_stop
  unfoldable pub handle_emergency_stop : P → Handled
  unfolding stop_all_agents
  handle_emergency_stop p =
      let r = stop_all_agents J C o.agent_error p.agents in
      (
        clear_restores (on_watchdog unregister_primary_agent (record p { agents = r.0 })),
        some (done J true []),
      )

  -- shutdown
  unfoldable pub handle_shutdown : P → Handled
  unfolding release_all
  handle_shutdown p =
      let left = on_watchdog unregister_primary_agent p in
      let r = release_all J C o.agent_error left.agents in
      (record left { agents = r.0; running = false }, some (done J true []))
