-- ===== src/Manager/Kept/Handlers.antt =====
-- What the handlers of single actions leave in order.
use text.Mathlib.Text.{◌==◌}
use xreal_bsp_rgb_tool.Prelude.{
  refl, false, not, ◌&&◌, ◌||◌, List, [], ◌∷◌, String, if_both, Option-cases, inl, inr,
}
use xreal_bsp_rgb_tool.Platform.{Text, JsonLib}
use xreal_bsp_rgb_tool.Watchdog.Primary.{
  register_primary, update_params, unregister_primary, set_device_config, step,
}
use xreal_bsp_rgb_tool.Manager.Fields.{Fields, value_flag}
use xreal_bsp_rgb_tool.Manager.Agents.{
  AgentClass, is_primary_agent, get_agent_config, initialize_agent,
}
use xreal_bsp_rgb_tool.Manager.Process.{Process}
use xreal_bsp_rgb_tool.Manager.Actions.{
  primary_bsp_agent, Outside, Handled, init_agent, handle_watchdog_init_params, handle_release,
  handle_stop_all, handle_stop_agents, handle_emergency_stop, handle_shutdown, leave_primary,
  leave_first_primary, register_watch, watch_agent, init_result, configure_devices, auto_start,
  supported_devices,
}
use xreal_bsp_rgb_tool.Manager.Kept.{Kept, Kept-refl, Kept-trans, Kept-step, Kept-same, post}

module _ (q : Text) (J : JsonLib) {A : Type 0} (C : AgentClass J.Json A)
    (o : Outside (Fields J)) where
  pub leave_primary-Kept : (name : String) (p : Process J A) → Kept p (leave_primary q J C o name p)
  unfolding leave_primary post step
  leave_primary-Kept name p =
      Kept-step unregister_primary p (leave_primary q J C o name p) refl refl

  pub leave_first_primary-Kept :
      (names : List String) (p : Process J A) → Kept p (leave_first_primary q J C o names p)
  unfolding leave_first_primary
  leave_first_primary-Kept [] p = Kept-refl p
  leave_first_primary-Kept (name ∷ names) p =
      if_both (Kept p) (is_primary_agent J C o.agent_error name p.agents)
        (leave_primary-Kept name p) (leave_first_primary-Kept names p)

  pub handle_release-Kept :
      (name : String) (p : Process J A) → Kept p (handle_release q J C o name p).0
  unfolding handle_release post
  handle_release-Kept name p =
      Kept-trans p _ (handle_release q J C o name p).0
        (if_both (Kept p) (is_primary_agent J C o.agent_error name p.agents)
          (leave_primary-Kept name p) (Kept-refl p))
        (Kept-same _ _ refl refl)

  pub handle_stop_all-Kept : (p : Process J A) → Kept p (handle_stop_all q J C o p).0
  unfolding handle_stop_all post step
  handle_stop_all-Kept p = Kept-step unregister_primary p _ refl refl

  pub handle_emergency_stop-Kept : (p : Process J A) → Kept p (handle_emergency_stop q J C o p).0
  unfolding handle_emergency_stop post step
  handle_emergency_stop-Kept p = Kept-step unregister_primary p _ refl refl

  pub handle_shutdown-Kept : (p : Process J A) → Kept p (handle_shutdown q J C o p).0
  unfolding handle_shutdown post step
  handle_shutdown-Kept p = Kept-step unregister_primary p _ refl refl

  pub handle_stop_agents-Kept :
      (names : List String) (p : Process J A) → Kept p (handle_stop_agents q J C o names p).0
  unfolding handle_stop_agents post
  handle_stop_agents-Kept names p =
      Kept-trans p _ (handle_stop_agents q J C o names p).0 (leave_first_primary-Kept names p)
        (Kept-same _ _ refl refl)

  pub handle_watchdog_init_params-Kept :
      (name : String) (params : J.Json) (p : Process J A)
      → Kept p (handle_watchdog_init_params q J C o name params p).0
  unfolding handle_watchdog_init_params post step
  handle_watchdog_init_params-Kept name params p =
      if_both (λ (r : Handled q J C o). Kept p r.0)
        (name == "" || not (is_primary_agent J C o.agent_error name p.agents)) (Kept-refl p)
        (Kept-step (update_params name params) p _ refl refl)

  pub configure_devices-Kept :
      (name : String) (config result : Fields J) (p : Process J A)
      → Kept p (configure_devices q J C o name config result p).0
  unfolding configure_devices post step
  configure_devices-Kept name config result p =
      elim (Option-cases (value_flag J "suppress_disconnect_dialog" false config)) [
        | inl e ↦ rw (e, configure_devices) (Kept-refl p)
        | inr (suppress, e) ↦
            rw (e, configure_devices)
              (Kept-step (set_device_config name (supported_devices q J C o config) suppress) p _
                refl refl)
      ]

  pub auto_start-Kept : (name : String) (p : Process J A) → Kept p (auto_start q J C o name p)
  unfolding auto_start post
  auto_start-Kept name p =
      if_both (Kept p) (name == primary_bsp_agent) (Kept-same p _ refl refl) (Kept-refl p)

  pub register_watch-Kept :
      (name : String) (p : Process J A) → Kept p (register_watch q J C o name p)
  unfolding register_watch post step
  register_watch-Kept name p = Kept-step (register_primary name _) p _ refl refl

  pub watch_agent-Kept :
      (name : String) (result : Fields J) (p : Process J A)
      → Kept p (watch_agent q J C o name result p).0
  unfolding watch_agent
  watch_agent-Kept name result p =
      let r = register_watch q J C o name p in
      let s = auto_start q J C o name r in
      let config = get_agent_config J C o.agent_error name p.agents in
      Kept-trans p s (configure_devices q J C o name config result s).0
        (Kept-trans p r s (register_watch-Kept name p) (auto_start-Kept name r))
        (configure_devices-Kept name config result s)

  pub init_agent-Kept : (name : String) (p : Process J A) → Kept p (init_agent q J C o name p).0
  unfolding init_agent post
  init_agent-Kept name p =
      let r = initialize_agent J C o.agent_error name p.agents in
      let next : Process J A = record p { agents = r.0 } in
      let result = init_result q J C o name r.1 r.2 in
      if_both (λ (h : Handled q J C o). Kept p h.0)
        (r.1 && is_primary_agent J C o.agent_error name r.0)
        (Kept-trans p next (watch_agent q J C o name result next).0 (Kept-same p next refl refl)
          (watch_agent-Kept name result next))
        (Kept-same p next refl refl)
