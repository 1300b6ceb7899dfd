-- ===== src/Manager/Kept/Run.antt =====
-- What every action leaves in order.
use text.Mathlib.Text.{◌==◌}
use xreal_bsp_rgb_tool.Prelude.{refl, List, Option, none, some, String, if_both}
use xreal_bsp_rgb_tool.Platform.{Text, JsonLib}
use xreal_bsp_rgb_tool.Manager.Fields.{Fields, value_text, value_json}
use xreal_bsp_rgb_tool.Manager.Agents.{AgentClass}
use xreal_bsp_rgb_tool.Manager.Process.{Process}
use xreal_bsp_rgb_tool.Manager.Actions.{
  Outside, Handled, init_agent, handle_watchdog_init_params, handle_release, handle_emergency_stop,
}
use xreal_bsp_rgb_tool.Manager.Dispatch.{run_action, with_text, on_text, stop_listed, agent_names}
use xreal_bsp_rgb_tool.Manager.Kept.{Kept, Kept-refl, Kept-same, post}
use xreal_bsp_rgb_tool.Manager.Kept.Handlers.{
  handle_release-Kept, handle_stop_all-Kept, handle_emergency_stop-Kept, handle_shutdown-Kept,
  handle_stop_agents-Kept, handle_watchdog_init_params-Kept, init_agent-Kept,
}
use xreal_bsp_rgb_tool.Manager.Kept.Command.{send_agent_command-Kept}

module _ (q : Text) (J : JsonLib) {A : Type 0} (C : AgentClass J.Json A)
    (o : Outside (Fields J)) where
  on_text-Kept :
      (t : Option String) (f : String → Process J A → Handled q J C o) (p : Process J A)
      → ((s : String) → Kept p (f s p).0)
      → Kept p (on_text q J C o t f p).0
  unfolding on_text
  on_text-Kept none f p k = Kept-refl p
  on_text-Kept (some s) f p k = k s

  with_text-Kept :
      (key default : String) (c : Fields J) (f : String → Process J A → Handled q J C o)
      (p : Process J A)
      → ((s : String) → Kept p (f s p).0)
      → Kept p (with_text q J C o key default c f p).0
  unfolding with_text
  with_text-Kept key default c f p k = on_text-Kept (value_text J key default c) f p k

  stop_listed-Kept :
      (names : Option (List String)) (p : Process J A) → Kept p (stop_listed q J C o names p).0
  unfolding stop_listed
  stop_listed-Kept none p = Kept-refl p
  stop_listed-Kept (some names) p = handle_stop_agents-Kept q J C o names p

  pub run_action-Kept :
      (action : String) (c : Fields J) (p : Process J A) → Kept p (run_action q J C o action c p).0
  unfolding run_action post
  run_action-Kept action c p =
      let K : Handled q J C o → Type 0 = λ h. Kept p h.0 in
      if_both K (action == "init_agent")
        (with_text-Kept "agent_name" "" c (init_agent q J C o) p (λ s. init_agent-Kept q J C o s p))
        (if_both K (action == "set_watchdog_init_params")
          (with_text-Kept "agent_name" "" c
            (λ name. handle_watchdog_init_params q J C o name (value_json J "params" c)) p
            (λ s. handle_watchdog_init_params-Kept q J C o s (value_json J "params" c) p))
          (if_both K (action == "release_agent")
            (with_text-Kept "agent_name" "" c (handle_release q J C o) p
              (λ s. handle_release-Kept q J C o s p))
            (if_both K (action == "stop_all_agents") (handle_stop_all-Kept q J C o p) (
              if_both K (action == "stop_agents") (stop_listed-Kept (agent_names q J C o c) p) (
                if_both K (action == "send_agent_command") (send_agent_command-Kept q J C o c p) (
                  if_both K (action == "get_status") (Kept-refl p) (
                    if_both K (action == "get_available_agents") (Kept-refl p) (
                      if_both K (action == "get_primary_agents") (Kept-refl p) (
                        if_both K (action == "show_dialog") (Kept-same p _ refl refl) (
                          if_both K (action == "emergency_stop")
                            (with_text-Kept "reason" "Unknown" c
                              (λ reason. handle_emergency_stop q J C o) p
                              (λ s. handle_emergency_stop-Kept q J C o p))
                            (if_both K (action == "shutdown") (handle_shutdown-Kept q J C o p)
                              (Kept-refl p))))))))))))
