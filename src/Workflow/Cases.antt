-- ===== src/Workflow/Cases.antt =====
-- The branches of the large handlers, as rules for a predicate of the controller.
use text.Mathlib.Text.{◌==◌}
use xreal_bsp_rgb_tool.Prelude.{not, ◌&&◌, if_both, String, [], ◌∷◌}
use xreal_bsp_rgb_tool.Platform.{Text}
use xreal_bsp_rgb_tool.Workflow.{
  Controller, line, plain, append_log, init_agent, send_agent_command, stop_all_agents,
  emergency_stop_action,
}
use xreal_bsp_rgb_tool.Workflow.Results.{
  CommandResult, outcome_text, message_text, handle_decoded, handle_init_result, handle_send_result,
  handle_stop_all_result, handle_emergency_result, finish_start, command_failed, command_succeeded,
}
use xreal_bsp_rgb_tool.Workflow.Status.{on_healthy, on_initializing, on_disconnected, react}

module _ {κ} (P : Controller → Type κ) where
  pub react_cases :
      (s : String) (c : Controller)
      → P (on_healthy c)
      → P (on_initializing c)
      → P (on_disconnected c)
      → P c
      → P (react s c)
  unfolding react
  react_cases s c h i d o =
      if_both P (s == "healthy") h
        (if_both P (s == "initializing") i (if_both P (s == "disconnected") d o))

  pub handle_send_cases :
      (q : Text) (r : CommandResult) (c : Controller)
      → let logged =
          append_log
            (line "%1 %2: %3" (r.cmd_name ∷ outcome_text r.success ∷ message_text r.message ∷ []))
            c in
        P (finish_start (plain "设备已经处于启动状态") logged)
        → P (command_failed q r logged)
        → P (command_succeeded r logged)
        → P (handle_send_result q r c)
  unfolding handle_send_result
  handle_send_cases q r c a f s =
      if_both P (r.cmd_name == "start_device" && q.contains_insensitive r.message "Already started")
        a (if_both P (not r.success) f s)

  pub handle_decoded_cases :
      (q : Text) (r : CommandResult) (c : Controller)
      → P c
      → P (handle_init_result r c)
      → P (handle_send_result q r c)
      → P (handle_stop_all_result r c)
      → P (handle_emergency_result c)
      → P (handle_decoded q r c)
  unfolding handle_decoded
  handle_decoded_cases q r c o i s a e =
      if_both P (r.action == send_agent_command && r.cmd_name == "check" && r.background) o (
        if_both P (r.action == init_agent) i (
          if_both P (r.action == send_agent_command) s (
            if_both P (r.action == stop_all_agents) a
              (if_both P (r.action == emergency_stop_action) e o))))
