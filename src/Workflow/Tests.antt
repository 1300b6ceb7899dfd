-- ===== src/Workflow/Tests.antt =====
-- Concrete controllers and events, and the theorems of the workflow applied to them.
use text.Mathlib.Text.{◌==◌}
use Prim.{tt}
use xreal_bsp_rgb_tool.Prelude.{◌≤◌, ◌≡◌, refl, true, false, List, [], ◌∷◌, some}
use xreal_bsp_rgb_tool.Prelude.Int.{pos}
use xreal_bsp_rgb_tool.Platform.{Text}
use xreal_bsp_rgb_tool.Workflow.{
  Controller, initial, primary_bsp_agent, init_agent, send_agent_command, emergency_stop,
  emergency_stop_action,
}
use xreal_bsp_rgb_tool.Workflow.Run.{
  execute, Event, step, run, select_agent, one_click, command_result, status_update, wait_timeout,
}
use xreal_bsp_rgb_tool.Workflow.Requests.{
  request_emergency_stop, valid_agent_selected, one_click_busy,
}
use xreal_bsp_rgb_tool.Workflow.Status.{StatusUpdate, agent_watchdog_state}
use xreal_bsp_rgb_tool.Workflow.View.{view}
use xreal_bsp_rgb_tool.Workflow.Invariant.{Inv, run-initial-Inv}
use xreal_bsp_rgb_tool.Workflow.Frugal.{starts}
use xreal_bsp_rgb_tool.Workflow.OneClick.{
  starts-run, reply, start_device_params, ready_view, one_click_completes,
}
use xreal_bsp_rgb_tool.Workflow.Actions.{actions, connect_payload, start_payload}
use xreal_bsp_rgb_tool.Workflow.Stop.{
  Stopped, stop_payload, emergency_stop_holds, step_without_agent,
}

abbrev plain_text : Text
plain_text = record {
  trimmed = λ s. s;
  contains_insensitive = λ s t. s == t;
  number = λ z. "0";
  to_int = λ s. pos 0;
}

-- A new controller with the BSP agent selected.
abbrev selected : Controller
selected = record initial { active_agent = primary_bsp_agent }

abbrev stopped : Controller
stopped = record initial { active_agent = primary_bsp_agent; state = emergency_stop }

abbrev other_agent : Controller
other_agent = record initial { active_agent = "imu_node" }

abbrev healthy_update : StatusUpdate
healthy_update = record {
  summary = "眼镜 已连接";
  agents = some (
      (
        primary_bsp_agent,
        record { state = some "healthy"; fsn = "F1"; product_label = "One"; product_id = pos 1 },
      )
      ∷ []);
}

selected_valid : valid_agent_selected selected ≡ true
unfolding valid_agent_selected initial
selected_valid = refl

selected_free : one_click_busy selected ≡ false
unfolding one_click_busy initial
selected_free = refl

selected_fresh : selected.one_click_succeeded ≡ false
unfolding initial
selected_fresh = refl

selected_unwatched : (selected.active_agent_watchdog_state == "healthy") ≡ false
unfolding initial
selected_unwatched = refl

update_healthy : agent_watchdog_state healthy_update.agents primary_bsp_agent ≡ "healthy"
unfolding agent_watchdog_state
update_healthy = refl

other_agent_invalid : valid_agent_selected other_agent ≡ false
unfolding valid_agent_selected initial
other_agent_invalid = refl

stopped-Stopped : Stopped stopped
unfolding initial
stopped-Stopped = record {
  state = refl;
  flow = refl;
  succeeded = refl;
  timer = refl;
  dispatched = refl;
}

one_click_completes_example :
    (actions
        (run plain_text selected
          (one_click [] [] ∷ command_result (reply init_agent "" true "ok" false) ∷ [])).emitted
      ≡ (init_agent, connect_payload primary_bsp_agent) ∷ [])
    × (actions
          (run plain_text selected (
            one_click [] []
            ∷ command_result (reply init_agent "" true "ok" false)
            ∷ status_update healthy_update
            ∷ [])).emitted
        ≡ (send_agent_command, start_payload primary_bsp_agent (start_device_params [] selected))
          ∷ (init_agent, connect_payload primary_bsp_agent)
          ∷ [])
    × (view (
          run plain_text selected (
            one_click [] []
            ∷ command_result (reply init_agent "" true "ok" false)
            ∷ status_update healthy_update
            ∷ command_result (reply send_agent_command "start_device" true "started" false)
            ∷ []))
        ≡ ready_view primary_bsp_agent "healthy")
unfolding initial
one_click_completes_example =
    one_click_completes plain_text selected [] [] healthy_update "" "ok" "started" false false
      selected_valid selected_free selected_fresh selected_unwatched update_healthy

abbrev two_presses : List Event
two_presses =
    select_agent primary_bsp_agent
    ∷ execute primary_bsp_agent "check" []
    ∷ one_click [] []
    ∷ one_click [] []
    ∷ command_result (reply init_agent "" true "ok" false)
    ∷ status_update healthy_update
    ∷ status_update healthy_update
    ∷ []

starts-run_example : starts (run plain_text initial two_presses).emitted ≤ 2
starts-run_example =
    starts-run plain_text two_presses (refl, (refl, (refl, (refl, (refl, (refl, (refl, tt)))))))

run-initial-Inv_example : Inv (run plain_text initial two_presses)
run-initial-Inv_example = run-initial-Inv plain_text two_presses

emergency_stop_holds_example :
    (actions (request_emergency_stop selected).emitted
      ≡ (emergency_stop_action, stop_payload selected) ∷ actions selected.emitted)
    × Stopped (
        run plain_text
          (request_emergency_stop selected)
          (status_update healthy_update ∷ wait_timeout ∷ []))
unfolding initial
emergency_stop_holds_example =
    emergency_stop_holds plain_text selected (status_update healthy_update ∷ wait_timeout ∷ []) refl
      (refl, (refl, tt))

step_without_agent_example :
    (view (step plain_text other_agent (one_click [] [])) ≡ view other_agent)
    × (actions (step plain_text other_agent (one_click [] [])).emitted
        ≡ actions other_agent.emitted)
step_without_agent_example =
    step_without_agent plain_text other_agent (one_click [] []) refl other_agent_invalid
