-- ===== src/Workflow/Stop.antt =====
-- The emergency stop, and the guard in front of the device commands.
use text.Mathlib.Text.{◌==◌}
use xreal_bsp_rgb_tool.Prelude.{Bool, true, false, List, [], ◌∷◌, none, some, String, ◌≡◌, arith}
use xreal_bsp_rgb_tool.Platform.{Text}
use xreal_bsp_rgb_tool.Workflow.{
  Controller, Payload, same_state, emergency_stop, emergency_stop_action, watchdog_wait_timeout,
}
use xreal_bsp_rgb_tool.Workflow.Run.{
  Event, step, run, one_click, connect, check, init_device, start_device, start_record, stop_record,
  status_update, wait_timeout,
}
use xreal_bsp_rgb_tool.Workflow.Requests.{
  start_one_click, request_connect, request_check, request_init_device, request_start_device,
  request_start_record, request_stop_record, request_emergency_stop, valid_agent_selected,
  reject_agent,
}
use xreal_bsp_rgb_tool.Workflow.Status.{
  StatusUpdate, handle_status, on_healthy, on_initializing, on_disconnected, react,
}
use xreal_bsp_rgb_tool.Workflow.View.{view}
use xreal_bsp_rgb_tool.Workflow.StatusView.{view-absorb_status}
use xreal_bsp_rgb_tool.Workflow.Cases.{react_cases}
use xreal_bsp_rgb_tool.Workflow.Actions.{actions}

-- The controller is stopped: no flow, no timer, nothing done.
pub record Stopped (c : Controller) : Type 0 where
  pub state : c.state ≡ emergency_stop
  pub flow : c.one_click_flow_active ≡ false
  pub succeeded : c.one_click_succeeded ≡ false
  pub timer : c.watchdog_wait_active ≡ false
  pub dispatched : c.one_click_start_device_dispatched ≡ false

request_emergency_stop-Stopped :
    (c : Controller) → (c.active_agent == "") ≡ false → Stopped (request_emergency_stop c)
unfolding request_emergency_stop
request_emergency_stop-Stopped c h = ground arith

-- Events that reach the controller without the user and without a reply: statuses and its timer.
abbrev pub passive : Event → Bool
passive wait_timeout = true
passive (status_update u) = true
passive _ = false

abbrev pub AllPassive : List Event → Type 0
AllPassive [] = Unit {0}
AllPassive (e ∷ es) = (passive e ≡ true) × AllPassive es

react-Stopped : (s : String) (c : Controller) → Stopped c → Stopped (react s c)
unfolding on_healthy on_initializing on_disconnected same_state
react-Stopped s c v = react_cases Stopped s c (ground arith) (ground arith) (ground arith) v

handle_status-Stopped :
    (u : StatusUpdate) (c : Controller) → Stopped c → Stopped (handle_status u c)
unfolding handle_status
handle_status-Stopped u c v = react-Stopped _ _ (ground (arith, view-absorb_status u c))

watchdog_wait_timeout-Stopped : (c : Controller) → Stopped c → Stopped (watchdog_wait_timeout c)
unfolding watchdog_wait_timeout
watchdog_wait_timeout-Stopped c v = ground arith

step-Stopped :
    (q : Text) (c : Controller) (e : Event) → passive e ≡ true → Stopped c → Stopped (step q c e)
unfolding step
step-Stopped q c wait_timeout h v = watchdog_wait_timeout-Stopped c v
step-Stopped q c (status_update u) h v = handle_status-Stopped u c v
step-Stopped q c _ h v = cc

run-Stopped :
    (q : Text) (c : Controller) (es : List Event) → AllPassive es → Stopped c → Stopped (run q c es)
unfolding run
run-Stopped q c [] h v = v
run-Stopped q c (e ∷ es) h v = run-Stopped q (step q c e) es h.1 (step-Stopped q c e h.0 v)

abbrev pub stop_payload : Controller → Payload
stop_payload c = record {
  agent_name = some c.active_agent;
  cmd_name = none;
  params = none;
  reason = some "用户请求紧急停止";
}

request_emergency_stop-actions :
    (c : Controller)
    → (c.active_agent == "") ≡ false
    → actions (request_emergency_stop c).emitted
      ≡ (emergency_stop_action, stop_payload c) ∷ actions c.emitted
unfolding request_emergency_stop
request_emergency_stop-actions c h = ground arith

-- With an agent selected, an emergency stop sends the one stop request, closes the flow and its timer
-- and enters EmergencyStop, and no watchdog status and no timeout that follows leaves that state.
pub emergency_stop_holds :
    (q : Text) (c : Controller) (es : List Event)
    → (c.active_agent == "") ≡ false
    → AllPassive es
    → (actions (request_emergency_stop c).emitted
        ≡ (emergency_stop_action, stop_payload c) ∷ actions c.emitted)
      × Stopped (run q (request_emergency_stop c) es)
emergency_stop_holds q c es h p = (
  request_emergency_stop-actions c h,
  run-Stopped q (request_emergency_stop c) es p (request_emergency_stop-Stopped c h),
)

-- The slots that need the BSP agent.
abbrev pub needs_agent : Event → Bool
needs_agent (one_click p s) = true
needs_agent connect = true
needs_agent check = true
needs_agent init_device = true
needs_agent start_device = true
needs_agent start_record = true
needs_agent stop_record = true
needs_agent _ = false

-- Unless the BSP agent is selected, the slots of one-click start, Connect, check, init_device,
-- start_device, start_record and stop_record send no action and change no state, flag or agent.
pub step_without_agent :
    (q : Text) (c : Controller) (e : Event)
    → needs_agent e ≡ true
    → valid_agent_selected c ≡ false
    → (view (step q c e) ≡ view c) × (actions (step q c e).emitted ≡ actions c.emitted)
unfolding step reject_agent start_one_click request_connect request_check request_init_device
    request_start_device request_start_record request_stop_record
step_without_agent q c (one_click p s) n h = (ground arith, ground arith)
step_without_agent q c _ n h = (ground arith, ground arith)
