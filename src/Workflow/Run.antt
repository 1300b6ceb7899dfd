-- ===== src/Workflow/Run.antt =====
-- The controller as one machine: its slots and its timer as events, and a run over them.
use xreal_bsp_rgb_tool.Prelude.{List, [], ◌∷◌, String}
use xreal_bsp_rgb_tool.Platform.{Text}
use xreal_bsp_rgb_tool.Workflow.{Controller, Params, watchdog_wait_timeout}
use xreal_bsp_rgb_tool.Workflow.Requests.{
  set_active_agent, request_reset_workflow, start_one_click, request_connect, request_check,
  request_init_device, request_start_device, request_start_record, request_stop_record,
  request_stop_all_agents, request_execute_command, request_emergency_stop,
}
use xreal_bsp_rgb_tool.Workflow.Results.{CommandResult, handle_decoded}
use xreal_bsp_rgb_tool.Workflow.Status.{StatusUpdate, handle_status}

-- The four requestOneClick slots differ in the parameters that they pass on.
pub data Event : Type 0 where
  select_agent : String → Event
  one_click : Params → Params → Event
  reset connect check init_device start_device start_record stop_record : Event
  stop_all emergency_stop wait_timeout : Event
  execute : String → String → Params → Event
  command_result : CommandResult → Event
  status_update : StatusUpdate → Event

unfoldable pub step : Text → Controller → Event → Controller
step q c (select_agent name) = set_active_agent name c
step q c (one_click init_params start_params) = start_one_click init_params start_params c
step q c reset = request_reset_workflow c
step q c connect = request_connect c
step q c check = request_check c
step q c init_device = request_init_device c
step q c start_device = request_start_device c
step q c start_record = request_start_record c
step q c stop_record = request_stop_record c
step q c stop_all = request_stop_all_agents c
step q c emergency_stop = request_emergency_stop c
step q c wait_timeout = watchdog_wait_timeout c
step q c (execute agent cmd params) = request_execute_command q agent cmd params c
step q c (command_result r) = handle_decoded q r c
step q c (status_update u) = handle_status u c

unfoldable pub run : Text → Controller → List Event → Controller
run q c [] = c
run q c (e ∷ es) = run q (step q c e) es
