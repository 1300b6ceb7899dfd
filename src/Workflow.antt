-- ===== src/Workflow.antt =====
-- src/workflow/workflow_controller.cpp and include/recordlab/workflow/workflow_controller.h: the
-- controller of the one-click flow. A slot takes the controller and returns the new one; what Qt would
-- deliver as signals is appended to `emitted`, newest first, and so is the log.
pub mod Requests
pub mod Results
pub mod Status
pub mod Cases
pub mod View
pub mod Run
pub mod Invariant
pub mod StatusView
pub mod Frugal
pub mod OneClick
pub mod Actions
pub mod Stop
mod Tests
use xreal_bsp_rgb_tool.Prelude.{
  ℕ, Bool, true, false, not, ◌&&◌, ◌||◌, List, [], ◌∷◌, Option, none, some, String, if◌then◌else◌,
}
use xreal_bsp_rgb_tool.Prelude.Int.{ℤ, pos, negsuc}
use xreal_bsp_rgb_tool.Prelude.Maps.{insert}
use text.Mathlib.Text.{◌==◌}

pub data State : Type 0 where
  idle checking_connection agent_connecting waiting_watchdog device_initializing : State
  waiting_start_device_response device_ready recording_requested failed emergency_stop : State

-- A QVariant as the callers fill it, and a QVariantMap.
pub data Variant : Type 0 where
  text_value : String → Variant
  integer : ℤ → Variant
  boolean : Bool → Variant

abbrev pub Params : Type 0
Params = List (String × Variant)

-- The payload of actionRequested.
pub record Payload : Type 0 where
  pub agent_name : Option String
  pub cmd_name : Option String
  pub params : Option Params
  pub reason : Option String

-- A log line: a template with its arguments, a parameter summary, or a transition with its reason.
pub data LogLine : Type 0 where
  line : String → List String → LogLine
  with_params : String → Params → LogLine
  entered : State → LogLine → LogLine

pub data Signal : Type 0 where
  active_agent_changed : String → Signal
  state_changed : State → Signal
  log_appended : LogLine → Signal
  watchdog_summary_changed : String → Signal
  active_agent_watchdog_state_changed : String → Signal
  active_agent_device_info_changed : String → String → Signal
  one_click_success_changed : Bool → Signal
  action_requested : String → Payload → Signal

pub record Controller : Type 0 where
  pub active_agent : String
  pub watchdog_summary : String
  pub active_agent_watchdog_state : String
  pub active_agent_glasses_fsn : String
  pub active_agent_glasses_product_label : String
  pub active_agent_glasses_product_id : ℤ
  pub watchdog_states_by_agent : List (String × String)
  pub glasses_fsns_by_agent : List (String × String)
  pub glasses_product_labels_by_agent : List (String × String)
  pub glasses_product_ids_by_agent : List (String × ℤ)
  pub state : State
  pub log_history : List LogLine
  pub one_click_flow_active : Bool
  pub one_click_succeeded : Bool
  pub watchdog_wait_active : Bool  -- watchdogWaitTimer_ is running
  pub one_click_start_device_dispatched : Bool
  pub one_click_start_device_params_override : Params
  pub emitted : List Signal

unfoldable pub initial : Controller
initial = record {
  active_agent = "";
  watchdog_summary = "无监控";
  active_agent_watchdog_state = "";
  active_agent_glasses_fsn = "";
  active_agent_glasses_product_label = "";
  active_agent_glasses_product_id = negsuc 0;
  watchdog_states_by_agent = [];
  glasses_fsns_by_agent = [];
  glasses_product_labels_by_agent = [];
  glasses_product_ids_by_agent = [];
  state = idle;
  log_history = [];
  one_click_flow_active = false;
  one_click_succeeded = false;
  watchdog_wait_active = false;
  one_click_start_device_dispatched = false;
  one_click_start_device_params_override = [];
  emitted = [];
}

-- recordlab::core::compat::kPrimaryBspAgent and the ManagerAction names.
abbrev pub primary_bsp_agent : String
primary_bsp_agent = "glasses_bsp_node"

abbrev pub init_agent : String
init_agent = "init_agent"

abbrev pub stop_all_agents : String
stop_all_agents = "stop_all_agents"

abbrev pub send_agent_command : String
send_agent_command = "send_agent_command"

abbrev pub set_watchdog_init_params : String
set_watchdog_init_params = "set_watchdog_init_params"

abbrev pub emergency_stop_action : String
emergency_stop_action = "emergency_stop"

abbrev pub plain : String → LogLine
plain s = line s []

unfoldable pub same_state : State → State → Bool
same_state idle idle = true
same_state checking_connection checking_connection = true
same_state agent_connecting agent_connecting = true
same_state waiting_watchdog waiting_watchdog = true
same_state device_initializing device_initializing = true
same_state waiting_start_device_response waiting_start_device_response = true
same_state device_ready device_ready = true
same_state recording_requested recording_requested = true
same_state failed failed = true
same_state emergency_stop emergency_stop = true
same_state _ _ = false

-- `emit signal`
unfoldable pub emit : Signal → Controller → Controller
emit s c = record c { emitted = s ∷ c.emitted }

unfoldable pub append_log : LogLine → Controller → Controller
unfolding emit
append_log l c = emit (log_appended l) (record c { log_history = l ∷ c.log_history })

unfoldable pub transition_to : State → LogLine → Controller → Controller
unfolding emit append_log
transition_to s reason c =
    emit (state_changed s) (append_log (entered s reason) (record c { state = s }))

unfoldable pub arm_watchdog_wait_timeout : Controller → Controller
arm_watchdog_wait_timeout c = record c { watchdog_wait_active = true }

unfoldable pub cancel_watchdog_wait_timeout : Controller → Controller
cancel_watchdog_wait_timeout c = record c { watchdog_wait_active = false }

same_bool : Bool → Bool → Bool
same_bool true b = b
same_bool false b = not b

unfoldable pub set_one_click_succeeded : Bool → Controller → Controller
unfolding emit same_bool
set_one_click_succeeded b c =
    if same_bool c.one_click_succeeded b
    then c
    else emit (one_click_success_changed b) (record c { one_click_succeeded = b })

-- The two assignments with which every slot that leaves the one-click flow begins.
unfoldable pub leave_flow : Controller → Controller
leave_flow c = record c { one_click_flow_active = false; one_click_start_device_dispatched = false }

unfoldable pub is_target_agent_selected : Controller → Bool
is_target_agent_selected c = c.active_agent == primary_bsp_agent

unfoldable pub default_start_device_params : Params
default_start_device_params = ("camera_mode", text_value "rgb") ∷ []

insert_all : Params → Params → Params
insert_all [] m = m
insert_all ((k, v) ∷ ps) m = insert_all ps (insert k v m)

unfoldable pub one_click_start_device_params : Controller → Params
unfolding insert_all
one_click_start_device_params c =
    insert_all c.one_click_start_device_params_override default_start_device_params

abbrev pub some_params : Params → Option Params
some_params [] = none
some_params (p ∷ ps) = some (p ∷ ps)

unfoldable pub dispatch_agent_command : String → Params → Controller → Controller
unfolding emit append_log
dispatch_agent_command cmd params c =
    let c1 =
      if cmd == "init_device" || cmd == "start_device"
      then append_log (with_params cmd params) c
      else c in
    emit
      (action_requested send_agent_command (record {
        agent_name = some c.active_agent;
        cmd_name = some cmd;
        params = some_params params;
        reason = none;
      }))
      c1

unfoldable pub dispatch_one_click_start_device : LogLine → Controller → Controller
unfolding transition_to dispatch_agent_command append_log one_click_start_device_params
dispatch_one_click_start_device reason c =
    if c.one_click_start_device_dispatched
    then append_log (line "%1 已发出，继续等待设备响应。" ("start_device" ∷ [])) c
    else let c1 =
        transition_to waiting_start_device_response reason
          (record c { one_click_start_device_dispatched = true }) in
      dispatch_agent_command "start_device" (one_click_start_device_params c1) c1

-- The single-shot timer fires, which stops it.
unfoldable pub watchdog_wait_timeout : Controller → Controller
unfolding leave_flow transition_to
watchdog_wait_timeout c =
    let c1 = record c { watchdog_wait_active = false } in
    if c.one_click_flow_active
      && (same_state c.state waiting_watchdog || same_state c.state device_initializing)
    then transition_to failed (plain "等待 watchdog 自动初始化成功超时") (leave_flow c1)
    else c1
