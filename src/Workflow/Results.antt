-- ===== src/Workflow/Results.antt =====
-- WorkflowController::handleCommandResult. `decode_result` reads the reply; the other functions are
-- the handler's branches.
use text.Mathlib.Text.{◌==◌}
use xreal_bsp_rgb_tool.Prelude.{
  Bool, true, false, not, ◌&&◌, ◌||◌, List, [], ◌∷◌, Option, none, some, String, if◌then◌else◌,
}
use xreal_bsp_rgb_tool.Platform.{Text, JsonLib}
use xreal_bsp_rgb_tool.Workflow.{
  waiting_watchdog, device_initializing, device_ready, recording_requested, failed, emergency_stop,
  LogLine, line, plain, Controller, init_agent, stop_all_agents, send_agent_command,
  emergency_stop_action, same_state, append_log, transition_to, arm_watchdog_wait_timeout,
  cancel_watchdog_wait_timeout, set_one_click_succeeded, leave_flow,
  dispatch_one_click_start_device,
}

-- What the handler reads of a reply. `background` is the presence of "request_id".
pub record CommandResult : Type 0 where
  pub action : String
  pub cmd_name : String
  pub success : Bool
  pub message : String
  pub background : Bool
  pub stopped : List String
  pub failed : List String

module _ (J : JsonLib) where
  open J use {Json, find, as_string, as_array, value_bool}

  string_or : Option String → String → String
  string_or none d = d
  string_or (some s) d = s

  field_string : String → Json → Option String
  field_string key j = elim (find key j) [ none ↦ none | some v ↦ as_string v ]

  -- jsonStringValue
  pub json_string_value : Json → String → String
  unfolding string_or field_string
  json_string_value j key = string_or (field_string key j) ""

  -- jsonMessage
  pub json_message : Json → String
  unfolding string_or field_string
  json_message j = string_or (field_string "message" j) (string_or (field_string "error" j) "")

  strings : List Json → List String
  strings [] = []
  strings (v ∷ vs) = elim (as_string v) [ none ↦ strings vs | some s ↦ s ∷ strings vs ]

  -- The strings of an array field, as the STOP_ALL_AGENTS branch collects them.
  string_list : String → Json → List String
  unfolding strings
  string_list key j = elim (find key j) [
    | none ↦ []
    | some v ↦ elim (as_array v) [ none ↦ [] | some vs ↦ strings vs ]
  ]

  is_present : Option Json → Bool
  is_present none = false
  is_present (some v) = true

  -- The fields that the handler reads; none where `value("success", false)` throws.
  pub decode_result : Json → Option CommandResult
  unfolding json_string_value json_message string_list is_present
  decode_result j = elim (value_bool j "success" false) [
    | none ↦ none
    | some ok ↦ some (record {
      action = json_string_value j "action";
      cmd_name = json_string_value j "cmd_name";
      success = ok;
      message = json_message j;
      background = is_present (find "request_id" j);
      stopped = string_list "stopped" j;
      failed = string_list "failed" j;
    })
  ]

abbrev pub outcome_text : Bool → String
outcome_text true = "成功"
outcome_text false = "失败"

abbrev pub message_text : String → String
message_text m = if m == "" then "<no message>" else m

-- The INIT_AGENT branch.
unfoldable pub handle_init_result : CommandResult → Controller → Controller
unfolding append_log leave_flow cancel_watchdog_wait_timeout transition_to
    dispatch_one_click_start_device arm_watchdog_wait_timeout
handle_init_result r c0 =
    let c =
      append_log (line "Connect %1: %2" (outcome_text r.success ∷ message_text r.message ∷ []))
        c0 in
    if not r.success
    then transition_to failed (plain "Connect 失败") (cancel_watchdog_wait_timeout (leave_flow c))
    else if c.one_click_flow_active
    then if c.active_agent_watchdog_state == "healthy"
      then dispatch_one_click_start_device (plain "Connect 成功，watchdog 已健康，开始执行 start_device") c
      else if c.active_agent_watchdog_state == "initializing"
      then transition_to device_initializing (plain "Connect 成功，watchdog 正在执行设备初始化")
          (arm_watchdog_wait_timeout c)
      else transition_to waiting_watchdog (plain "Connect 成功，等待 watchdog 完成设备初始化")
          (arm_watchdog_wait_timeout c)
    else if c.active_agent_watchdog_state == "healthy"
    then transition_to device_ready (plain "Connect 成功，设备已健康") (cancel_watchdog_wait_timeout c)
    else c

-- The device is running: a one-click flow has reached its end.
unfoldable pub finish_start : LogLine → Controller → Controller
unfolding leave_flow cancel_watchdog_wait_timeout transition_to set_one_click_succeeded
finish_start reason c =
    let c1 = if c.one_click_flow_active then set_one_click_succeeded true c else c in
    transition_to device_ready reason (cancel_watchdog_wait_timeout (leave_flow c1))

-- The `!success` part of the SEND_AGENT_COMMAND branch.
unfoldable pub command_failed : Text → CommandResult → Controller → Controller
unfolding leave_flow cancel_watchdog_wait_timeout transition_to arm_watchdog_wait_timeout
command_failed q r c =
    if r.background
      && r.cmd_name == "init_device"
      && c.one_click_flow_active
      && (same_state c.state waiting_watchdog || same_state c.state device_initializing)
    then transition_to waiting_watchdog (plain "watchdog init_device 尚未返回成功，继续等待自动恢复")
        (arm_watchdog_wait_timeout c)
    else if r.cmd_name == "init_device" && q.contains_insensitive r.message "reentry detected"
    then transition_to device_initializing (plain "init_device 已在设备链路中执行，继续等待结果")
        (cancel_watchdog_wait_timeout c)
    else transition_to failed (line "%1 执行失败" (r.cmd_name ∷ []))
        (cancel_watchdog_wait_timeout (leave_flow c))

-- The replies to init_device: only a one-click flow waits on.
unfoldable pub init_device_returned : CommandResult → Controller → Controller
unfolding transition_to arm_watchdog_wait_timeout
init_device_returned r c =
    if r.background && c.one_click_flow_active
    then transition_to device_initializing (plain "watchdog init_device 已返回，等待健康状态确认")
        (arm_watchdog_wait_timeout c)
    else if c.one_click_flow_active
    then transition_to device_initializing (plain "init_device 已返回，等待 watchdog 状态确认")
        (arm_watchdog_wait_timeout c)
    else c

-- The rest of the SEND_AGENT_COMMAND branch; the other branches of the handler do not apply then.
unfoldable pub command_succeeded : CommandResult → Controller → Controller
unfolding init_device_returned finish_start set_one_click_succeeded transition_to
command_succeeded r c =
    if r.cmd_name == "init_device"
    then init_device_returned r c
    else if r.cmd_name == "start_device"
    then finish_start (plain "设备已就绪，可以进入录制阶段") c
    else let c1 =
        if r.cmd_name == "stop_device" || r.cmd_name == "release_device"
        then set_one_click_succeeded false c
        else c in
      if r.cmd_name == "start_record"
      then transition_to recording_requested (plain "录制已启动") c1
      else if r.cmd_name == "stop_record"
      then transition_to device_ready (plain "录制已停止，设备仍保持就绪") c1
      else c1

unfoldable pub handle_send_result : Text → CommandResult → Controller → Controller
unfolding append_log
handle_send_result q r c0 =
    let c =
      append_log
        (line "%1 %2: %3" (r.cmd_name ∷ outcome_text r.success ∷ message_text r.message ∷ [])) c0 in
    if r.cmd_name == "start_device" && q.contains_insensitive r.message "Already started"
    then finish_start (plain "设备已经处于启动状态") c
    else if not r.success
    then command_failed q r c
    else command_succeeded r c

unfoldable pub log_agents : String → List String → Controller → Controller
unfolding append_log
log_agents template [] c = c
log_agents template (a ∷ as') c = append_log (line template (a ∷ as')) c

unfoldable pub log_none_named : List String → List String → Controller → Controller
unfolding append_log
log_none_named [] [] c = append_log (plain "没有需要停止的 Agent。") c
log_none_named _ _ c = c

-- The STOP_ALL_AGENTS branch.
unfoldable pub handle_stop_all_result : CommandResult → Controller → Controller
unfolding transition_to
handle_stop_all_result r c =
    let c1 = log_agents "停止失败: %1" r.failed (log_agents "已停止: %1" r.stopped c) in
    let c2 = log_none_named r.stopped r.failed c1 in
    if r.success
    then transition_to emergency_stop (plain "所有 Agent 停止流程已完成") c2
    else transition_to failed (plain "停止所有 Agent 失败") c2

-- The EMERGENCY_STOP branch.
unfoldable pub handle_emergency_result : Controller → Controller
unfolding append_log leave_flow cancel_watchdog_wait_timeout transition_to
handle_emergency_result c =
    transition_to emergency_stop (plain "系统处于急停态")
      (append_log (plain "Emergency Stop 已执行。") (cancel_watchdog_wait_timeout (leave_flow c)))

unfoldable pub handle_decoded : Text → CommandResult → Controller → Controller
handle_decoded q r c =
    if r.action == send_agent_command && r.cmd_name == "check" && r.background
    then c
    else if r.action == init_agent
    then handle_init_result r c
    else if r.action == send_agent_command
    then handle_send_result q r c
    else if r.action == stop_all_agents
    then handle_stop_all_result r c
    else if r.action == emergency_stop_action
    then handle_emergency_result c
    else c

-- The handler; none where it throws, before it has changed anything.
pub handle_command_result : Text → (J : JsonLib) → J.Json → Controller → Option Controller
unfolding handle_decoded
handle_command_result q J j c = elim (decode_result J j) [
  | none ↦ none
  | some r ↦ some (handle_decoded q r c)
]
