-- ===== src/Workflow/Requests.antt =====
-- The user's slots of WorkflowController: setActiveAgent and the request functions.
use text.Mathlib.Text.{◌==◌}
use xreal_bsp_rgb_tool.Prelude.{
  Bool, true, false, not, ◌&&◌, [], ◌∷◌, Option, none, some, String, if◌then◌else◌, ◌==◌ as nat_eq,
}
use xreal_bsp_rgb_tool.Prelude.Int.{ℤ, pos, negsuc}
use xreal_bsp_rgb_tool.Prelude.Maps.{lookup}
use xreal_bsp_rgb_tool.Platform.{Text}
use xreal_bsp_rgb_tool.Workflow.{
  idle, checking_connection, agent_connecting, device_initializing, waiting_start_device_response,
  device_ready, recording_requested, failed, emergency_stop, Params, Payload, line, with_params,
  plain, active_agent_changed, active_agent_watchdog_state_changed,
  active_agent_device_info_changed, action_requested, Controller, init_agent, stop_all_agents,
  send_agent_command, set_watchdog_init_params, emergency_stop_action, same_state, emit, append_log,
  transition_to, cancel_watchdog_wait_timeout, set_one_click_succeeded, leave_flow,
  is_target_agent_selected, default_start_device_params, dispatch_agent_command, some_params,
}

unfoldable pub value_or {ℓ} : {A : Type ℓ} → Option A → A → A
value_or none d = d
value_or (some a) d = a

same_int : ℤ → ℤ → Bool
same_int (pos m) (pos n) = nat_eq m n
same_int (negsuc m) (negsuc n) = nat_eq m n
same_int _ _ = false

-- The cached values of the agent that is now active, each signalled if it changed.
unfoldable pub set_watchdog_state : String → Controller → Controller
unfolding emit
set_watchdog_state s c =
    if c.active_agent_watchdog_state == s
    then c
    else emit (active_agent_watchdog_state_changed s) (record c { active_agent_watchdog_state = s })

unfoldable pub set_device_info : String → String → ℤ → Controller → Controller
unfolding emit same_int
set_device_info fsn label id c =
    if c.active_agent_glasses_fsn == fsn
      && c.active_agent_glasses_product_label == label
      && same_int c.active_agent_glasses_product_id id
    then c
    else emit (active_agent_device_info_changed fsn label) (record c {
      active_agent_glasses_fsn = fsn;
      active_agent_glasses_product_label = label;
      active_agent_glasses_product_id = id;
    })

-- The first half of setActiveAgent: the old agent's flow ends.
unfoldable pub leave_agent : String → Controller → Controller
unfolding append_log transition_to cancel_watchdog_wait_timeout set_one_click_succeeded leave_flow
leave_agent name c =
    let c1 = set_one_click_succeeded false (
      cancel_watchdog_wait_timeout
        (record (leave_flow c) { one_click_start_device_params_override = [] })) in
    let c2 =
      append_log (line "当前主 agent 已切换为 %1" (name ∷ [])) (record c1 { active_agent = name }) in
    if same_state c2.state idle then c2 else transition_to idle (plain "主 agent 已切换，工作流状态已重置") c2

-- The second half: what is known of the new agent comes from the caches.
unfoldable pub load_agent : String → Controller → Controller
unfolding emit
load_agent name c =
    let c1 = set_watchdog_state (value_or (lookup name c.watchdog_states_by_agent) "") c in
    let c2 =
      set_device_info (value_or (lookup name c1.glasses_fsns_by_agent) "")
        (value_or (lookup name c1.glasses_product_labels_by_agent) "")
        (value_or (lookup name c1.glasses_product_ids_by_agent) (negsuc 0)) c1 in
    emit (active_agent_changed name) c2

unfoldable pub set_active_agent : String → Controller → Controller
set_active_agent name c = if c.active_agent == name then c else load_agent name (leave_agent name c)

unfoldable pub request_reset_workflow : Controller → Controller
unfolding leave_flow set_one_click_succeeded cancel_watchdog_wait_timeout append_log transition_to
request_reset_workflow c =
    let c1 = record (leave_flow c) { one_click_start_device_params_override = [] } in
    let c2 = cancel_watchdog_wait_timeout (set_one_click_succeeded false c1) in
    transition_to idle (plain "工作流已回到空闲态") (append_log (plain "手动重置工作流状态。") c2)

-- ensureValidAgentSelected: the test, and the log line of its failure.
unfoldable pub reject_agent : Controller → Controller
unfolding append_log
reject_agent c =
    if c.active_agent == ""
    then append_log (plain "当前没有选中主 agent。") c
    else append_log
        (line "当前选中的 agent 是 %1，不在受支持的 agent 列表中（glasses_bsp_node）。" (c.active_agent ∷ [])) c

unfoldable pub valid_agent_selected : Controller → Bool
unfolding is_target_agent_selected
valid_agent_selected c = not (c.active_agent == "") && is_target_agent_selected c

abbrev agent_payload : Controller → Option Params → Option String → Payload
agent_payload c params reason = record {
  agent_name = some c.active_agent;
  cmd_name = none;
  params = params;
  reason = reason;
}

-- agentLabel: the guard in front of its use makes the agent the BSP node.
unfoldable pub agent_label : Controller → String
unfolding is_target_agent_selected
agent_label c = if is_target_agent_selected c then "Glasses_bsp_node" else c.active_agent

-- startOneClick behind its guards.
unfoldable pub begin_one_click : Params → Params → Controller → Controller
unfolding cancel_watchdog_wait_timeout append_log emit transition_to agent_label
begin_one_click init_params start_params c =
    let c1 = cancel_watchdog_wait_timeout (record c {
      one_click_flow_active = true;
      one_click_start_device_dispatched = false;
      one_click_start_device_params_override = start_params;
    }) in
    let c2 : Controller = elim init_params [
      | [] ↦ c1
      | p ∷ ps ↦
          emit (action_requested set_watchdog_init_params (agent_payload c1 (some (p ∷ ps)) none))
            (append_log (with_params "本次 init_device 参数交由 watchdog 使用: %1" (p ∷ ps)) c1)
    ] in
    let c3 = append_log (line "开始一键启动 %1。" (agent_label c2 ∷ [])) c2 in
    let c4 = transition_to checking_connection (plain "检查主 agent 是否已选中") c3 in
    let c5 = transition_to agent_connecting (plain "已发出 Connect 请求") c4 in
    emit (action_requested init_agent (agent_payload c5 none none)) c5

unfoldable pub one_click_busy : Controller → Bool
one_click_busy c =
    c.one_click_flow_active
    && not (same_state c.state failed)
    && not (same_state c.state emergency_stop)
    && not (same_state c.state device_ready)

unfoldable pub start_one_click : Params → Params → Controller → Controller
unfolding append_log
start_one_click init_params start_params c =
    if not (valid_agent_selected c)
    then reject_agent c
    else if one_click_busy c
    then append_log (plain "一键启动仍在执行中，请等待当前流程完成。") c
    else if c.one_click_succeeded
    then append_log (plain "一键启动已完成，无需重复执行。") c
    else begin_one_click init_params start_params c

-- The slots that leave the one-click flow behind the agent test: `act` is the rest of the body.
abbrev guarded : (Controller → Controller) → Controller → Controller
guarded act c =
    if not (valid_agent_selected c)
    then reject_agent c
    else act (cancel_watchdog_wait_timeout (leave_flow c))

unfoldable pub request_connect : Controller → Controller
unfolding valid_agent_selected reject_agent cancel_watchdog_wait_timeout leave_flow transition_to
    emit
request_connect = guarded λ c.
    let c1 = transition_to agent_connecting (plain "已排队 Connect 动作") c in
    emit (action_requested init_agent (agent_payload c1 none none)) c1

unfoldable pub request_check : Controller → Controller
unfolding valid_agent_selected reject_agent cancel_watchdog_wait_timeout leave_flow append_log
    dispatch_agent_command
request_check = guarded λ c. dispatch_agent_command "check" [] (append_log (plain "已排队 check 请求") c)

unfoldable pub request_init_device : Controller → Controller
unfolding valid_agent_selected reject_agent cancel_watchdog_wait_timeout leave_flow transition_to
    dispatch_agent_command
request_init_device = guarded λ c.
    dispatch_agent_command "init_device" []
      (transition_to device_initializing (plain "已排队 init_device 请求") c)

unfoldable pub request_start_device : Controller → Controller
unfolding valid_agent_selected reject_agent cancel_watchdog_wait_timeout leave_flow transition_to
    dispatch_agent_command default_start_device_params
request_start_device = guarded λ c.
    dispatch_agent_command "start_device" default_start_device_params
      (transition_to waiting_start_device_response (plain "已排队 start_device 请求") c)

unfoldable pub request_start_record : Controller → Controller
unfolding valid_agent_selected reject_agent cancel_watchdog_wait_timeout leave_flow transition_to
    dispatch_agent_command
request_start_record = guarded λ c.
    dispatch_agent_command "start_record" []
      (transition_to recording_requested (plain "已排队 start_record 请求") c)

unfoldable pub request_stop_record : Controller → Controller
unfolding valid_agent_selected reject_agent cancel_watchdog_wait_timeout leave_flow transition_to
    dispatch_agent_command
request_stop_record = guarded λ c.
    dispatch_agent_command "stop_record" []
      (transition_to device_ready (plain "已排队 stop_record 请求") c)

unfoldable pub request_stop_all_agents : Controller → Controller
unfolding cancel_watchdog_wait_timeout leave_flow set_one_click_succeeded append_log emit
request_stop_all_agents c =
    let c1 = cancel_watchdog_wait_timeout (set_one_click_succeeded false (leave_flow c)) in
    emit
      (action_requested stop_all_agents
        (record { agent_name = none; cmd_name = none; params = none; reason = none }))
      (append_log (plain "已排队停止所有 Agent 请求。") c1)

unfoldable pub request_emergency_stop : Controller → Controller
unfolding cancel_watchdog_wait_timeout leave_flow set_one_click_succeeded append_log transition_to
    emit
request_emergency_stop c =
    if c.active_agent == ""
    then append_log (plain "未选择 agent，忽略 Emergency Stop。") c
    else let c1 = cancel_watchdog_wait_timeout (set_one_click_succeeded false (leave_flow c)) in
      let c2 = transition_to emergency_stop (plain "已排队 Emergency Stop") c1 in
      emit (action_requested emergency_stop_action (agent_payload c2 none (some "用户请求紧急停止"))) c2

-- The state that a command of requestExecuteCommand announces.
unfoldable pub announce_command : String → Controller → Controller
unfolding transition_to
announce_command cmd c =
    if cmd == "init_device"
    then transition_to device_initializing (plain "已排队 init_device 请求") c
    else if cmd == "start_device"
    then transition_to waiting_start_device_response (plain "已排队 start_device 请求") c
    else if cmd == "start_record"
    then transition_to recording_requested (plain "已排队 start_record 请求") c
    else if cmd == "stop_record"
    then transition_to device_ready (plain "已排队 stop_record 请求") c
    else c

-- requestExecuteCommand behind the trimming and its tests; setActiveAgent tests for a change itself.
unfoldable pub execute_trimmed : String → String → Params → Controller → Controller
unfolding cancel_watchdog_wait_timeout leave_flow append_log emit
execute_trimmed agent cmd params c =
    let c1 = if c.active_agent == agent then c else set_active_agent agent c in
    let c2 = cancel_watchdog_wait_timeout (leave_flow c1) in
    let c3 = if is_target_agent_selected c2 then announce_command cmd c2 else c2 in
    emit
      (action_requested send_agent_command (record {
        agent_name = some agent;
        cmd_name = some cmd;
        params = some_params params;
        reason = none;
      }))
      (append_log (line "执行命令: %1 - %2" (agent ∷ cmd ∷ [])) c3)

unfoldable pub request_execute_command : Text → String → String → Params → Controller → Controller
unfolding append_log
request_execute_command q agent cmd params c =
    if q.trimmed agent == ""
    then append_log (plain "未选择 Agent，忽略命令请求。") c
    else if q.trimmed cmd == ""
    then append_log (plain "命令名称为空，忽略执行。") c
    else execute_trimmed (q.trimmed agent) (q.trimmed cmd) params c
