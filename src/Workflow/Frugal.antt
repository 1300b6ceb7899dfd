-- ===== src/Workflow/Frugal.antt =====
-- What each slot adds to the start_device commands of the one-click flow: lemmas for OneClick.
use text.Mathlib.Text.{◌==◌}
use xreal_bsp_rgb_tool.Prelude.{
  ℕ, suc, ◌+◌, ◌≤◌, Bool, true, false, not, ◌&&◌, List, [], ◌∷◌, Option, none, some, String,
  if◌then◌else◌, ◌≡◌, arith,
}
use xreal_bsp_rgb_tool.Prelude.Int.{ℤ}
use xreal_bsp_rgb_tool.Platform.{Text}
use xreal_bsp_rgb_tool.Workflow.{
  Controller, Params, Signal, action_requested, watchdog_wait_timeout, LogLine, append_log,
  cancel_watchdog_wait_timeout, leave_flow, is_target_agent_selected, emit,
}
use xreal_bsp_rgb_tool.Workflow.Run.{
  Event, step, select_agent, one_click, reset, connect, check, init_device, start_device,
  start_record, stop_record, stop_all, emergency_stop, wait_timeout, execute, command_result,
  status_update,
}
use xreal_bsp_rgb_tool.Workflow.Requests.{
  set_device_info, set_watchdog_state, load_agent, leave_agent, set_active_agent,
  request_reset_workflow, start_one_click, request_connect, request_check, request_init_device,
  request_start_record, request_stop_record, request_stop_all_agents, request_emergency_stop,
  begin_one_click, reject_agent, announce_command, execute_trimmed, request_execute_command,
}
use xreal_bsp_rgb_tool.Workflow.Results.{
  CommandResult, handle_decoded, handle_init_result, handle_send_result, handle_stop_all_result,
  handle_emergency_result, finish_start, command_failed, command_succeeded, log_agents,
  log_none_named,
}
use xreal_bsp_rgb_tool.Prelude.{if_both, ◌||◌}
use xreal_bsp_rgb_tool.Workflow.{
  State, LogLine, plain, recording_requested, device_ready, transition_to, set_one_click_succeeded,
}
use xreal_bsp_rgb_tool.Workflow.Results.{init_device_returned}
use xreal_bsp_rgb_tool.Workflow.Cases.{react_cases, handle_send_cases, handle_decoded_cases}
use xreal_bsp_rgb_tool.Workflow.Status.{
  StatusUpdate, AgentEntry, handle_status, on_healthy, on_initializing, on_disconnected,
  absorb_status, note_summary, note_watchdog_state, cache_agents, cache_entries,
}

abbrev pub is_start : Option String → Bool
is_start none = false
is_start (some cmd) = cmd == "start_device"

-- The start_device commands among the signals.
abbrev pub starts : List Signal → ℕ
starts [] = 0
starts (action_requested action p ∷ rest) =
    if is_start p.cmd_name then suc (starts rest) else starts rest
starts (_ ∷ rest) = starts rest

-- A flow that has yet to send its start_device.
abbrev pub owed : Controller → ℕ
owed c = if c.one_click_flow_active && not c.one_click_start_device_dispatched then 1 else 0

abbrev pub spent : Controller → ℕ
spent c = starts c.emitted + owed c

start_one_click-spent :
    (p s : Params) (c : Controller) → spent (start_one_click p s c) ≤ spent c + 1
unfolding start_one_click begin_one_click reject_agent
start_one_click-spent [] s c = ground arith
start_one_click-spent (p ∷ ps) s c = ground arith

-- The other slots send no start_device of the flow's.
abbrev pub Frugal : Controller → Controller → Type 0
Frugal c d = spent d ≤ spent c

leave_agent-Frugal : (name : String) (c : Controller) → Frugal c (leave_agent name c)
unfolding leave_agent
leave_agent-Frugal name c = ground arith

set_watchdog_state-Frugal : (s : String) (c : Controller) → Frugal c (set_watchdog_state s c)
unfolding set_watchdog_state
set_watchdog_state-Frugal s c = ground arith

set_device_info-Frugal :
    (fsn label : String) (id : ℤ) (c : Controller) → Frugal c (set_device_info fsn label id c)
unfolding set_device_info
set_device_info-Frugal fsn label id c = ground arith

load_agent-Frugal : (name : String) (c : Controller) → Frugal c (load_agent name c)
unfolding load_agent
load_agent-Frugal name c =
    omega (arith, set_device_info-Frugal _ _ _ _, set_watchdog_state-Frugal _ c)

set_active_agent-Frugal : (name : String) (c : Controller) → Frugal c (set_active_agent name c)
unfolding set_active_agent
set_active_agent-Frugal name c =
    ground (arith, load_agent-Frugal name (leave_agent name c), leave_agent-Frugal name c)

request_reset_workflow-Frugal : (c : Controller) → Frugal c (request_reset_workflow c)
unfolding request_reset_workflow
request_reset_workflow-Frugal c = ground arith

request_connect-Frugal : (c : Controller) → Frugal c (request_connect c)
unfolding request_connect
request_connect-Frugal c = ground arith

request_check-Frugal : (c : Controller) → Frugal c (request_check c)
unfolding request_check
request_check-Frugal c = ground arith

request_init_device-Frugal : (c : Controller) → Frugal c (request_init_device c)
unfolding request_init_device
request_init_device-Frugal c = ground arith

request_start_record-Frugal : (c : Controller) → Frugal c (request_start_record c)
unfolding request_start_record
request_start_record-Frugal c = ground arith

request_stop_record-Frugal : (c : Controller) → Frugal c (request_stop_record c)
unfolding request_stop_record
request_stop_record-Frugal c = ground arith

request_stop_all_agents-Frugal : (c : Controller) → Frugal c (request_stop_all_agents c)
unfolding request_stop_all_agents
request_stop_all_agents-Frugal c = ground arith

request_emergency_stop-Frugal : (c : Controller) → Frugal c (request_emergency_stop c)
unfolding request_emergency_stop
request_emergency_stop-Frugal c = ground arith

watchdog_wait_timeout-Frugal : (c : Controller) → Frugal c (watchdog_wait_timeout c)
unfolding watchdog_wait_timeout
watchdog_wait_timeout-Frugal c = ground arith

handle_init_result-Frugal : (r : CommandResult) (c : Controller) → Frugal c (handle_init_result r c)
unfolding handle_init_result
handle_init_result-Frugal r c = ground arith

finish_start-Frugal : (l : LogLine) (c : Controller) → Frugal c (finish_start l c)
unfolding finish_start
finish_start-Frugal l c = ground arith

command_failed-Frugal :
    (q : Text) (r : CommandResult) (c : Controller) → Frugal c (command_failed q r c)
unfolding command_failed
command_failed-Frugal q r c = ground arith

init_device_returned-Frugal :
    (r : CommandResult) (c : Controller) → Frugal c (init_device_returned r c)
unfolding init_device_returned
init_device_returned-Frugal r c = ground arith

unset-Frugal :
    (b : Bool) (c : Controller) → Frugal c (if b then set_one_click_succeeded false c else c)
unfolding set_one_click_succeeded
unset-Frugal b c = ground arith

transition_to-Frugal :
    (s : State) (l : LogLine) (c d : Controller) → Frugal c d → Frugal c (transition_to s l d)
unfolding transition_to
transition_to-Frugal s l c d h = h

command_succeeded-Frugal : (r : CommandResult) (c : Controller) → Frugal c (command_succeeded r c)
unfolding command_succeeded
command_succeeded-Frugal r c =
    let b = r.cmd_name == "stop_device" || r.cmd_name == "release_device" in
    let d = if b then set_one_click_succeeded false c else c in
    if_both (Frugal c) (r.cmd_name == "init_device") (init_device_returned-Frugal r c) (
      if_both (Frugal c) (r.cmd_name == "start_device")
        (finish_start-Frugal (plain "设备已就绪，可以进入录制阶段") c)
        (if_both (Frugal c) (r.cmd_name == "start_record")
          (transition_to-Frugal recording_requested (plain "录制已启动") c d (unset-Frugal b c))
          (if_both (Frugal c) (r.cmd_name == "stop_record")
            (transition_to-Frugal device_ready (plain "录制已停止，设备仍保持就绪") c d (unset-Frugal b c))
            (unset-Frugal b c))))

handle_send_result-Frugal :
    (q : Text) (r : CommandResult) (c : Controller) → Frugal c (handle_send_result q r c)
unfolding append_log
handle_send_result-Frugal q r c =
    handle_send_cases (Frugal c) q r c (finish_start-Frugal _ _) (command_failed-Frugal q r _)
      (command_succeeded-Frugal r _)

log_agents-Frugal :
    (s : String) (names : List String) (c : Controller) → Frugal c (log_agents s names c)
unfolding log_agents
log_agents-Frugal s [] c = omega arith
log_agents-Frugal s (a ∷ rest) c = ground arith

log_none_named-Frugal : (xs ys : List String) (c : Controller) → Frugal c (log_none_named xs ys c)
unfolding log_none_named
log_none_named-Frugal [] [] c = ground arith
log_none_named-Frugal [] (y ∷ ys) c = omega arith
log_none_named-Frugal (x ∷ xs) ys c = omega arith

handle_stop_all_result-Frugal :
    (r : CommandResult) (c : Controller) → Frugal c (handle_stop_all_result r c)
unfolding handle_stop_all_result
handle_stop_all_result-Frugal r c =
    let stopped = log_agents "已停止: %1" r.stopped c in
    let both = log_agents "停止失败: %1" r.failed stopped in
    ground (
      arith,
      log_agents-Frugal "已停止: %1" r.stopped c,
      log_agents-Frugal "停止失败: %1" r.failed stopped,
      log_none_named-Frugal r.stopped r.failed both,
    )

handle_emergency_result-Frugal : (c : Controller) → Frugal c (handle_emergency_result c)
unfolding handle_emergency_result
handle_emergency_result-Frugal c = ground arith

handle_decoded-Frugal :
    (q : Text) (r : CommandResult) (c : Controller) → Frugal c (handle_decoded q r c)
handle_decoded-Frugal q r c =
    handle_decoded_cases (Frugal c) q r c (omega arith) (handle_init_result-Frugal r c)
      (handle_send_result-Frugal q r c) (handle_stop_all_result-Frugal r c)
      (handle_emergency_result-Frugal c)

cache_entries-Frugal :
    (es : List (String × AgentEntry)) (c : Controller) → Frugal c (cache_entries es c)
unfolding cache_entries
cache_entries-Frugal [] c = omega arith
cache_entries-Frugal ((name, e) ∷ es) c = omega (arith, cache_entries-Frugal es _)

cache_agents-Frugal :
    (es : Option (List (String × AgentEntry))) (c : Controller) → Frugal c (cache_agents es c)
unfolding cache_agents
cache_agents-Frugal none c = omega arith
cache_agents-Frugal (some es) c = cache_entries-Frugal es _

note_summary-Frugal : (s : String) (c : Controller) → Frugal c (note_summary s c)
unfolding note_summary
note_summary-Frugal s c = ground arith

note_watchdog_state-Frugal : (s : String) (c : Controller) → Frugal c (note_watchdog_state s c)
unfolding note_watchdog_state
note_watchdog_state-Frugal s c = ground arith

absorb_status-Frugal : (u : StatusUpdate) (c : Controller) → Frugal c (absorb_status u c)
unfolding absorb_status
absorb_status-Frugal u c = omega (
  arith,
  note_watchdog_state-Frugal _ _,
  set_device_info-Frugal _ _ _ _,
  cache_agents-Frugal u.agents _,
  note_summary-Frugal u.summary c,
)

on_healthy-Frugal : (c : Controller) → Frugal c (on_healthy c)
unfolding on_healthy
on_healthy-Frugal c = ground arith

on_initializing-Frugal : (c : Controller) → Frugal c (on_initializing c)
unfolding on_initializing
on_initializing-Frugal c = ground arith

on_disconnected-Frugal : (c : Controller) → Frugal c (on_disconnected c)
unfolding on_disconnected
on_disconnected-Frugal c = ground arith

handle_status-Frugal : (u : StatusUpdate) (c : Controller) → Frugal c (handle_status u c)
unfolding handle_status
handle_status-Frugal u c =
    let d = absorb_status u c in
    omega (
      arith,
      react_cases (Frugal d) _ d (on_healthy-Frugal d) (on_initializing-Frugal d)
          (on_disconnected-Frugal d) (omega arith),
      absorb_status-Frugal u c,
    )

-- The user's own start_device: the button, and the command that is typed in.
abbrev pub asks_start : Text → Event → Bool
asks_start q start_device = true
asks_start q (execute agent cmd params) = q.trimmed cmd == "start_device"
asks_start q _ = false

announce_command-Frugal : (cmd : String) (c : Controller) → Frugal c (announce_command cmd c)
unfolding announce_command
announce_command-Frugal cmd c = ground arith

left-Frugal : (c : Controller) → Frugal c (cancel_watchdog_wait_timeout (leave_flow c))
unfolding cancel_watchdog_wait_timeout leave_flow
left-Frugal c = ground arith

execute_trimmed-Frugal :
    (agent cmd : String) (params : Params) (c : Controller)
    → (cmd == "start_device") ≡ false
    → Frugal c (execute_trimmed agent cmd params c)
unfolding execute_trimmed emit append_log
execute_trimmed-Frugal agent cmd params c h =
    let c1 : Controller = if c.active_agent == agent then c else set_active_agent agent c in
    let c2 = cancel_watchdog_wait_timeout (leave_flow c1) in
    let c3 : Controller = if is_target_agent_selected c2 then announce_command cmd c2 else c2 in
    let f1 : Frugal c c1 =
      if_both (Frugal c) (c.active_agent == agent) (omega arith)
        (set_active_agent-Frugal agent c) in
    let f3 : Frugal c2 c3 =
      if_both (Frugal c2) (is_target_agent_selected c2) (announce_command-Frugal cmd c2)
        (omega arith) in
    ground (arith, h, f1, left-Frugal c1, f3)

request_execute_command-Frugal :
    (q : Text) (agent cmd : String) (params : Params) (c : Controller)
    → (q.trimmed cmd == "start_device") ≡ false
    → Frugal c (request_execute_command q agent cmd params c)
unfolding request_execute_command append_log
request_execute_command-Frugal q agent cmd params c h =
    if_both (Frugal c) (q.trimmed agent == "") (ground arith) (
      if_both (Frugal c) (q.trimmed cmd == "") (ground arith)
        (execute_trimmed-Frugal (q.trimmed agent) (q.trimmed cmd) params c h))

abbrev pub one_clicks : List Event → ℕ
one_clicks [] = 0
one_clicks (one_click p s ∷ es) = suc (one_clicks es)
one_clicks (_ ∷ es) = one_clicks es

pub step-spent :
    (q : Text) (c : Controller) (e : Event)
    → asks_start q e ≡ false
    → spent (step q c e) ≤ spent c + one_clicks (e ∷ [])
unfolding step
step-spent q c (select_agent name) h = omega (arith, set_active_agent-Frugal name c)
step-spent q c (one_click p s) h = omega (arith, start_one_click-spent p s c)
step-spent q c reset h = omega (arith, request_reset_workflow-Frugal c)
step-spent q c connect h = omega (arith, request_connect-Frugal c)
step-spent q c check h = omega (arith, request_check-Frugal c)
step-spent q c init_device h = omega (arith, request_init_device-Frugal c)
step-spent q c start_device h = cc
step-spent q c start_record h = omega (arith, request_start_record-Frugal c)
step-spent q c stop_record h = omega (arith, request_stop_record-Frugal c)
step-spent q c stop_all h = omega (arith, request_stop_all_agents-Frugal c)
step-spent q c emergency_stop h = omega (arith, request_emergency_stop-Frugal c)
step-spent q c wait_timeout h = omega (arith, watchdog_wait_timeout-Frugal c)
step-spent q c (execute agent cmd params) h =
    omega (arith, request_execute_command-Frugal q agent cmd params c h)
step-spent q c (command_result r) h = omega (arith, handle_decoded-Frugal q r c)
step-spent q c (status_update u) h = omega (arith, handle_status-Frugal u c)
