-- ===== src/Workflow/Invariant.antt =====
-- What every slot keeps: the flags of the one-click flow belong together.
use xreal_bsp_rgb_tool.Prelude.{true, List, [], ◌∷◌, Option, none, some, String, ◌≡◌, arith}
use xreal_bsp_rgb_tool.Prelude.Int.{ℤ}
use xreal_bsp_rgb_tool.Platform.{Text}
use xreal_bsp_rgb_tool.Workflow.{
  Controller, Params, initial, watchdog_wait_timeout, LogLine, append_log, line,
}
use xreal_bsp_rgb_tool.Workflow.View.{view, view-set_active_agent, view-set_device_info}
use xreal_bsp_rgb_tool.Workflow.Run.{
  Event, step, run, select_agent, one_click, reset, connect, check, init_device, start_device,
  start_record, stop_record, stop_all, emergency_stop, wait_timeout, execute, command_result,
  status_update,
}
use xreal_bsp_rgb_tool.Workflow.Requests.{
  set_device_info, set_active_agent, request_reset_workflow, start_one_click, request_connect,
  request_check, request_init_device, request_start_device, request_start_record,
  request_stop_record, request_stop_all_agents, request_execute_command, request_emergency_stop,
  begin_one_click, reject_agent, execute_trimmed, announce_command,
}
use xreal_bsp_rgb_tool.Workflow.Results.{
  CommandResult, handle_decoded, handle_init_result, handle_send_result, handle_stop_all_result,
  handle_emergency_result, outcome_text, message_text, finish_start, command_failed,
  command_succeeded, log_agents, log_none_named,
}
use xreal_bsp_rgb_tool.Workflow.Cases.{react_cases, handle_send_cases, handle_decoded_cases}
use xreal_bsp_rgb_tool.Workflow.Status.{
  StatusUpdate, AgentEntry, handle_status, on_healthy, on_initializing, on_disconnected,
  absorb_status, note_summary, note_watchdog_state, cache_agents, cache_entries,
}

-- The wait timer runs, and start_device counts as sent, only inside a one-click flow.
pub record Inv (c : Controller) : Type 0 where
  pub timer : c.watchdog_wait_active ≡ true → c.one_click_flow_active ≡ true
  pub dispatched : c.one_click_start_device_dispatched ≡ true → c.one_click_flow_active ≡ true

-- Slots that change nothing of the view keep the invariant.
view-Inv : (c d : Controller) → view d ≡ view c → Inv c → Inv d
view-Inv c d e v = ground arith

set_active_agent-Inv : (name : String) (c : Controller) → Inv c → Inv (set_active_agent name c)
set_active_agent-Inv name c v = ground (arith, view-set_active_agent name c)

start_one_click-Inv : (p s : Params) (c : Controller) → Inv c → Inv (start_one_click p s c)
unfolding start_one_click begin_one_click reject_agent
start_one_click-Inv [] s c v = ground arith
start_one_click-Inv (p ∷ ps) s c v = ground arith

request_reset_workflow-Inv : (c : Controller) → Inv c → Inv (request_reset_workflow c)
unfolding request_reset_workflow
request_reset_workflow-Inv c v = ground arith

request_connect-Inv : (c : Controller) → Inv c → Inv (request_connect c)
unfolding request_connect
request_connect-Inv c v = ground arith

request_check-Inv : (c : Controller) → Inv c → Inv (request_check c)
unfolding request_check
request_check-Inv c v = ground arith

request_init_device-Inv : (c : Controller) → Inv c → Inv (request_init_device c)
unfolding request_init_device
request_init_device-Inv c v = ground arith

request_start_device-Inv : (c : Controller) → Inv c → Inv (request_start_device c)
unfolding request_start_device
request_start_device-Inv c v = ground arith

request_start_record-Inv : (c : Controller) → Inv c → Inv (request_start_record c)
unfolding request_start_record
request_start_record-Inv c v = ground arith

request_stop_record-Inv : (c : Controller) → Inv c → Inv (request_stop_record c)
unfolding request_stop_record
request_stop_record-Inv c v = ground arith

request_stop_all_agents-Inv : (c : Controller) → Inv c → Inv (request_stop_all_agents c)
unfolding request_stop_all_agents
request_stop_all_agents-Inv c v = ground arith

request_emergency_stop-Inv : (c : Controller) → Inv c → Inv (request_emergency_stop c)
unfolding request_emergency_stop
request_emergency_stop-Inv c v = ground arith

execute_trimmed-Inv :
    (agent cmd : String) (ps : Params) (c : Controller) → Inv (execute_trimmed agent cmd ps c)
unfolding execute_trimmed announce_command
execute_trimmed-Inv agent cmd ps c = ground arith

request_execute_command-Inv :
    (q : Text) (agent cmd : String) (ps : Params) (c : Controller)
    → Inv c
    → Inv (request_execute_command q agent cmd ps c)
unfolding request_execute_command
request_execute_command-Inv q agent cmd ps c v =
    ground (arith, execute_trimmed-Inv (q.trimmed agent) (q.trimmed cmd) ps c)

watchdog_wait_timeout-Inv : (c : Controller) → Inv c → Inv (watchdog_wait_timeout c)
unfolding watchdog_wait_timeout
watchdog_wait_timeout-Inv c v = ground arith

handle_init_result-Inv : (r : CommandResult) (c : Controller) → Inv c → Inv (handle_init_result r c)
unfolding handle_init_result
handle_init_result-Inv r c v = ground arith

finish_start-Inv : (l : LogLine) (c : Controller) → Inv (finish_start l c)
unfolding finish_start
finish_start-Inv l c = ground arith

command_failed-Inv :
    (q : Text) (r : CommandResult) (c : Controller) → Inv c → Inv (command_failed q r c)
unfolding command_failed
command_failed-Inv q r c v = ground arith

command_succeeded-Inv : (r : CommandResult) (c : Controller) → Inv c → Inv (command_succeeded r c)
unfolding command_succeeded
command_succeeded-Inv r c v = ground arith

handle_send_result-Inv :
    (q : Text) (r : CommandResult) (c : Controller) → Inv c → Inv (handle_send_result q r c)
unfolding append_log
handle_send_result-Inv q r c v =
    handle_send_cases Inv q r c (finish_start-Inv _ _) (command_failed-Inv q r _ logged)
      (command_succeeded-Inv r _ logged)
  where
    logged : Inv (
        append_log
          (line "%1 %2: %3" (r.cmd_name ∷ outcome_text r.success ∷ message_text r.message ∷ []))
          c)
    logged = record { timer = v.timer; dispatched = v.dispatched }

handle_emergency_result-Inv : (c : Controller) → Inv (handle_emergency_result c)
unfolding handle_emergency_result
handle_emergency_result-Inv c = ground arith

log_agents-Inv :
    (s : String) (names : List String) (c : Controller) → Inv c → Inv (log_agents s names c)
unfolding log_agents
log_agents-Inv s [] c v = v
log_agents-Inv s (a ∷ rest) c v = ground arith

log_none_named-Inv : (xs ys : List String) (c : Controller) → Inv c → Inv (log_none_named xs ys c)
unfolding log_none_named
log_none_named-Inv [] [] c v = ground arith
log_none_named-Inv [] (y ∷ ys) c v = v
log_none_named-Inv (x ∷ xs) ys c v = v

handle_stop_all_result-Inv :
    (r : CommandResult) (c : Controller) → Inv c → Inv (handle_stop_all_result r c)
unfolding handle_stop_all_result
handle_stop_all_result-Inv r c v =
    let w =
      log_none_named-Inv r.stopped r.failed _
        (log_agents-Inv "停止失败: %1" r.failed _ (log_agents-Inv "已停止: %1" r.stopped c v)) in
    ground arith

handle_decoded-Inv :
    (q : Text) (r : CommandResult) (c : Controller) → Inv c → Inv (handle_decoded q r c)
handle_decoded-Inv q r c v =
    handle_decoded_cases Inv q r c v (handle_init_result-Inv r c v) (handle_send_result-Inv q r c v)
      (handle_stop_all_result-Inv r c v) (handle_emergency_result-Inv c)

cache_entries-Inv :
    (es : List (String × AgentEntry)) (c : Controller) → Inv c → Inv (cache_entries es c)
unfolding cache_entries
cache_entries-Inv [] c v = v
cache_entries-Inv ((name, e) ∷ es) c v =
    cache_entries-Inv es _ (record { timer = v.timer; dispatched = v.dispatched })

cache_agents-Inv :
    (es : Option (List (String × AgentEntry))) (c : Controller) → Inv c → Inv (cache_agents es c)
unfolding cache_agents
cache_agents-Inv none c v = v
cache_agents-Inv (some es) c v =
    cache_entries-Inv es _ (record { timer = v.timer; dispatched = v.dispatched })

note_summary-Inv : (s : String) (c : Controller) → Inv c → Inv (note_summary s c)
unfolding note_summary
note_summary-Inv s c v = ground arith

note_watchdog_state-Inv : (s : String) (c : Controller) → Inv c → Inv (note_watchdog_state s c)
unfolding note_watchdog_state
note_watchdog_state-Inv s c v = ground arith

set_device_info-Inv :
    (fsn label : String) (id : ℤ) (c : Controller) → Inv c → Inv (set_device_info fsn label id c)
set_device_info-Inv fsn label id c v = ground (arith, view-set_device_info fsn label id c)

absorb_status-Inv : (u : StatusUpdate) (c : Controller) → Inv c → Inv (absorb_status u c)
unfolding absorb_status
absorb_status-Inv u c v =
    note_watchdog_state-Inv _ _
      (set_device_info-Inv _ _ _ _ (cache_agents-Inv u.agents _ (note_summary-Inv u.summary c v)))

on_healthy-Inv : (c : Controller) → Inv c → Inv (on_healthy c)
unfolding on_healthy
on_healthy-Inv c v = ground arith

on_initializing-Inv : (c : Controller) → Inv c → Inv (on_initializing c)
unfolding on_initializing
on_initializing-Inv c v = ground arith

on_disconnected-Inv : (c : Controller) → Inv c → Inv (on_disconnected c)
unfolding on_disconnected
on_disconnected-Inv c v = ground arith

handle_status-Inv : (u : StatusUpdate) (c : Controller) → Inv c → Inv (handle_status u c)
unfolding handle_status
handle_status-Inv u c v =
    let w = absorb_status-Inv u c v in
    react_cases Inv _ _ (on_healthy-Inv _ w) (on_initializing-Inv _ w) (on_disconnected-Inv _ w) w

-- Every slot, every reply, every status and the timer keep the flags together.
pub step-Inv : (q : Text) (c : Controller) (e : Event) → Inv c → Inv (step q c e)
unfolding step
step-Inv q c (select_agent name) v = set_active_agent-Inv name c v
step-Inv q c (one_click p s) v = start_one_click-Inv p s c v
step-Inv q c reset v = request_reset_workflow-Inv c v
step-Inv q c connect v = request_connect-Inv c v
step-Inv q c check v = request_check-Inv c v
step-Inv q c init_device v = request_init_device-Inv c v
step-Inv q c start_device v = request_start_device-Inv c v
step-Inv q c start_record v = request_start_record-Inv c v
step-Inv q c stop_record v = request_stop_record-Inv c v
step-Inv q c stop_all v = request_stop_all_agents-Inv c v
step-Inv q c emergency_stop v = request_emergency_stop-Inv c v
step-Inv q c wait_timeout v = watchdog_wait_timeout-Inv c v
step-Inv q c (execute agent cmd params) v = request_execute_command-Inv q agent cmd params c v
step-Inv q c (command_result r) v = handle_decoded-Inv q r c v
step-Inv q c (status_update u) v = handle_status-Inv u c v

run-Inv : (q : Text) (c : Controller) (es : List Event) → Inv c → Inv (run q c es)
unfolding run
run-Inv q c [] v = v
run-Inv q c (e ∷ es) v = run-Inv q (step q c e) es (step-Inv q c e v)

-- In every history of a new controller, whatever events come in which order, the wait timer runs, and
-- start_device counts as sent, only while a one-click flow is under way.
pub run-initial-Inv : (q : Text) (es : List Event) → Inv (run q initial es)
unfolding initial
run-initial-Inv q es = run-Inv q initial es (ground arith)
