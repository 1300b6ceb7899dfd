-- ===== src/Workflow/Actions.antt =====
-- The actions that the controller of src/workflow/workflow_controller.cpp sends to the manager, and what
-- the parts of the one-click flow add to them.
use xreal_bsp_rgb_tool.Prelude.{
  true, false, ◌||◌, List, [], ◌∷◌, Option, none, some, String, ◌≡◌, refl, arith, ◌∙◌,
}
use xreal_bsp_rgb_tool.Prelude.Int.{ℤ}
use xreal_bsp_rgb_tool.Workflow.{
  Controller, Params, Payload, Signal, action_requested, same_state, device_initializing,
  waiting_watchdog, init_agent, send_agent_command, set_watchdog_init_params, some_params,
  one_click_start_device_params,
}
use xreal_bsp_rgb_tool.Workflow.Requests.{
  set_device_info, start_one_click, begin_one_click, one_click_busy, valid_agent_selected,
}
use xreal_bsp_rgb_tool.Workflow.Status.{
  StatusUpdate, AgentEntry, handle_status, agent_watchdog_state, on_healthy, react, absorb_status,
  cache_agents, cache_entries, note_summary, note_watchdog_state,
}
use xreal_bsp_rgb_tool.Workflow.View.{view}
use xreal_bsp_rgb_tool.Workflow.StatusView.{view-absorb_status}

-- The actions that went out, newest first.
abbrev pub actions : List Signal → List (String × Payload)
actions [] = []
actions (action_requested a p ∷ rest) = (a, p) ∷ actions rest
actions (_ ∷ rest) = actions rest

-- The actions so far, and the parameters that the flow keeps for its start_device.
abbrev pub out : Controller → List (String × Payload) × Params
out c = (actions c.emitted, c.one_click_start_device_params_override)

-- Connect of the agent, and the parameters of its init_device in front of it, if there are any.
abbrev pub connect_payload : String → Payload
connect_payload agent = record {
  agent_name = some agent;
  cmd_name = none;
  params = none;
  reason = none;
}

abbrev pub init_params_sent : String → Params → List (String × Payload) → List (String × Payload)
init_params_sent agent [] rest = rest
init_params_sent agent (p ∷ ps) rest =
    (
      set_watchdog_init_params,
      record { agent_name = some agent; cmd_name = none; params = some (p ∷ ps); reason = none },
    )
    ∷ rest

-- The flow's start_device of an agent, with the parameters that are to override the default ones.
abbrev pub start_payload : String → Params → Payload
start_payload agent params = record {
  agent_name = some agent;
  cmd_name = some "start_device";
  params = some_params params;
  reason = none;
}

pub out-start_one_click :
    (p s : Params) (c : Controller)
    → valid_agent_selected c ≡ true
    → one_click_busy c ≡ false
    → c.one_click_succeeded ≡ false
    → out (start_one_click p s c) ≡ (
      (init_agent, connect_payload c.active_agent)
          ∷ init_params_sent c.active_agent p (actions c.emitted),
      s,
    )
unfolding start_one_click begin_one_click
out-start_one_click [] s c v b f = ground arith
out-start_one_click (p ∷ ps) s c v b f = ground arith

out-note_summary : (s : String) (c : Controller) → out (note_summary s c) ≡ out c
unfolding note_summary
out-note_summary s c = ground arith

out-note_watchdog_state : (s : String) (c : Controller) → out (note_watchdog_state s c) ≡ out c
unfolding note_watchdog_state
out-note_watchdog_state s c = ground arith

out-set_device_info :
    (fsn label : String) (id : ℤ) (c : Controller) → out (set_device_info fsn label id c) ≡ out c
unfolding set_device_info
out-set_device_info fsn label id c = ground arith

out-cache_entries :
    (es : List (String × AgentEntry)) (c : Controller) → out (cache_entries es c) ≡ out c
unfolding cache_entries
out-cache_entries [] c = refl
out-cache_entries ((name, e) ∷ es) c = out-cache_entries es _

out-cache_agents :
    (es : Option (List (String × AgentEntry))) (c : Controller) → out (cache_agents es c) ≡ out c
unfolding cache_agents
out-cache_agents none c = refl
out-cache_agents (some es) c = out-cache_entries es _

out-absorb_status : (u : StatusUpdate) (c : Controller) → out (absorb_status u c) ≡ out c
unfolding absorb_status
out-absorb_status u c =
    out-note_watchdog_state _ _
    ∙ out-set_device_info _ _ _ _
    ∙ out-cache_agents u.agents _
    ∙ out-note_summary u.summary c

-- A status that reports the active agent healthy, inside a flow that waits for it, sends start_device.
pub out-handle_status_healthy :
    (u : StatusUpdate) (c : Controller)
    → agent_watchdog_state u.agents c.active_agent ≡ "healthy"
    → c.one_click_flow_active ≡ true
    → c.one_click_start_device_dispatched ≡ false
    → (same_state c.state waiting_watchdog || same_state c.state device_initializing) ≡ true
    → actions (handle_status u c).emitted
      ≡ (send_agent_command, start_payload c.active_agent (one_click_start_device_params c))
        ∷ actions c.emitted
unfolding handle_status react on_healthy one_click_start_device_params
out-handle_status_healthy u c h f d s =
    rw h (healthy (absorb_status u c) (rw h at (view-absorb_status u c)) (out-absorb_status u c))
  where
    healthy :
        (k : Controller)
        → view k ≡ (let v = view c in record v { watchdog = "healthy" })
        → out k ≡ out c
        → actions (on_healthy k).emitted
          ≡ (send_agent_command, start_payload c.active_agent (one_click_start_device_params c))
            ∷ actions c.emitted
    healthy k e o = ground arith
