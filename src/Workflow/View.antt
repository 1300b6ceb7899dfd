-- ===== src/Workflow/View.antt =====
-- The controller as far as the one-click flow goes: the selected agent, the state and the flags. Logs,
-- caches and what is shown are left out.
use text.Mathlib.Text.{◌==◌}
use xreal_bsp_rgb_tool.Prelude.{
  Bool, false, String, if◌then◌else◌, ◌≡◌, refl, arith, Bool-cases, inl, inr, ◌∙◌, eq_iff,
}
use xreal_bsp_rgb_tool.Prelude.Int.{ℤ}
use xreal_bsp_rgb_tool.Prelude.Maps.{lookup}
use xreal_bsp_rgb_tool.Workflow.{
  State, Controller, Params, LogLine, idle, append_log, transition_to, set_one_click_succeeded,
  dispatch_agent_command, same_state,
}
use xreal_bsp_rgb_tool.Workflow.Requests.{
  set_watchdog_state, set_device_info, set_active_agent, leave_agent, load_agent, value_or,
}

pub record View : Type 0 where
  pub agent : String
  pub watchdog : String
  pub state : State
  pub flow : Bool
  pub succeeded : Bool
  pub timer : Bool
  pub dispatched : Bool

abbrev pub view : Controller → View
view c = record {
  agent = c.active_agent;
  watchdog = c.active_agent_watchdog_state;
  state = c.state;
  flow = c.one_click_flow_active;
  succeeded = c.one_click_succeeded;
  timer = c.watchdog_wait_active;
  dispatched = c.one_click_start_device_dispatched;
}

pub view-append_log : (l : LogLine) (c : Controller) → view (append_log l c) ≡ view c
unfolding append_log
view-append_log l c = refl

pub view-transition_to :
    (s : State) (l : LogLine) (c : Controller)
    → view (transition_to s l c) ≡ (let v = view c in record v { state = s })
unfolding transition_to
view-transition_to s l c = refl

pub view-dispatch_agent_command :
    (cmd : String) (ps : Params) (c : Controller) → view (dispatch_agent_command cmd ps c) ≡ view c
unfolding dispatch_agent_command
view-dispatch_agent_command cmd ps c = ground arith

pub view-set_one_click_succeeded :
    (b : Bool) (c : Controller)
    → view (set_one_click_succeeded b c) ≡ (let v = view c in record v { succeeded = b })
unfolding set_one_click_succeeded
view-set_one_click_succeeded b c = ground arith

pub view-set_watchdog_state :
    (s : String) (c : Controller)
    → view (set_watchdog_state s c) ≡ (let v = view c in record v { watchdog = s })
unfolding set_watchdog_state
view-set_watchdog_state s c = ground (arith, eq_iff c.active_agent_watchdog_state s)

pub view-set_device_info :
    (fsn label : String) (id : ℤ) (c : Controller) → view (set_device_info fsn label id c) ≡ view c
unfolding set_device_info
view-set_device_info fsn label id c = ground arith

-- What selecting another agent leaves: nothing of the old agent's flow.
abbrev pub fresh_view : String → String → View
fresh_view name watchdog = record {
  agent = name;
  watchdog = watchdog;
  state = idle;
  flow = false;
  succeeded = false;
  timer = false;
  dispatched = false;
}

leave_agent-View :
    (name : String) (c : Controller)
    → (view (leave_agent name c) ≡ fresh_view name c.active_agent_watchdog_state)
      × ((leave_agent name c).watchdog_states_by_agent ≡ c.watchdog_states_by_agent)
unfolding leave_agent same_state
leave_agent-View name c = ground arith

view-load_agent :
    (name : String) (c : Controller)
    → view (load_agent name c) ≡ (
        let v = view c in
        record v { watchdog = value_or (lookup name c.watchdog_states_by_agent) "" })
unfolding load_agent
view-load_agent name c = view-set_device_info _ _ _ _ ∙ view-set_watchdog_state _ c

-- Selecting the agent that is selected changes nothing of the view; selecting another one ends the flow
-- in Idle, with every flag cleared, and takes over the watchdog state cached for the new agent.
pub view-set_active_agent :
    (name : String) (c : Controller)
    → view (set_active_agent name c) ≡ (
        if c.active_agent == name
        then view c
        else fresh_view name (value_or (lookup name c.watchdog_states_by_agent) ""))
unfolding set_active_agent
view-set_active_agent name c = elim (Bool-cases (c.active_agent == name)) [
  | inl e ↦ rw e
  | inr e ↦
      rw (e, view-load_agent name (leave_agent name c))
        (cc ((leave_agent-View name c).0, (leave_agent-View name c).1))
]

pub ruleset views = (
  view-append_log, view-transition_to, view-dispatch_agent_command, view-set_one_click_succeeded,
  view-set_watchdog_state, view-set_device_info, view-set_active_agent,
)
