-- ===== src/Workflow/OneClick.antt =====
-- How often a one-click flow sends start_device, and how it ends.
use text.Mathlib.Text.{◌==◌}
use xreal_bsp_rgb_tool.Prelude.{
  ◌+◌, ◌≤◌, Bool, true, false, not, ◌&&◌, List, [], ◌∷◌, String, if◌then◌else◌, ◌≡◌, arith, ap, ◌∙◌,
}
use xreal_bsp_rgb_tool.Platform.{Text}
use xreal_bsp_rgb_tool.Workflow.{
  Controller, Params, Payload, one_click_start_device_params, initial, same_state, device_ready,
  device_initializing, waiting_watchdog, agent_connecting, init_agent, send_agent_command,
}
use xreal_bsp_rgb_tool.Workflow.Run.{Event, step, run, one_click, command_result, status_update}
use xreal_bsp_rgb_tool.Workflow.StatusView.{sent_view, view-handle_status_healthy}
use xreal_bsp_rgb_tool.Workflow.Requests.{
  start_one_click, begin_one_click, one_click_busy, valid_agent_selected, reject_agent,
}
use xreal_bsp_rgb_tool.Workflow.Results.{
  CommandResult, handle_decoded, handle_init_result, handle_send_result, finish_start,
  command_succeeded,
}
use xreal_bsp_rgb_tool.Workflow.Status.{StatusUpdate, handle_status, agent_watchdog_state}
use xreal_bsp_rgb_tool.Workflow.Frugal.{starts, spent, asks_start, one_clicks, step-spent}
use xreal_bsp_rgb_tool.Workflow.View.{View, view}
use xreal_bsp_rgb_tool.Workflow.Actions.{
  actions, out, connect_payload, init_params_sent, start_payload, out-start_one_click,
  out-handle_status_healthy,
}

-- No event of the list asks for start_device by itself.
abbrev pub NoneAsks : Text → List Event → Type 0
NoneAsks q [] = Unit {0}
NoneAsks q (e ∷ es) = (asks_start q e ≡ false) × NoneAsks q es

run-spent :
    (q : Text) (c : Controller) (es : List Event)
    → NoneAsks q es
    → spent (run q c es) ≤ spent c + one_clicks es
unfolding run
run-spent q c [] h = omega arith
run-spent q c (e ∷ es) h = ground (arith, run-spent q (step q c e) es h.1, step-spent q c e h.0)

-- In every history of a new controller in which the user neither presses the button of start_device nor
-- types that command, it is sent at most once for each press of the one-click button, whatever other
-- commands are typed and whatever replies and statuses come between.
pub starts-run :
    (q : Text) (es : List Event) → NoneAsks q es → starts (run q initial es).emitted ≤ one_clicks es
unfolding initial
starts-run q es h = omega (arith, run-spent q initial es h)

abbrev pub begun_view : Controller → View
begun_view c =
    let v = view c in
    record v { state = agent_connecting; flow = true; timer = false; dispatched = false }

-- A press of the one-click button starts the flow, in AgentConnecting with no timer and nothing sent to
-- the device, exactly if the agent is valid, no flow is busy and none has succeeded; otherwise no flag,
-- state or agent changes.
pub view-start_one_click :
    (p s : Params) (c : Controller)
    → view (start_one_click p s c) ≡ (
        if valid_agent_selected c && not (one_click_busy c) && not c.one_click_succeeded
        then begun_view c
        else view c)
unfolding start_one_click begin_one_click reject_agent
view-start_one_click [] s c = ground arith
view-start_one_click (p ∷ ps) s c = ground arith

-- A reply to an action of the manager.
abbrev pub reply : String → String → Bool → String → Bool → CommandResult
reply action cmd success message background = record {
  action = action;
  cmd_name = cmd;
  success = success;
  message = message;
  background = background;
  stopped = [];
  failed = [];
}

-- Connect has succeeded inside a flow, and the watchdog is not done with the device.
abbrev waiting_view : Controller → View
waiting_view c = record {
  agent = c.active_agent;
  watchdog = c.active_agent_watchdog_state;
  state =
      if c.active_agent_watchdog_state == "initializing"
      then device_initializing
      else waiting_watchdog;
  flow = true;
  succeeded = c.one_click_succeeded;
  timer = true;
  dispatched = c.one_click_start_device_dispatched;
}

connected :
    (q : Text) (cmd message : String) (background : Bool) (c : Controller)
    → c.one_click_flow_active ≡ true
    → (c.active_agent_watchdog_state == "healthy") ≡ false
    → view (handle_decoded q (reply init_agent cmd true message background) c) ≡ waiting_view c
unfolding handle_decoded handle_init_result
connected q cmd message background c f w = ground arith

out-connected :
    (q : Text) (cmd message : String) (background : Bool) (c : Controller)
    → c.one_click_flow_active ≡ true
    → (c.active_agent_watchdog_state == "healthy") ≡ false
    → out (handle_decoded q (reply init_agent cmd true message background) c) ≡ out c
unfolding handle_decoded handle_init_result
out-connected q cmd message background c f w = ground arith

-- start_device has succeeded inside a flow.
abbrev pub ready_view : String → String → View
ready_view agent watchdog = record {
  agent = agent;
  watchdog = watchdog;
  state = device_ready;
  flow = false;
  succeeded = true;
  timer = false;
  dispatched = false;
}

started :
    (q : Text) (message : String) (background : Bool) (c : Controller)
    → c.one_click_flow_active ≡ true
    → view (handle_decoded q (reply send_agent_command "start_device" true message background) c)
      ≡ ready_view c.active_agent c.active_agent_watchdog_state
unfolding handle_decoded handle_send_result finish_start command_succeeded
started q message background c f = ground arith

-- The parameters of the flow's start_device: those of the button over the default ones.
abbrev pub start_device_params : Params → Controller → Params
start_device_params s c =
    one_click_start_device_params (record c { one_click_start_device_params_override = s })

-- The one-click flow from the button to the running device: the agent is selected, no flow is busy or
-- done, Connect succeeds before the watchdog is healthy, then the watchdog reports the agent healthy,
-- and start_device succeeds. Up to the reply to Connect the controller has sent Connect, behind the
-- parameters for init_device if there are any; the healthy status makes it send start_device to the agent,
-- once, with the parameters of the button over the default ones; and after the last reply it is ready,
-- with the flow closed and its timer stopped.
pub one_click_completes :
    (q : Text) (c : Controller) (p s : Params) (u : StatusUpdate) (cmd m1 m2 : String)
    (b1 b2 : Bool)
    → valid_agent_selected c ≡ true
    → one_click_busy c ≡ false
    → c.one_click_succeeded ≡ false
    → (c.active_agent_watchdog_state == "healthy") ≡ false
    → agent_watchdog_state u.agents c.active_agent ≡ "healthy"
    → (actions
          (run q c (one_click p s ∷ command_result (reply init_agent cmd true m1 b1) ∷ [])).emitted
        ≡ (init_agent, connect_payload c.active_agent)
          ∷ init_params_sent c.active_agent p (actions c.emitted))
      × (actions
            (run q c (
              one_click p s
              ∷ command_result (reply init_agent cmd true m1 b1)
              ∷ status_update u
              ∷ [])).emitted
          ≡ (send_agent_command, start_payload c.active_agent (start_device_params s c))
            ∷ (init_agent, connect_payload c.active_agent)
            ∷ init_params_sent c.active_agent p (actions c.emitted))
      × (view (
            run q c (
              one_click p s
              ∷ command_result (reply init_agent cmd true m1 b1)
              ∷ status_update u
              ∷ command_result (reply send_agent_command "start_device" true m2 b2)
              ∷ []))
          ≡ ready_view c.active_agent "healthy")
unfolding run step same_state one_click_start_device_params
one_click_completes q c p s u cmd m1 m2 b1 b2 valid free fresh w healthy = (
  ap (λ (o : List (String × Payload) × Params). o.0) o2,
  out-handle_status_healthy u c2
        (ap (agent_watchdog_state u.agents) (ground (arith, e1, e2)) ∙ healthy) (ground (arith, e2))
        (ground (arith, e1, e2)) (ground (arith, e2))
      ∙ ground (arith, o2, e1, e2),
  started q m2 b2 c3 (ap (λ (v : View). v.flow) e3) ∙ ground (arith, e1, e2, e3),
)
  where
    c1 : Controller
    c1 = start_one_click p s c

    e1 : view c1 ≡ begun_view c
    e1 = view-start_one_click p s c ∙ rw (valid, free, fresh)

    c2 : Controller
    c2 = handle_decoded q (reply init_agent cmd true m1 b1) c1

    e2 : view c2 ≡ waiting_view c1
    e2 =
        connected q cmd m1 b1 c1 (ap (λ (v : View). v.flow) e1)
          (ap (λ (v : View). v.watchdog == "healthy") e1 ∙ w)

    c3 : Controller
    c3 = handle_status u c2

    e3 : view c3 ≡ sent_view c2
    e3 =
        view-handle_status_healthy u c2
          (ap (agent_watchdog_state u.agents) (ground (arith, e1, e2)) ∙ healthy)
          (ground (arith, e2)) (ground (arith, e1, e2)) (ground (arith, e2))

    o2 : out c2 ≡ (
      (init_agent, connect_payload c.active_agent)
          ∷ init_params_sent c.active_agent p (actions c.emitted),
      s,
    )
    o2 =
        out-connected q cmd m1 b1 c1 (ap (λ (v : View). v.flow) e1)
          (ap (λ (v : View). v.watchdog == "healthy") e1 ∙ w)
        ∙ out-start_one_click p s c valid free fresh
