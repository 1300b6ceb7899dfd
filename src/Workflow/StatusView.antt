-- ===== src/Workflow/StatusView.antt =====
-- handleStatusUpdate as the view sees it.
use xreal_bsp_rgb_tool.Prelude.{
  true, false, ◌||◌, List, [], ◌∷◌, Option, none, some, String, ◌≡◌, arith, refl, eq_iff, ap, ◌∙◌,
}
use xreal_bsp_rgb_tool.Workflow.{
  Controller, same_state, waiting_start_device_response, device_initializing, waiting_watchdog,
}
use xreal_bsp_rgb_tool.Workflow.Status.{
  StatusUpdate, AgentEntry, handle_status, agent_watchdog_state, on_healthy, react, absorb_status,
  cache_agents, cache_entries, note_summary, note_watchdog_state,
}
use xreal_bsp_rgb_tool.Workflow.View.{View, view, view-set_device_info}

view-note_summary : (s : String) (c : Controller) → view (note_summary s c) ≡ view c
unfolding note_summary
view-note_summary s c = ground arith

view-note_watchdog_state :
    (s : String) (c : Controller)
    → view (note_watchdog_state s c) ≡ (let v = view c in record v { watchdog = s })
unfolding note_watchdog_state
view-note_watchdog_state s c = ground (arith, eq_iff c.active_agent_watchdog_state s)

view-cache_entries :
    (es : List (String × AgentEntry)) (c : Controller) → view (cache_entries es c) ≡ view c
unfolding cache_entries
view-cache_entries [] c = refl
view-cache_entries ((name, e) ∷ es) c = view-cache_entries es _

view-cache_agents :
    (es : Option (List (String × AgentEntry))) (c : Controller) → view (cache_agents es c) ≡ view c
unfolding cache_agents
view-cache_agents none c = refl
view-cache_agents (some es) c = view-cache_entries es _

-- Up to the point where it reacts, the status handler changes of the view only the watchdog state of the
-- active agent, which becomes the one that the snapshot gives.
pub view-absorb_status :
    (u : StatusUpdate) (c : Controller)
    → view (absorb_status u c)
      ≡ (let v = view c in record v { watchdog = agent_watchdog_state u.agents c.active_agent })
unfolding absorb_status
view-absorb_status u c =
    view-note_watchdog_state _ _
    ∙ ap (λ (v : View). record v { watchdog = agent_watchdog_state u.agents c.active_agent })
        (view-set_device_info _ _ _ _
          ∙ view-cache_agents u.agents _
          ∙ view-note_summary u.summary c)

abbrev pub sent_view : Controller → View
sent_view c = record {
  agent = c.active_agent;
  watchdog = "healthy";
  state = waiting_start_device_response;
  flow = true;
  succeeded = c.one_click_succeeded;
  timer = false;
  dispatched = true;
}

-- A status that reports the active agent healthy, inside a flow that waits for it.
pub view-handle_status_healthy :
    (u : StatusUpdate) (c : Controller)
    → agent_watchdog_state u.agents c.active_agent ≡ "healthy"
    → c.one_click_flow_active ≡ true
    → c.one_click_start_device_dispatched ≡ false
    → (same_state c.state waiting_watchdog || same_state c.state device_initializing) ≡ true
    → view (handle_status u c) ≡ sent_view c
unfolding handle_status react on_healthy
view-handle_status_healthy u c h f d s =
    rw h (healthy (absorb_status u c) (rw h at (view-absorb_status u c)))
  where
    healthy :
        (k : Controller)
        → view k ≡ (let v = view c in record v { watchdog = "healthy" })
        → view (on_healthy k) ≡ sent_view c
    healthy k e = ground arith
