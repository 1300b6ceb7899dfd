-- ===== src/Workflow/Status.antt =====
-- WorkflowController::handleStatusUpdate: the watchdog's snapshot. `decode_status` reads it; the other
-- functions are the parts of the handler.
use text.Mathlib.Text.{◌==◌}
use Prim.Native.String.{◌++◌}
use xreal_bsp_rgb_tool.Prelude.{
  false, not, ◌&&◌, ◌||◌, List, [], ◌∷◌, Option, none, some, String, if◌then◌else◌,
}
use xreal_bsp_rgb_tool.Prelude.Int.{ℤ, negsuc, positive}
use xreal_bsp_rgb_tool.Prelude.Maps.{lookup, insert}
use xreal_bsp_rgb_tool.Platform.{Text, JsonLib}
use xreal_bsp_rgb_tool.Workflow.{
  waiting_watchdog, device_initializing, agent_connecting, idle, device_ready, failed,
  emergency_stop, watchdog_summary_changed, active_agent_watchdog_state_changed, line, plain,
  Controller, same_state, append_log, transition_to, arm_watchdog_wait_timeout,
  cancel_watchdog_wait_timeout, set_one_click_succeeded, emit, dispatch_one_click_start_device,
}
use xreal_bsp_rgb_tool.Workflow.Requests.{set_device_info, value_or}
use xreal_bsp_rgb_tool.Workflow.Results.{json_string_value}

-- One agent of the snapshot.
pub record AgentEntry : Type 0 where
  pub state : Option String
  pub fsn : String
  pub product_label : String
  pub product_id : ℤ

-- `agents` is none where the snapshot holds no object of that name.
pub record StatusUpdate : Type 0 where
  pub summary : String
  pub agents : Option (List (String × AgentEntry))

module _ (q : Text) (J : JsonLib) where
  open J use {Json, find, as_string, as_int, as_object}

  -- jsonStringField
  pub json_string_field : Json → String → String
  json_string_field j key = elim (find key j) [
    | none ↦ ""
    | some v ↦ elim (as_string v) [
      | some s ↦ s
      | none ↦ elim (as_int v) [ some n ↦ q.number n | none ↦ "" ]
    ]
  ]

  -- agentProductLabel
  pub agent_product_label : Json → String
  unfolding json_string_field
  agent_product_label agent =
      let display = json_string_field agent "product_display_id" in
      let id = if display == "" then json_string_field agent "product_id" else display in
      let name = json_string_field agent "product_name" in
      let known = not (id == "") && not (id == "-1") in
      if known && not (name == "") then id ++ ("-" ++ name) else if known then id else name

  -- One turn of the loop over the agents.
  decode_entry : Json → AgentEntry
  unfolding json_string_field agent_product_label
  decode_entry v = record {
    state = elim (find "state" v) [ none ↦ none | some s ↦ as_string s ];
    fsn = json_string_field v "fsn";
    product_label = agent_product_label v;
    product_id = q.to_int (json_string_field v "product_id");
  }

  decode_entries : List (String × Json) → List (String × AgentEntry)
  decode_entries [] = []
  decode_entries ((name, v) ∷ rest) = (name, decode_entry v) ∷ decode_entries rest

  pub decode_status : Json → StatusUpdate
  unfolding decode_entries decode_entry
  decode_status j = record {
    summary = json_string_value J j "summary";
    agents = elim (find "agents" j) [
      | none ↦ none
      | some v ↦ elim (as_object v) [ none ↦ none | some es ↦ some (decode_entries es) ]
    ];
  }

-- The four caches, rebuilt from the snapshot: each keeps the agents that report its value.
abbrev keep_some : String → Option String → List (String × String) → List (String × String)
keep_some name none m = m
keep_some name (some s) m = insert name s m

abbrev keep_text : String → String → List (String × String) → List (String × String)
keep_text name s m = if s == "" then m else insert name s m

abbrev keep_id : String → ℤ → List (String × ℤ) → List (String × ℤ)
keep_id name n m = if positive n then insert name n m else m

unfoldable pub cache_entries : List (String × AgentEntry) → Controller → Controller
cache_entries [] c = c
cache_entries ((name, e) ∷ es) c = cache_entries es (record c {
  watchdog_states_by_agent = keep_some name e.state c.watchdog_states_by_agent;
  glasses_fsns_by_agent = keep_text name e.fsn c.glasses_fsns_by_agent;
  glasses_product_labels_by_agent =
      keep_text name e.product_label c.glasses_product_labels_by_agent;
  glasses_product_ids_by_agent = keep_id name e.product_id c.glasses_product_ids_by_agent;
})

unfoldable pub cache_agents : Option (List (String × AgentEntry)) → Controller → Controller
cache_agents none c = c
cache_agents (some es) c = cache_entries es (record c {
  watchdog_states_by_agent = [];
  glasses_fsns_by_agent = [];
  glasses_product_labels_by_agent = [];
  glasses_product_ids_by_agent = [];
})

entry_state : Option AgentEntry → String
entry_state none = ""
entry_state (some e) = value_or e.state ""

-- agentWatchdogState: empty where the snapshot says nothing of the agent.
unfoldable pub agent_watchdog_state : Option (List (String × AgentEntry)) → String → String
unfolding entry_state value_or
agent_watchdog_state none agent = ""
agent_watchdog_state (some es) agent = if agent == "" then "" else entry_state (lookup agent es)

unfoldable pub note_summary : String → Controller → Controller
unfolding append_log emit
note_summary s c =
    if not (s == "") && not (s == c.watchdog_summary)
    then emit (watchdog_summary_changed s)
        (append_log (line "watchdog 状态更新: %1" (s ∷ [])) (record c { watchdog_summary = s }))
    else c

unfoldable pub note_watchdog_state : String → Controller → Controller
unfolding append_log emit
note_watchdog_state s c =
    if c.active_agent_watchdog_state == s
    then c
    else let c1 = record c { active_agent_watchdog_state = s } in
      let c2 =
        if s == ""
        then c1
        else append_log (line "agent %1 watchdog 状态: %2" (c1.active_agent ∷ s ∷ [])) c1 in
      emit (active_agent_watchdog_state_changed s) c2

-- The `healthy` branch.
unfoldable pub on_healthy : Controller → Controller
unfolding cancel_watchdog_wait_timeout dispatch_one_click_start_device transition_to
on_healthy c0 =
    let c = cancel_watchdog_wait_timeout c0 in
    if c.one_click_flow_active
      && (same_state c.state waiting_watchdog || same_state c.state device_initializing)
    then dispatch_one_click_start_device (plain "watchdog 初始化完成，开始执行 start_device") c
    else if same_state c.state waiting_watchdog
    then transition_to device_ready (plain "watchdog 报告设备已健康") c
    else c

-- The `initializing` branch.
unfoldable pub on_initializing : Controller → Controller
unfolding set_one_click_succeeded arm_watchdog_wait_timeout transition_to
on_initializing c =
    let c1 = if c.one_click_succeeded then set_one_click_succeeded false c else c in
    let c2 = if c1.one_click_flow_active then arm_watchdog_wait_timeout c1 else c1 in
    if same_state c2.state waiting_watchdog || same_state c2.state agent_connecting
    then transition_to device_initializing (plain "watchdog 正在执行 init_device") c2
    else c2

unfoldable pub keep_waiting : Controller → Controller
unfolding transition_to
keep_waiting c =
    if same_state c.state device_initializing
    then transition_to waiting_watchdog (plain "watchdog 初始化尚未成功，继续等待自动恢复") c
    else c

-- The `disconnected` branch.
unfoldable pub on_disconnected : Controller → Controller
unfolding set_one_click_succeeded append_log arm_watchdog_wait_timeout transition_to keep_waiting
on_disconnected c =
    let c1 = if c.one_click_succeeded then set_one_click_succeeded false c else c in
    if c1.one_click_flow_active
      && (same_state c1.state agent_connecting
          || same_state c1.state waiting_watchdog
          || same_state c1.state device_initializing)
    then keep_waiting
        (arm_watchdog_wait_timeout (append_log (plain "watchdog 当前仍报告 disconnected，继续等待自动初始化。") c1))
    else if not (same_state c1.state idle) && not (same_state c1.state emergency_stop)
    then transition_to failed (plain "watchdog 报告主 agent 已断开") c1
    else c1

unfoldable pub react : String → Controller → Controller
react s c =
    if s == "healthy"
    then on_healthy c
    else if s == "initializing"
    then on_initializing c
    else if s == "disconnected"
    then on_disconnected c
    else c

-- What the handler does before it looks at the state of the active agent.
unfoldable pub absorb_status : StatusUpdate → Controller → Controller
absorb_status u c =
    let c1 = cache_agents u.agents (note_summary u.summary c) in
    let c2 =
      set_device_info (value_or (lookup c1.active_agent c1.glasses_fsns_by_agent) "")
        (value_or (lookup c1.active_agent c1.glasses_product_labels_by_agent) "")
        (value_or (lookup c1.active_agent c1.glasses_product_ids_by_agent) (negsuc 0)) c1 in
    note_watchdog_state (agent_watchdog_state u.agents c.active_agent) c2

-- The handler behind the decoding.
unfoldable pub handle_status : StatusUpdate → Controller → Controller
handle_status u c = react (agent_watchdog_state u.agents c.active_agent) (absorb_status u c)

pub handle_status_update : Text → (J : JsonLib) → J.Json → Controller → Controller
unfolding handle_status
handle_status_update q J j c = handle_status (decode_status q J j) c
