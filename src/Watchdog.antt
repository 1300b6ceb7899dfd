-- ===== src/Watchdog.antt =====
-- src/backend/agent_watchdog.cpp and include/recordlab/backend/agent_watchdog.h: the agents under
-- watch, their registration and marking. The thread's mutex makes each function one step; a function
-- takes the watchdog and returns the new one, and appends what it signals and calls to `effects`,
-- newest first. `P` is the type of the init_device parameters (JSON); times are given by the caller.
pub mod Summary
pub mod Check
pub mod Flags
pub mod Primary
pub mod Reference
pub mod Outcome
pub mod Resume
pub mod Rounds
pub mod Recovery
mod Tests
use xreal_bsp_rgb_tool.Prelude.{
  ℕ, ◌+◌, Bool, true, false, not, ◌&&◌, List, [], ◌∷◌, Option, none, some, String, if◌then◌else◌,
}
use xreal_bsp_rgb_tool.Prelude.Int.{ℤ, negsuc}
use xreal_bsp_rgb_tool.Prelude.Maps.{lookup, insert, erase}
use text.Mathlib.Text.{◌==◌}

-- The STATE_ constants; no other state is ever assigned.
pub data Health : Type 0 where
  healthy disconnected initializing : Health

pub record AgentStatus (P : Type 0) : Type 0 where
  pub agent_name : String
  pub is_primary : Bool
  pub state : Health
  pub consecutive_failures : ℕ
  pub last_check_time : ℕ
  pub last_error : String
  pub init_device_params : P
  pub last_init_time : ℕ
  pub product_id : ℤ
  pub product_display_id : String
  pub product_name : String
  pub fsn : String
  pub connected_product_ids : List ℤ
  pub supported_devices : List (ℤ × String)
  pub suppress_disconnect_dialog : Bool

-- What leaves the watchdog: the signals statusUpdate and agentFailure, and its calls of the estop and
-- init_device callbacks.
pub data Effect (P : Type 0) : Type 0 where
  status_update : Effect P
  agent_failure : String → String → Effect P
  estop : String → String → Effect P
  init_device_call : String → P → Effect P

pub record Watchdog (P : Type 0) : Type 0 where
  pub registered_agents : List (String × AgentStatus P)
  pub primary_agent : String
  pub effects : List (Effect P)

module _ {P : Type 0} where
  unfoldable pub default_status : P → AgentStatus P
  default_status params = record {
    agent_name = "";
    is_primary = false;
    state = disconnected;
    consecutive_failures = 0;
    last_check_time = 0;
    last_error = "";
    init_device_params = params;
    last_init_time = 0;
    product_id = negsuc 0;
    product_display_id = "";
    product_name = "";
    fsn = "";
    connected_product_ids = [];
    supported_devices = [];
    suppress_disconnect_dialog = false;
  }

  unfoldable pub emit : Effect P → Watchdog P → Watchdog P
  emit e w = record w { effects = e ∷ w.effects }

  -- notifyStatusUpdate: the snapshot that it sends is made in Watchdog/Summary.
  abbrev pub notify_status_update : Watchdog P → Watchdog P
  notify_status_update w = record w { effects = status_update ∷ w.effects }

  -- Writing through the iterator that `find` has found.
  abbrev pub store : String → AgentStatus P → Watchdog P → Watchdog P
  store name s w = record w { registered_agents = insert name s w.registered_agents }

  unfoldable pub flag_primary :
      String → List (String × AgentStatus P) → List (String × AgentStatus P)
  flag_primary name [] = []
  flag_primary name ((k, s) ∷ m) = (k, record s { is_primary = k == name }) ∷ flag_primary name m

  -- `operator[]`: a missing agent is added with the defaults.
  unfoldable pub status_or_default : P → Option (AgentStatus P) → AgentStatus P
  unfolding default_status
  status_or_default params none = default_status params
  status_or_default params (some s) = s

  unfoldable pub register_primary_agent : String → P → Watchdog P → Watchdog P
  unfolding status_or_default
  register_primary_agent name params w =
      let m = flag_primary name w.registered_agents in
      let s = status_or_default params (lookup name m) in
      let s1 = record s {
        agent_name = if s.agent_name == "" then name else s.agent_name;
        is_primary = true;
        init_device_params = params;
      } in
      notify_status_update (record w { registered_agents = insert name s1 m; primary_agent = name })

  -- The change of a status under an iterator; nothing happens, and nothing is sent, if `find` fails.
  abbrev pub update_found :
      String → (AgentStatus P → AgentStatus P) → Watchdog P → Option (AgentStatus P) → Watchdog P
  update_found name f w none = w
  update_found name f w (some s) = notify_status_update (store name (f s) w)

  unfoldable pub update_primary_agent_init_device_params : String → P → Watchdog P → Watchdog P
  update_primary_agent_init_device_params name params w = elim (lookup name w.registered_agents) [
    | none ↦ w
    | some s ↦
        if not s.is_primary
        then w
        else notify_status_update (store name (record s { init_device_params = params }) w)
  ]

  unfoldable pub unregister_primary_agent : Watchdog P → Watchdog P
  unregister_primary_agent w =
      if w.primary_agent == ""
      then w
      else notify_status_update (record w {
        registered_agents = erase w.primary_agent w.registered_agents;
        primary_agent = "";
      })

  -- registerScriptAgents does nothing.
  unfoldable pub register_script_agents : List String → Watchdog P → Watchdog P
  register_script_agents names w = w

  unfoldable pub erase_script_agent : String → Watchdog P × Bool → Watchdog P × Bool
  erase_script_agent name (w, changed) = elim (lookup name w.registered_agents) [
    | none ↦ (w, changed)
    | some s ↦
        if s.is_primary
        then (w, changed)
        else (record w { registered_agents = erase name w.registered_agents }, true)
  ]

  unfoldable pub erase_script_agents : List String → Watchdog P × Bool → Watchdog P × Bool
  erase_script_agents [] r = r
  erase_script_agents (name ∷ names) r = erase_script_agents names (erase_script_agent name r)

  unfoldable pub unregister_script_agents : List String → Watchdog P → Watchdog P
  unregister_script_agents names w =
      let r = erase_script_agents names (w, false) in if r.1 then notify_status_update r.0 else r.0

  unfoldable pub mark_agent_initializing : String → String → Watchdog P → Watchdog P
  mark_agent_initializing name message w =
      update_found name (λ s. record s { state = initializing; last_error = message }) w
        (lookup name w.registered_agents)

  unfoldable pub mark_agent_healthy : String → Bool → ℕ → Watchdog P → Watchdog P
  mark_agent_healthy name update_init_time now w =
      update_found name
        (λ s. record s {
          state = healthy;
          last_error = "";
          consecutive_failures = 0;
          last_init_time = if update_init_time then now else s.last_init_time;
        })
        w (lookup name w.registered_agents)

  unfoldable pub mark_agent_disconnected : String → String → Watchdog P → Watchdog P
  mark_agent_disconnected name error w =
      update_found name (λ s. record s { state = disconnected; last_error = error }) w
        (lookup name w.registered_agents)

  -- setAgentDeviceConfig sends no status.
  unfoldable pub set_agent_device_config :
      String → List (ℤ × String) → Bool → Watchdog P → Watchdog P
  set_agent_device_config name devices suppress w = elim (lookup name w.registered_agents) [
    | none ↦ w
    | some s ↦
        store name (record s { supported_devices = devices; suppress_disconnect_dialog = suppress })
          w
  ]
