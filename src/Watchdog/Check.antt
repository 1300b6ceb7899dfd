-- ===== src/Watchdog/Check.antt =====
-- The health check of AgentWatchdog: checkAllAgents, checkAgent and the handlers that it calls. The
-- answers of the callbacks are arguments.
use text.Mathlib.Text.{◌==◌}
use xreal_bsp_rgb_tool.Prelude.{
  ℕ, ◌+◌, Bool, true, false, not, ◌&&◌, List, [], ◌∷◌, Option, none, some, String, if◌then◌else◌,
  ◌==◌ as nat_eq,
}
use xreal_bsp_rgb_tool.Prelude.Int.{ℤ, pos, negsuc, positive}
use xreal_bsp_rgb_tool.Prelude.Maps.{lookup, contains}
use xreal_bsp_rgb_tool.Watchdog.{
  Health, healthy, disconnected, initializing, AgentStatus, agent_failure, estop, init_device_call,
  Watchdog, emit, notify_status_update, store,
}

-- The device fields of a check's payload, present when it holds an array "product_ids".
pub record DeviceReport : Type 0 where
  pub product_ids : List ℤ
  pub product_id : ℤ
  pub product_display_id : String
  pub product_name : String
  pub fsn : String

pub record CheckReply : Type 0 where
  pub success : Bool
  pub error : String
  pub devices : Option DeviceReport

-- A check callback answers or throws; without a callback the answer is a failure.
pub data CheckOutcome : Type 0 where
  replied : CheckReply → CheckOutcome
  threw : String → CheckOutcome

-- What value("success", false) makes of the answer of init_device: a Boolean, or an exception with its
-- text where the answer is no object or its field no Boolean.
pub data InitFlag : Type 0 where
  read : Bool → InitFlag
  unreadable : String → InitFlag

-- The answer of the init_device callback: its success, and its "message" and "error" if they are texts.
pub record InitReply : Type 0 where
  pub success : InitFlag
  pub message : Option String
  pub error : Option String

-- The init_device callback, if one is set; it throws where it gives none. `number` is std::to_string.
pub record Hooks (P : Type 0) : Type 0 where
  pub init_device : Option (String → P → Option InitReply)
  pub number : ℤ → String

abbrev failed_init : String → InitReply
failed_init error = record { success = read false; message = none; error = some error }

unfoldable pub init_error : InitReply → String
init_error r = elim r.message [
  | some m ↦ m
  | none ↦ elim r.error [ some e ↦ e | none ↦ "Init device failed" ]
]

device_name : List (ℤ × String) → ℤ → Option String
device_name [] id = none
device_name ((pos m, n) ∷ ds) (pos k) = if nat_eq m k then some n else device_name ds (pos k)
device_name ((negsuc m, n) ∷ ds) (negsuc k) =
    if nat_eq m k then some n else device_name ds (negsuc k)
device_name ((_, n) ∷ ds) id = device_name ds id

text_or : Option String → String → String
text_or none d = d
text_or (some s) d = s

unfoldable pub is_initializing : Health → Bool
is_initializing initializing = true
is_initializing _ = false

module _ {P : Type 0} where
  unfoldable pub call_init : Hooks P → String → P → InitReply
  call_init h name params = elim h.init_device [
    | none ↦ failed_init "No init callback"
    | some f ↦ elim (f name params) [ none ↦ failed_init "Init device exception" | some r ↦ r ]
  ]

  unfoldable pub after_init : Bool → InitReply → ℕ → AgentStatus P → AgentStatus P
  unfolding init_error
  after_init ok r now s =
      if ok
      then record s { state = healthy; last_init_time = now; last_error = "" }
      else record s { state = disconnected; last_error = init_error r }

  -- The status under its iterator; the exception leaves it as it is, and nothing is notified.
  unfoldable pub store_init :
      InitFlag → InitReply → ℕ → String → AgentStatus P → Watchdog P → Watchdog P × Option String
  unfolding after_init
  store_init (read ok) r now name s w =
      (notify_status_update (store name (after_init ok r now s) w), none)
  store_init (unreadable e) r now name s w = (w, some e)

  -- The callback is called only where one is set.
  unfoldable pub note_call : Hooks P → String → P → Watchdog P → Watchdog P
  unfolding emit
  note_call h name params w = elim h.init_device [
    | none ↦ w
    | some f ↦ emit (init_device_call name params) w
  ]

  -- initDevice, and the text of the exception with which it ends, if it does.
  unfoldable pub init_device : Hooks P → String → P → ℕ → Watchdog P → Watchdog P × Option String
  unfolding call_init note_call store_init
  init_device h name params now w =
      let w1 = note_call h name params w in
      let r = call_init h name params in
      elim (lookup name w1.registered_agents) [
        | none ↦ (w1, none)
        | some s ↦ store_init r.success r now name s w1
      ]

  -- handleCheckSuccess behind `find`.
  unfoldable pub check_succeeded :
      Hooks P → String → ℕ → Watchdog P → AgentStatus P → Health → Watchdog P × Option String
  unfolding init_device
  check_succeeded h name now w s healthy =
      (store name (record s { last_error = ""; state = healthy }) w, none)
  check_succeeded h name now w s initializing = (store name (record s { last_error = "" }) w, none)
  check_succeeded h name now w s disconnected =
      if s.is_primary
      then init_device h name s.init_device_params now
          (notify_status_update (store name (record s { last_error = ""; state = initializing }) w))
      else (store name (record s { last_error = ""; state = healthy }) w, none)

  -- handleCheckSuccess, and the text of the exception that leaves it.
  unfoldable pub handle_check_success :
      Hooks P → String → ℕ → Watchdog P → Watchdog P × Option String
  handle_check_success h name now w = elim (lookup name w.registered_agents) [
    | none ↦ (w, none)
    | some s ↦ check_succeeded h name now w s s.state
  ]

  -- handleCheckFailure behind `find`: only a healthy agent fails, and only one that is not hot-plugged
  -- is reported and stops the tool.
  unfoldable pub check_failed : String → String → Watchdog P → AgentStatus P → Health → Watchdog P
  unfolding emit
  check_failed name error w s healthy =
      let w1 = store name (record s { last_error = error; state = disconnected }) w in
      if s.suppress_disconnect_dialog
      then w1
      else emit (estop name error) (emit (agent_failure name error) w1)
  check_failed name error w s _ = store name (record s { last_error = error }) w

  -- handleCheckFailure
  unfoldable pub handle_check_failure : String → String → Watchdog P → Watchdog P
  handle_check_failure name error w = elim (lookup name w.registered_agents) [
    | none ↦ w
    | some s ↦ check_failed name error w s s.state
  ]

  -- The name that the device reports, else the one that the configuration gives its id.
  unfoldable pub shown_name : Hooks P → DeviceReport → AgentStatus P → String
  unfolding device_name text_or
  shown_name h d s =
      if not (d.product_name == "")
      then d.product_name
      else if positive d.product_id
      then text_or (device_name s.supported_devices d.product_id) (h.number d.product_id)
      else ""

  unfoldable pub note_devices : Hooks P → Bool → Option DeviceReport → AgentStatus P → AgentStatus P
  note_devices h true none s = s
  note_devices h true (some d) s = record s {
    connected_product_ids = d.product_ids;
    product_id = d.product_id;
    product_display_id = d.product_display_id;
    product_name = shown_name h d s;
    fsn = d.fsn;
  }
  note_devices h false _ s = record s {
    connected_product_ids = [];
    product_id = negsuc 0;
    product_display_id = "";
    fsn = "";
  }

  -- The last block of checkAgent: the time, the failures and the devices.
  unfoldable pub note_check :
      Hooks P → ℕ → Bool → String → Option DeviceReport → AgentStatus P → AgentStatus P
  unfolding note_devices is_initializing
  note_check h now success error devices s =
      let s1 = record s { last_check_time = now } in
      let s2 = if is_initializing s1.state then s1 else record s1 {
        consecutive_failures = if success then 0 else s1.consecutive_failures + 1;
        last_error = if not success && not (error == "") then error else s1.last_error;
      } in
      note_devices h success devices s2

  abbrev pub finish_check :
      Hooks P → String → ℕ → Bool → String → Option DeviceReport → Watchdog P → Watchdog P
  finish_check h name now success error devices w = elim (lookup name w.registered_agents) [
    | none ↦ notify_status_update w
    | some s ↦ notify_status_update (store name (note_check h now success error devices s) w)
  ]

  -- checkAgent behind a positive answer: an exception of handleCheckSuccess makes it a failure.
  unfoldable pub conclude_success :
      Hooks P → String → ℕ → Option DeviceReport → Watchdog P × Option String → Watchdog P
  conclude_success h name now devices (w, none) = finish_check h name now true "" devices w
  conclude_success h name now devices (w, some e) =
      finish_check h name now false e devices (handle_check_failure name e w)

  -- checkAgent behind its test.
  unfoldable pub run_check : Hooks P → String → ℕ → CheckOutcome → Watchdog P → Watchdog P
  unfolding conclude_success
  run_check h name now (threw e) w =
      finish_check h name now false e none (handle_check_failure name e w)
  run_check h name now (replied r) w =
      if r.success
      then conclude_success h name now r.devices (handle_check_success h name now w)
      else finish_check h name now false r.error r.devices (handle_check_failure name r.error w)

  -- checkAgent
  unfoldable pub check_agent : Hooks P → String → ℕ → CheckOutcome → Watchdog P → Watchdog P
  unfolding is_initializing
  check_agent h name now outcome w = elim (lookup name w.registered_agents) [
    | none ↦ w
    | some s ↦ if is_initializing s.state then w else run_check h name now outcome w
  ]

  -- checkAllAgents: the primary agent alone is checked.
  unfoldable pub check_all_agents : Hooks P → ℕ → CheckOutcome → Watchdog P → Watchdog P
  check_all_agents h now outcome w =
      if not (w.primary_agent == "") && contains w.primary_agent w.registered_agents
      then check_agent h w.primary_agent now outcome w
      else w
