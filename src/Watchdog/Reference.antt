-- ===== src/Watchdog/Reference.antt =====
-- What one health check of an agent makes of its status and what it sends, told without the functions of
-- checkAgent and without the dictionary of agents: from the status, the answer of the check and the answer
-- of init_device alone. Effects are listed newest first.
use xreal_bsp_rgb_tool.Prelude.{
  ℕ, ◌+◌, Bool, true, false, not, List, [], ◌∷◌, Option, none, some, String, if◌then◌else◌, ◌&&◌,
}
use xreal_bsp_rgb_tool.Prelude.Int.{negsuc}
use xreal_bsp_rgb_tool.Watchdog.{
  Health, healthy, disconnected, initializing, AgentStatus, Effect, status_update, agent_failure,
  estop, init_device_call,
}
use xreal_bsp_rgb_tool.Watchdog.Check.{
  CheckOutcome, DeviceReport, replied, threw, Hooks, InitFlag, InitReply, read, unreadable,
  shown_name,
}

-- The error of a check that fails: what it throws, or its negative answer's.
unfoldable pub failure : CheckOutcome → Option String
failure (threw e) = some e
failure (replied r) = if r.success then none else some r.error

-- How the initialization of a device ends: done, refused with a message, or with an exception because the
-- answer cannot be read.
pub data Init : Type 0 where
  done : Init
  refused broken : String → Init

unfoldable pub refusal : Option String → Option String → String
refusal (some message) error = message
refusal none (some error) = error
refusal none none = "Init device failed"

unfoldable pub init_of_flag : InitFlag → Option String → Option String → Init
unfolding refusal
init_of_flag (read true) message error = done
init_of_flag (read false) message error = refused (refusal message error)
init_of_flag (unreadable e) message error = broken e

unfoldable pub init_of_answer : Option InitReply → Init
unfolding init_of_flag
init_of_answer none = refused "Init device exception"
init_of_answer (some r) = init_of_flag r.success r.message r.error

unfoldable pub is_broken : Init → Bool
is_broken done = false
is_broken (refused e) = false
is_broken (broken e) = true

module _ {P : Type 0} where
  unfoldable pub init_outcome : Hooks P → String → P → Init
  unfolding init_of_answer
  init_outcome h name params = elim h.init_device [
    | none ↦ refused "No init callback"
    | some f ↦ init_of_answer (f name params)
  ]

  -- A failed check: one more failure, and nothing known of the device.
  unfoldable pub failed_status : ℕ → String → AgentStatus P → AgentStatus P
  failed_status now error s = record s {
    state = disconnected;
    last_check_time = now;
    last_error = error;
    consecutive_failures = s.consecutive_failures + 1;
    connected_product_ids = [];
    product_id = negsuc 0;
    product_display_id = "";
    fsn = "";
  }

  -- The device that the answer describes, if it does.
  unfoldable pub with_device : Hooks P → Option DeviceReport → AgentStatus P → AgentStatus P
  with_device h none s = s
  with_device h (some d) s = record s {
    connected_product_ids = d.product_ids;
    product_id = d.product_id;
    product_display_id = d.product_display_id;
    product_name = shown_name h d s;
    fsn = d.fsn;
  }

  -- A check that succeeds: no failures, and the state and error as given.
  unfoldable pub passed_status :
      Hooks P → ℕ → Option DeviceReport → Health → String → AgentStatus P → AgentStatus P
  unfolding with_device
  passed_status h now devices state error s = with_device h devices (record s {
    state = state;
    last_check_time = now;
    last_error = error;
    consecutive_failures = 0;
  })

  -- A disconnected primary agent that answers again, by the way its initialization ends.
  unfoldable pub resumed_status :
      Hooks P → ℕ → Option DeviceReport → Init → AgentStatus P → AgentStatus P
  unfolding passed_status
  resumed_status h now devices done s = record (passed_status h now devices healthy "" s) {
    last_init_time = now;
  }
  resumed_status h now devices (refused m) s = passed_status h now devices disconnected m s
  resumed_status h now devices (broken e) s = record s {
    state = initializing;
    last_check_time = now;
    last_error = e;
    connected_product_ids = [];
    product_id = negsuc 0;
    product_display_id = "";
    fsn = "";
  }

  -- Whether the check makes the device be initialized.
  unfoldable pub resumes : AgentStatus P → Bool
  resumes s = elim s.state [ disconnected ↦ s.is_primary | _ ↦ false ]

  -- The status behind a check of an agent that is not initializing.
  unfoldable pub checked : Hooks P → String → ℕ → CheckOutcome → AgentStatus P → AgentStatus P
  unfolding failed_status passed_status resumed_status resumes
  checked h name now (threw e) s = failed_status now e s
  checked h name now (replied r) s =
      if not r.success
      then failed_status now r.error s
      else if resumes s
      then resumed_status h now r.devices (init_outcome h name s.init_device_params) s
      else passed_status h now r.devices healthy "" s

  -- What a failing check sends in front of its last notification.
  unfoldable pub failure_effects : String → String → AgentStatus P → List (Effect P)
  failure_effects name error s = elim s.state [
    | healthy ↦
        if s.suppress_disconnect_dialog
        then []
        else estop name error ∷ agent_failure name error ∷ []
    | _ ↦ []
  ]

  -- The call of init_device, which needs a callback, on top of the effects in front of it.
  unfoldable pub init_call : Hooks P → String → AgentStatus P → List (Effect P) → List (Effect P)
  init_call h name s es = elim h.init_device [
    | none ↦ es
    | some f ↦ init_device_call name s.init_device_params ∷ es
  ]

  -- What a check that succeeds sends in front of its last notification.
  unfoldable pub success_effects : Hooks P → String → AgentStatus P → List (Effect P)
  unfolding init_call resumes
  success_effects h name s =
      let called = init_call h name s (status_update ∷ []) in
      if resumes s
      then elim (init_outcome h name s.init_device_params) [
        | broken e ↦ called
        | _ ↦ status_update ∷ called
      ]
      else []

  -- The effects of a check of an agent that is not initializing.
  unfoldable pub check_effects : Hooks P → String → CheckOutcome → AgentStatus P → List (Effect P)
  unfolding failure
  check_effects h name o s = elim (failure o) [
    | none ↦ status_update ∷ success_effects h name s
    | some error ↦ status_update ∷ failure_effects name error s
  ]

  -- Whether a check makes a device be initialized whose answer then cannot be read.
  unfoldable pub is_stuck : Hooks P → String → CheckOutcome → AgentStatus P → Bool
  unfolding is_broken resumes
  is_stuck h name (threw e) s = false
  is_stuck h name (replied r) s =
      r.success && (resumes s && is_broken (init_outcome h name s.init_device_params))
