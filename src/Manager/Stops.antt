-- ===== src/Manager/Stops.antt =====
-- The emergency stop, and the callback by which the watchdog initialises a device and starts it again.
use text.Mathlib.Text.{◌==◌}
use xreal_bsp_rgb_tool.Prelude.{
  ◌≡◌, refl, Bool, true, false, List, [], ◌∷◌, Option, none, some, String, if◌then◌else◌, arith,
  Bool-cases, inl, inr, eq_iff,
}
use xreal_bsp_rgb_tool.Prelude.Maps.{lookup}
use xreal_bsp_rgb_tool.Platform.{Text, JsonLib}
use xreal_bsp_rgb_tool.Watchdog.{Watchdog, unregister_primary_agent}
use xreal_bsp_rgb_tool.Manager.Fields.{Fields, value_text, value_flag}
use xreal_bsp_rgb_tool.Manager.Agents.{AgentClass, stop_all_agents}
use xreal_bsp_rgb_tool.Manager.Process.{Process}
use xreal_bsp_rgb_tool.Manager.Actions.{Outside, clear_all, handle_emergency_stop}
use xreal_bsp_rgb_tool.Manager.Dispatch.{run_action, with_text, on_text}

unfoldable pub flag_of : Option Bool → Bool
flag_of none = false
flag_of (some b) = b

clear_all-flag :
    (name : String) (m : List (String × Bool)) → flag_of (lookup name (clear_all m)) ≡ false
unfolding clear_all flag_of
clear_all-flag name [] = refl
clear_all-flag name ((k, b) ∷ m) = elim (Bool-cases (k == name)) [
  | inl e ↦ rw e refl
  | inr e ↦ rw e (clear_all-flag name m)
]

unregister-empty : {P : Type 0} (w : Watchdog P) → (unregister_primary_agent w).primary_agent ≡ ""
unfolding unregister_primary_agent
unregister-empty w = ground (arith, eq_iff w.primary_agent "")

module _ (q : Text) (J : JsonLib) where
  open J use {Json, of_text, of_fields, as_string}

  text_under : String → Fields J → Option String
  text_under key fields = elim (lookup key fields) [ none ↦ none | some v ↦ as_string v ]

  -- messageContains
  unfoldable pub message_contains : Fields J → String → Bool
  unfolding text_under
  message_contains fields needle =
      q.contains_insensitive
        (elim (text_under "message" fields) [
          | some s ↦ s
          | none ↦ elim (text_under "error" fields) [ some s ↦ s | none ↦ "" ]
        ])
        needle

  unfoldable pub agent_command : String → String → Json → Fields J
  agent_command name command params =
      ("action", of_text "send_agent_command")
      ∷ ("agent_name", of_text name)
      ∷ ("cmd_name", of_text command)
      ∷ ("params", params)
      ∷ []

  -- The result of the callback by the reply to its start_device; nothing where it throws.
  unfoldable pub settle_start : Fields J → Fields J → Option Bool → Option (Fields J)
  unfolding message_contains
  settle_start init_reply start_reply none = none
  settle_start init_reply start_reply (some true) = some init_reply
  settle_start init_reply start_reply (some false) =
      if message_contains start_reply "Already started" then some init_reply else some start_reply

module _ (q : Text) (J : JsonLib) {A : Type 0} where
  open J use {Json, of_fields}

  -- Whether start_device is to be repeated after an initialisation.
  unfoldable pub restores : String → Process J A → Bool
  unfolding flag_of
  restores name p = flag_of (lookup name p.restore_start_device_after_init)

  module _ (ask : Fields J → Process J A → Fields J × Process J A) where
    -- The callback's start_device, where it is to be repeated.
    unfoldable pub restart_device :
        String → Fields J → Bool → Process J A → Option (Fields J) × Process J A
    unfolding agent_command settle_start
    restart_device name init_reply false p = (some init_reply, p)
    restart_device name init_reply true p =
        let params : Json = elim (lookup name p.last_start_device_params) [
          | none ↦ of_fields []
          | some s ↦ s
        ] in
        let r = ask (agent_command q J name "start_device" params) p in
        (settle_start q J init_reply r.0 (value_flag J "success" false r.0), r.1)

    unfoldable pub settle_init :
        String → Fields J → Option Bool → Process J A → Option (Fields J) × Process J A
    unfolding restart_device restores
    settle_init name init_reply none p = (none, p)
    settle_init name init_reply (some false) p = (some init_reply, p)
    settle_init name init_reply (some true) p = restart_device name init_reply (restores name p) p

    -- The init_device callback; `ask` is sendCommandSync, with a limit of 120 seconds.
    unfoldable pub init_device_callback :
        String → Json → Process J A → Option (Fields J) × Process J A
    unfolding settle_init agent_command
    init_device_callback name params p =
        let r = ask (agent_command q J name "init_device" params) p in
        settle_init name r.0 (value_flag J "success" false r.0) r.1

    failed_start-success :
        (init_reply start_reply result : Fields J) (b : Bool)
        → value_flag J "success" false start_reply ≡ some false
        → (if b then some init_reply else some start_reply) ≡ some result
        → value_flag J "success" false result ≡ some true
        → result ≡ init_reply
    failed_start-success init_reply start_reply result true e h k = cc
    failed_start-success init_reply start_reply result false e h k = cc

    settle_start-success :
        (init_reply start_reply result : Fields J) (b : Option Bool)
        → value_flag J "success" false start_reply ≡ b
        → settle_start q J init_reply start_reply b ≡ some result
        → value_flag J "success" false result ≡ some true
        → result ≡ init_reply
    unfolding settle_start
    settle_start-success init_reply start_reply result none e h k = cc
    settle_start-success init_reply start_reply result (some true) e h k = cc
    settle_start-success init_reply start_reply result (some false) e h k =
        failed_start-success init_reply start_reply result
          (message_contains q J start_reply "Already started") e h k

    restart_device-success :
        (name : String) (init_reply result : Fields J) (b : Bool) (p : Process J A)
        → (restart_device name init_reply b p).0 ≡ some result
        → value_flag J "success" false result ≡ some true
        → result ≡ init_reply
    unfolding restart_device
    restart_device-success name init_reply result false p h k = cc
    restart_device-success name init_reply result true p h k =
        settle_start-success init_reply _ result _ refl h k

    settle_init-success :
        (name : String) (init_reply result : Fields J) (b : Option Bool) (p : Process J A)
        → (settle_init name init_reply b p).0 ≡ some result
        → value_flag J "success" false result ≡ some true
        → result ≡ init_reply
    unfolding settle_init
    settle_init-success name init_reply result none p h k = cc
    settle_init-success name init_reply result (some false) p h k = cc
    settle_init-success name init_reply result (some true) p h k =
        restart_device-success name init_reply result (restores name p) p h k

    -- The init_device callback, whatever the two synchronous calls reply: a result whose success is true
    -- is the reply to init_device, never the one to the start_device behind it.
    pub init_device_callback-success :
        (name : String) (params : Json) (p : Process J A) (result : Fields J)
        → (init_device_callback name params p).0 ≡ some result
        → value_flag J "success" false result ≡ some true
        → result ≡ (ask (agent_command q J name "init_device" params) p).0
    unfolding init_device_callback
    init_device_callback-success name params p result h k =
        let r = ask (agent_command q J name "init_device" params) p in
        settle_init-success name r.0 result (value_flag J "success" false r.0) r.1 h k

  module _ (C : AgentClass J.Json A) (o : Outside (Fields J)) where
    -- An emergency_stop whose reason, if it has one, is a text: afterwards the watchdog has no primary
    -- agent, start_device is to be repeated for no agent, and the agents are those that stopAllAgents
    -- leaves.
    pub emergency_stop-restores :
        (c : Fields J) (p : Process J A) (reason name : String)
        → value_text J "reason" "Unknown" c ≡ some reason
        → ((run_action q J C o "emergency_stop" c p).0.watchdog.primary_agent ≡ "")
          × (restores name (run_action q J C o "emergency_stop" c p).0 ≡ false)
          × ((run_action q J C o "emergency_stop" c p).0.agents
              ≡ (stop_all_agents J C o.agent_error p.agents).0)
    unfolding run_action with_text on_text handle_emergency_stop restores
    emergency_stop-restores c p reason name h =
        rw (h, on_text)
          (unregister-empty p.watchdog, clear_all-flag name p.restore_start_device_after_init, refl)
