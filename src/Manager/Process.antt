-- ===== src/Manager/Process.antt =====
-- AgentManagerProcess: its state, the two queues of commands and the results that synchronous callers
-- wait for. A command is the JSON object that its sender made, as its fields. The mutexes make each
-- function one step.
use Prim.Native.String.{◌++◌}
use text.Mathlib.Text.{◌==◌}
use mathlib.Core.List.{◌++◌ as list_append}
use xreal_bsp_rgb_tool.Prelude.{
  ℕ, zero, suc, Bool, true, false, List, [], ◌∷◌, Option, none, some, String, if◌then◌else◌,
}
use xreal_bsp_rgb_tool.Prelude.Int.{pos}
use xreal_bsp_rgb_tool.Prelude.Maps.{lookup, insert, erase}
use xreal_bsp_rgb_tool.Platform.{Text, JsonLib}
use xreal_bsp_rgb_tool.Watchdog.{Watchdog}
use xreal_bsp_rgb_tool.Manager.Fields.{◌>>=◌, Fields}
use xreal_bsp_rgb_tool.Manager.Agents.{AgentManager}

-- The signals commandResult and dialogRequest, with the fields of their JSON.
pub data ProcessSignal (F : Type 0) : Type 0 where
  command_result : F → ProcessSignal F
  dialog_request : F → ProcessSignal F

-- `signals` has the newest first, the queues the oldest.
pub record Process (J : JsonLib) (A : Type 0) : Type 0 where
  pub agents : AgentManager J.Json A
  pub watchdog : Watchdog J.Json
  pub init_param_overrides : List (String × J.Json)
  pub last_start_device_params : List (String × J.Json)
  pub restore_start_device_after_init : List (String × Bool)
  pub running : Bool
  pub urgent_command_queue : List (Fields J)
  pub command_queue : List (Fields J)
  pub sync_results : List (String × Fields J)
  pub request_counter : ℕ
  pub signals : List (ProcessSignal (Fields J))

-- commandTimeoutSeconds
unfoldable pub command_timeout_seconds : String → ℕ
command_timeout_seconds name =
    if name == "init_device"
    then 120
    else if name == "start_device"
    then 120
    else if name == "restart_device"
    then 240
    else if name == "stop_record"
    then 300
    else if name == "stop_device"
    then 45
    else if name == "release_device"
    then 45
    else if name == "capture_raw_frame"
    then 180
    else if name == "get_bsp_runtime_state"
    then 10
    else 30

timeout_reply : (J : JsonLib) → String → Fields J
timeout_reply J id =
    ("success", J.of_bool false)
    ∷ ("error", J.of_text "Timeout")
    ∷ ("request_id", J.of_text id)
    ∷ []

module _ (q : Text) (J : JsonLib) {A : Type 0} where
  -- sendCommand
  unfoldable pub send_command : Fields J → Bool → Process J A → Process J A
  send_command command urgent p =
      if urgent
      then record p { urgent_command_queue = list_append p.urgent_command_queue (command ∷ []) }
      else record p { command_queue = list_append p.command_queue (command ∷ []) }

  -- nextRequestId
  unfoldable pub next_request_id : Process J A → String × Process J A
  next_request_id p =
      let next = suc p.request_counter in
      ("req_" ++ q.number (pos next), record p { request_counter = next })

  -- The first half of sendCommandSync: the command gets an id and goes into its queue.
  unfoldable pub begin_sync : Fields J → Bool → Process J A → String × Process J A
  unfolding send_command next_request_id
  begin_sync command urgent p =
      let r = next_request_id p in
      (r.0, send_command (insert "request_id" (J.of_text r.0) command) urgent r.1)

  -- The second half: the result of the id is taken, if it is there when the wait ends.
  unfoldable pub end_sync : String → Process J A → Fields J × Process J A
  unfolding timeout_reply
  end_sync id p = elim (lookup id p.sync_results) [
    | none ↦ (timeout_reply J id, p)
    | some result ↦ (result, record p { sync_results = erase id p.sync_results })
  ]

  -- The command that processLoop takes, by what the queues hold.
  unfoldable pub take_from :
      List (Fields J) → List (Fields J) → Process J A → Option (Fields J × Process J A)
  take_from (c ∷ cs) normal p = some (c, record p { urgent_command_queue = cs })
  take_from [] (c ∷ cs) p = some (c, record p { command_queue = cs })
  take_from [] [] p = none

  unfoldable pub take_command : Process J A → Option (Fields J × Process J A)
  unfolding take_from
  take_command p = take_from p.urgent_command_queue p.command_queue p

  module _ (process_command : Fields J → Process J A → Option (Process J A)) where
    -- A round of processLoop, and the rounds `next` behind it, while nobody sends a command: with empty
    -- queues the wait of 100 milliseconds passes, and the loop goes on.
    unfoldable pub loop_round :
        Bool
        → Option (Fields J × Process J A)
        → (Process J A → Option (Process J A))
        → Process J A
        → Option (Process J A)
    loop_round false taken next p = some p
    loop_round true none next p = next p
    loop_round true (some (c, rest)) next p = process_command c rest >>= next

    -- What so many rounds of processLoop leave, or fewer where it is stopped before; none where a command
    -- throws.
    unfoldable pub process_loop : ℕ → Process J A → Option (Process J A)
    unfolding take_command loop_round
    process_loop zero p = some p
    process_loop (suc rounds) p = loop_round p.running (take_command p) (process_loop rounds) p
