-- ===== src/Script/Executor.antt =====
-- ScriptExecutor: its state, and what it does with a line that the script prints. A dialog is answered
-- by the next of the user's answers before anything else happens: the events that Qt delivers while a
-- dialog is open are not modelled.
use Prim.Native.Char.{code}
use Prim.Native.String.{◌++◌}
use text.Mathlib.Text.{◌==◌}
use mathlib.Core.List.{◌++◌ as list_append}
use xreal_bsp_rgb_tool.Prelude.{
  ℕ, Bool, true, false, List, [], ◌∷◌, Option, none, some, String, if◌then◌else◌, ◌==◌ as nat_eq,
}
use xreal_bsp_rgb_tool.Platform.{Text, JsonLib}
use xreal_bsp_rgb_tool.Script.Lines.{process_output_bytes}
use xreal_bsp_rgb_tool.Script.History.{Settings}
use xreal_bsp_rgb_tool.Script.Dialog.{
  Dialog, Answer, rejected, Response, Device, json_string, json_bool, dialog_of, respond,
}

-- The fields of ScriptContext that the executor uses.
pub record ScriptContext : Type 0 where
  pub script_path : String
  pub output : List String
  pub error : String
  pub is_running : Bool
  pub total_lines : ℕ

-- QProcess::state, where a process that starts is not told from one that runs.
pub data ProcessState : Type 0 where
  not_running : ProcessState
  running : ProcessState

-- The signals, what is written to the process or asked of it, and the dialogs that are shown.
pub data ScriptEffect : Type 0 where
  script_log : String → ScriptEffect
  workflow_cleared : ScriptEffect
  workflow_updated : String → String → String → Bool → Bool → ScriptEffect
  script_started : String → ScriptEffect
  script_completed : Bool → String → ScriptEffect
  dialog_shown : Dialog → ScriptEffect
  response_written : Response → ScriptEffect
  terminate : ScriptEffect
  kill : ScriptEffect

-- What handling a line reads and writes: all but the two buffers. `answers` is what the user will do
-- with the dialogs to come; `effects` has the newest first.
pub record Session : Type 0 where
  pub context : Option ScriptContext
  pub process : Option ProcessState
  pub stop_requested : Bool
  pub device : Device
  pub settings : Settings
  pub answers : List Answer
  pub effects : List ScriptEffect

pub record ScriptExecutor : Type 0 where
  pub session : Session
  pub stdout_buffer : List ℕ
  pub stderr_buffer : List ℕ

unfoldable pub emit : ScriptEffect → Session → Session
emit e s = record s { effects = e ∷ s.effects }

unfoldable pub is_active : Option ProcessState → Bool
is_active none = false
is_active (some not_running) = false
is_active (some running) = true

-- `line.startsWith(prefix)`, with `line.mid(prefix.size())`.
unfoldable pub after_prefix : String → String → Option String
after_prefix String.[] line = some line
after_prefix (String.◌∷◌ c prefix) String.[] = none
after_prefix (String.◌∷◌ c prefix) (String.◌∷◌ d line) =
    let rest = after_prefix prefix line in if nat_eq (code c) (code d) then rest else none

abbrev pub runtime_event_prefix : String
runtime_event_prefix = "__RECORDLAB_EVENT__ "

next_answer : List Answer → Answer
next_answer [] = rejected
next_answer (a ∷ rest) = a

later_answers : List Answer → List Answer
later_answers [] = []
later_answers (a ∷ rest) = rest

script_path_of : Option ScriptContext → String
script_path_of none = ""
script_path_of (some c) = c.script_path

-- sendRuntimeResponse
unfoldable pub send_runtime_response : Response → Session → Session
unfolding emit is_active
send_runtime_response response s =
    if is_active s.process then emit (response_written response) s else s

-- The rest of processOutputLine behind handleRuntimeEvent.
unfoldable pub log_line : String → ScriptContext → Session → Session
unfolding emit
log_line line c s =
    emit (script_log line)
      (record s { context = some (record c { output = list_append c.output (line ∷ []) }) })

-- The test of the process and the context in onProcessOutput.
unfoldable pub is_attached : Session → Bool
is_attached s = elim s.process [
  | none ↦ false
  | some p ↦ elim s.context [ none ↦ false | some c ↦ true ]
]

module _ (q : Text) (J : JsonLib) (utf8 : List ℕ → String) (sha1_hex : String → String)
    (parse_error : String → String) where
  open J use {Json, parse, find, dump}

  -- handleDialogEvent
  unfoldable pub handle_dialog_event : Json → Session → Session
  unfolding emit send_runtime_response next_answer later_answers script_path_of
  handle_dialog_event event s =
      let dialog = dialog_of q J sha1_hex (script_path_of s.context) s.device s.settings event in
      let answered =
        respond q J (json_string q J event "id" "") dialog (next_answer s.answers) s.settings in
      send_runtime_response answered.0 (record (emit (dialog_shown dialog) s) {
        settings = answered.1;
        answers = later_answers s.answers;
      })

  steps_json : Json → String
  steps_json event = elim (find "steps" event) [ none ↦ "[]" | some steps ↦ dump steps ]

  -- handleWorkflowEvent
  unfoldable pub handle_workflow_event : Json → Session → Session
  unfolding emit steps_json
  handle_workflow_event event s =
      if json_string q J event "action" "" == "clear"
      then emit workflow_cleared s
      else emit
          (workflow_updated (json_string q J event "title" "脚本流程")
            (json_string q J event "message" "") (steps_json event)
            (json_bool q J event "finished" false) (json_bool q J event "success" false))
          s

  -- The `try` block of handleRuntimeEvent.
  unfoldable pub dispatch_event : Json → Session → Session
  unfolding handle_dialog_event handle_workflow_event
  dispatch_event event s =
      if json_string q J event "type" "" == "dialog"
      then handle_dialog_event event s
      else if json_string q J event "type" "" == "workflow"
      then handle_workflow_event event s
      else s

  -- handleRuntimeEvent behind the test of the prefix.
  unfoldable pub handle_runtime_event : String → Session → Session
  unfolding dispatch_event emit
  handle_runtime_event payload s = elim (parse payload) [
    | none ↦ emit (script_log ("[runtime] 解析事件失败: " ++ parse_error payload)) s
    | some event ↦ dispatch_event event s
  ]

  -- processOutputLine of a line without or with the prefix of an event, and behind the test of the
  -- context.
  unfoldable pub process_known : Option String → String → ScriptContext → Session → Session
  unfolding handle_runtime_event log_line
  process_known none line c s = log_line line c s
  process_known (some payload) line c s = handle_runtime_event payload s

  unfoldable pub process_in : Option ScriptContext → String → Session → Session
  unfolding process_known
  process_in none line s = s
  process_in (some c) line s = process_known (after_prefix runtime_event_prefix line) line c s

  unfoldable pub process_output_line : String → Session → Session
  unfolding process_in
  process_output_line line s = process_in s.context line s

  -- What the loop of processOutputBytes does with a line's bytes.
  unfoldable pub deliver_line : List ℕ → Session → Session
  unfolding process_output_line
  deliver_line bytes s =
      let line = q.trimmed (utf8 bytes) in if line == "" then s else process_output_line line s

  unfoldable pub read_stdout : List ℕ → ScriptExecutor → ScriptExecutor
  read_stdout bytes x =
      let r = process_output_bytes deliver_line bytes x.stdout_buffer x.session in
      record x { session = r.0; stdout_buffer = r.1 }

  unfoldable pub read_stderr : List ℕ → ScriptExecutor → ScriptExecutor
  read_stderr bytes x =
      let r = process_output_bytes deliver_line bytes x.stderr_buffer x.session in
      record x { session = r.0; stderr_buffer = r.1 }

  -- onProcessOutput, with what the two streams hold.
  unfoldable pub on_process_output : List ℕ → List ℕ → ScriptExecutor → ScriptExecutor
  unfolding read_stdout read_stderr is_attached
  on_process_output out err x =
      if is_attached x.session then read_stderr err (read_stdout out x) else x
