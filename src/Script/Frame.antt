-- ===== src/Script/Frame.antt =====
-- What a printed line leaves alone: the process, the wish to stop it, what the context says but for its
-- output, and the completions that were reported.
use text.Mathlib.Text.{◌==◌}
use xreal_bsp_rgb_tool.Prelude.{
  ℕ, ◌≡◌, refl, ◌∙◌, Bool, List, [], ◌∷◌, Option, none, some, String, Bool-cases, Option-cases, inl,
  inr,
}
use xreal_bsp_rgb_tool.Platform.{Text, JsonLib}
use xreal_bsp_rgb_tool.Script.Dialog.{Response, json_string}
use xreal_bsp_rgb_tool.Script.Executor.{
  ScriptContext, ProcessState, ScriptEffect, script_completed, Session, is_active, after_prefix,
  runtime_event_prefix, send_runtime_response, log_line, handle_dialog_event, handle_workflow_event,
  dispatch_event, handle_runtime_event, process_known, process_in, process_output_line,
  deliver_line, emit,
}

unfoldable pub completions : List ScriptEffect → List (Bool × String)
completions [] = []
completions (script_completed success error ∷ rest) = (success, error) ∷ completions rest
completions (_ ∷ rest) = completions rest

-- Path, error, whether it runs, and the number of lines.
unfoldable pub summary : Option ScriptContext → Option (String × String × Bool × ℕ)
summary none = none
summary (some c) = some (c.script_path, c.error, c.is_running, c.total_lines)

pub record Frame : Type 0 where
  pub process : Option ProcessState
  pub stop_requested : Bool
  pub context : Option (String × String × Bool × ℕ)
  pub reports : List (Bool × String)

unfoldable pub frame : Session → Frame
unfolding summary completions
frame s = record {
  process = s.process;
  stop_requested = s.stop_requested;
  context = summary s.context;
  reports = completions s.effects;
}

frame-send : (r : Response) (s : Session) → frame (send_runtime_response r s) ≡ frame s
unfolding frame send_runtime_response completions emit
frame-send r s = elim (Bool-cases (is_active s.process)) [ inl e ↦ rw e refl | inr e ↦ rw e refl ]

frame-log :
    (line : String) (c : ScriptContext) (s : Session)
    → s.context ≡ some c
    → frame (log_line line c s) ≡ frame s
unfolding frame log_line completions emit summary
frame-log line c s e = rw e refl

module _ (q : Text) (J : JsonLib) (utf8 : List ℕ → String) (sha1_hex : String → String)
    (parse_error : String → String) where
  frame-dialog :
      (event : J.Json) (s : Session)
      → frame (handle_dialog_event q J utf8 sha1_hex parse_error event s) ≡ frame s
  unfolding handle_dialog_event frame completions emit
  frame-dialog event s = frame-send _ _ ∙ refl

  frame-workflow :
      (event : J.Json) (s : Session)
      → frame (handle_workflow_event q J utf8 sha1_hex parse_error event s) ≡ frame s
  unfolding handle_workflow_event frame completions emit
  frame-workflow event s = elim (Bool-cases (json_string q J event "action" "" == "clear")) [
    | inl e ↦ rw e refl
    | inr e ↦ rw e refl
  ]

  frame-dispatch :
      (event : J.Json) (s : Session)
      → frame (dispatch_event q J utf8 sha1_hex parse_error event s) ≡ frame s
  unfolding dispatch_event
  frame-dispatch event s = elim (Bool-cases (json_string q J event "type" "" == "dialog")) [
    | inl e ↦ rw e (frame-dialog event s)
    | inr e ↦ elim (Bool-cases (json_string q J event "type" "" == "workflow")) [
      | inl k ↦ rw (e, k) (frame-workflow event s)
      | inr k ↦ rw (e, k) refl
    ]
  ]

  frame-event :
      (payload : String) (s : Session)
      → frame (handle_runtime_event q J utf8 sha1_hex parse_error payload s) ≡ frame s
  unfolding handle_runtime_event frame completions emit
  frame-event payload s = elim (Option-cases (J.parse payload)) [
    | inl e ↦ rw (e, handle_runtime_event) refl
    | inr (event, e) ↦ rw (e, handle_runtime_event) (frame-dispatch event s)
  ]

  frame-known :
      (payload : Option String) (line : String) (c : ScriptContext) (s : Session)
      → s.context ≡ some c
      → frame (process_known q J utf8 sha1_hex parse_error payload line c s) ≡ frame s
  unfolding process_known
  frame-known none line c s e = frame-log line c s e
  frame-known (some payload) line c s e = frame-event payload s

  frame-in :
      (context : Option ScriptContext) (line : String) (s : Session)
      → s.context ≡ context
      → frame (process_in q J utf8 sha1_hex parse_error context line s) ≡ frame s
  unfolding process_in
  frame-in none line s e = refl
  frame-in (some c) line s e = frame-known (after_prefix runtime_event_prefix line) line c s e

  pub frame-line :
      (line : String) (s : Session)
      → frame (process_output_line q J utf8 sha1_hex parse_error line s) ≡ frame s
  unfolding process_output_line
  frame-line line s = frame-in s.context line s refl

  pub frame-deliver :
      (bytes : List ℕ) (s : Session)
      → frame (deliver_line q J utf8 sha1_hex parse_error bytes s) ≡ frame s
  unfolding deliver_line
  frame-deliver bytes s = elim (Bool-cases (q.trimmed (utf8 bytes) == "")) [
    | inl e ↦ rw e refl
    | inr e ↦ rw e (frame-line (q.trimmed (utf8 bytes)) s)
  ]
