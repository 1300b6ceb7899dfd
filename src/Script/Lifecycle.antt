-- ===== src/Script/Lifecycle.antt =====
-- ScriptExecutor: loading a script, starting, stopping and the end of its process. What the files and
-- the process do is an argument.
use Prim.Native.String.{◌++◌}
use text.Mathlib.Text.{◌==◌}
use xreal_bsp_rgb_tool.Prelude.{
  ℕ, suc, Bool, true, false, not, ◌&&◌, List, [], ◌∷◌, Option, none, some, String, if◌then◌else◌,
  leb, ◌==◌ as nat_eq,
}
use xreal_bsp_rgb_tool.Prelude.Int.{ℤ, pos, negsuc}
use xreal_bsp_rgb_tool.Prelude.Maps.{lookup, insert}
use xreal_bsp_rgb_tool.Platform.{Text, JsonLib}
use xreal_bsp_rgb_tool.Script.Executor.{
  ScriptContext, not_running, running, script_started, script_completed, terminate, kill, Session,
  ScriptExecutor, emit, is_active, process_output_line,
}

-- What loadScript finds at a path: the bytes of the code, if the file can be opened.
pub record FileAnswer : Type 0 where
  pub exists_file : Bool
  pub suffix : String
  pub content : Option (List ℕ)

pub data LoadResult : Type 0 where
  loaded : List ℕ → LoadResult
  refused : String → LoadResult

-- loadScript
unfoldable pub load_script : FileAnswer → String → LoadResult
load_script f path =
    if not f.exists_file
    then refused ("文件不存在: " ++ path)
    else if not (f.suffix == "py")
    then refused ("不是 Python 文件: " ++ path)
    else elim f.content [ none ↦ refused ("无法打开文件: " ++ path) | some code ↦ loaded code ]

newlines : List ℕ → ℕ
newlines [] = 0
newlines (c ∷ cs) = let n = newlines cs in if nat_eq c 10 then suc n else n

total_lines_of : LoadResult → ℕ
unfolding newlines
total_lines_of (loaded code) = suc (newlines code)
total_lines_of (refused error) = 0

-- The environment that startProcess gives the process: the command's entries over the system's, where
-- PYTHONPATH is put in front of an existing one.
unfoldable pub process_environment :
    String → List (String × String) → List (String × String) → List (String × String)
process_environment separator [] environment = environment
process_environment separator ((key, value) ∷ entries) environment =
    let existing : String = elim (lookup "PYTHONPATH" environment) [ none ↦ "" | some old ↦ old ] in
    process_environment separator entries (
      insert key
        (if key == "PYTHONPATH"
          then (if existing == "" then value else value ++ (separator ++ existing))
          else value)
        environment)

unfoldable pub set_running : Bool → ScriptContext → ScriptContext
set_running b c = record c { is_running = b }

unfoldable pub stop_context : Option ScriptContext → Option ScriptContext
unfolding set_running
stop_context none = none
stop_context (some c) = some (set_running false c)

unfoldable pub fail_context : String → Option ScriptContext → Option ScriptContext
fail_context error none = none
fail_context error (some c) = some (record c { is_running = false; error = error })

unfoldable pub failed_start : String → String
failed_start path = "Failed to start process for " ++ path

-- What waitForStarted(5000) meets: the process starts, it cannot be started, or it still starts when the
-- time is over.
pub data Start : Type 0 where
  started refused_start timed_out_start : Start

-- startProcess where the wait fails.
unfoldable pub report_failed_start : String → Session → Session
unfolding emit fail_context failed_start
report_failed_start path s =
    emit (script_completed false (failed_start path))
      (record s { context = fail_context (failed_start path) s.context })

-- startProcess behind the set-up of the process, whose start is awaited. One whose start takes too long is
-- reported as failed, and stays the executor's process.
unfoldable pub await_started : Start → String → Session → Session
unfolding emit report_failed_start
await_started started path s = emit (script_started path) (record s { process = some running })
await_started refused_start path s = report_failed_start path s
await_started timed_out_start path s =
    report_failed_start path (record s { process = some running })

-- stopScript
unfoldable pub stop_script : Session → Session
unfolding emit is_active stop_context
stop_script s =
    let asked =
      if is_active s.process && not s.stop_requested
      then emit terminate (record s { stop_requested = true })
      else s in
    record asked { context = stop_context asked.context }

-- The timer that stopScript sets, for the process that still is the executor's (`same`).
unfoldable pub kill_timer : Bool → Session → Session
unfolding emit is_active
kill_timer same s = if s.stop_requested && same && is_active s.process then emit kill s else s

unfoldable pub new_context : FileAnswer → String → ScriptContext
unfolding load_script total_lines_of
new_context file path = record {
  script_path = path;
  output = [];
  error = "";
  is_running = true;
  total_lines = total_lines_of (load_script file path);
}

unfoldable pub begin_script : FileAnswer → String → Session → Session
unfolding stop_script is_active new_context
begin_script file path s = record (if is_active s.process then stop_script s else s) {
  context = some (new_context file path);
  stop_requested = false;
}

unfoldable pub on_session : (Session → Session) → ScriptExecutor → ScriptExecutor
on_session f x = record x { session = f x.session }

-- setRuntimeDeviceInfo
unfoldable pub set_runtime_device_info : String → String → String → Session → Session
set_runtime_device_info name fsn label s = record s {
  device = record {
    runtime_agent_name = name;
    runtime_glasses_fsn = fsn;
    runtime_glasses_product_label = label;
  };
}

-- `buffer.trimmed().isEmpty()` of a QByteArray.
unfoldable pub is_blank : List ℕ → Bool
is_blank [] = true
is_blank (b ∷ bs) = (if nat_eq b 32 then true else leb 9 b && leb b 13) && is_blank bs

-- The signal `finished`: the exit code, and whether the exit was normal.
pub record Finish : Type 0 where
  pub exit_code : ℤ
  pub normal_exit : Bool

unfoldable pub is_zero : ℤ → Bool
is_zero (pos n) = nat_eq n 0
is_zero (negsuc n) = false

-- The context's error that onProcessFinished leaves, over the old one.
unfoldable pub finish_error : Text → Finish → Bool → String → String
unfolding is_zero
finish_error q f stopped error =
    if stopped
    then "Script stopped by user"
    else if is_zero f.exit_code && f.normal_exit
    then error
    else "Process exited with code " ++ q.number f.exit_code

unfoldable pub finish_success : Finish → Bool → Bool
unfolding is_zero
finish_success f stopped = not stopped && (is_zero f.exit_code && f.normal_exit)

-- onProcessFinished from where the buffers are cleared, for the context that it tests.
unfoldable pub conclude_in : Option ScriptContext → Text → Finish → Session → Session
unfolding emit finish_error finish_success
conclude_in none q f s = s
conclude_in (some c) q f s =
    let error = finish_error q f s.stop_requested c.error in
    record (emit (script_completed (finish_success f s.stop_requested) error) s) {
      context = some (record c { is_running = false; error = error });
      stop_requested = false;
    }

unfoldable pub conclude : Text → Finish → Session → Session
unfolding conclude_in
conclude q f s = conclude_in s.context q f s

module _ (q : Text) (J : JsonLib) (utf8 : List ℕ → String) (sha1_hex : String → String)
    (parse_error : String → String) where
  -- What is left of a stream, as its last line.
  unfoldable pub flush : List ℕ → Session → Session
  unfolding is_blank
  flush buffer s =
      if is_blank buffer
      then s
      else process_output_line q J utf8 sha1_hex parse_error (q.trimmed (utf8 buffer)) s

  -- onProcessFinished, for the context that it tests.
  unfoldable pub finish_in : Option ScriptContext → Finish → ScriptExecutor → ScriptExecutor
  unfolding flush conclude
  finish_in none f x = x
  finish_in (some c) f x = record {
    session = conclude q f (flush x.stderr_buffer (flush x.stdout_buffer x.session));
    stdout_buffer = [];
    stderr_buffer = [];
  }

  unfoldable pub on_process_finished : Finish → ScriptExecutor → ScriptExecutor
  unfolding finish_in
  on_process_finished f x = finish_in x.session.context f x

  -- A process that ends: it runs no more, and its signal arrives.
  unfoldable pub process_ends : Finish → ScriptExecutor → ScriptExecutor
  unfolding on_process_finished
  process_ends f x =
      on_process_finished f (record x { session = record x.session { process = some not_running } })

  -- A new process takes the old one's place. An old one that still runs is destroyed then; `dying` is
  -- the signal that it gives, if it gives one.
  unfoldable pub replace_process : Option Finish → ScriptExecutor → ScriptExecutor
  unfolding on_process_finished
  replace_process dying x =
      let fresh = record x { session = record x.session { process = some not_running } } in
      elim dying [ none ↦ fresh | some f ↦ on_process_finished f fresh ]

  -- executeCommand
  unfoldable pub execute_command :
      FileAnswer → Option Finish → Start → String → ScriptExecutor → ScriptExecutor
  unfolding begin_script replace_process await_started on_session
  execute_command file dying start path x =
      on_session (await_started start path)
        (replace_process dying (on_session (begin_script file path) x))
