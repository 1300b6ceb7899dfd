-- ===== src/Script/Sound.antt =====
-- What holds of a script executor after any sequence of calls, signals and timers.
use xreal_bsp_rgb_tool.Prelude.{
  ℕ, ◌+◌, ◌≤◌, ◌≡◌, refl, sym, ap, ◌∙◌, subst, Bool, true, false, not, ◌&&◌, ◌||◌, List, ◌∷◌,
  Option, none, some, String, if◌then◌else◌, length, arith, Bool-cases, inl, inr,
}
use xreal_bsp_rgb_tool.Platform.{Text, JsonLib}
use xreal_bsp_rgb_tool.Script.Executor.{
  ScriptContext, not_running, running, Session, ScriptExecutor, is_active, on_process_output,
  is_attached, emit, read_stdout, read_stderr,
}
use xreal_bsp_rgb_tool.Script.Lifecycle.{
  Start, started, refused_start, timed_out_start, report_failed_start, FileAnswer, Finish,
  stop_script, kill_timer, execute_command, replace_process, begin_script, await_started,
  fail_context, failed_start, new_context, stop_context, on_session, set_running,
}
use xreal_bsp_rgb_tool.Script.Frame.{Frame, frame, completions, summary}
use xreal_bsp_rgb_tool.Script.Stream.{frame-bytes}
use xreal_bsp_rgb_tool.Script.Runs.{finished_frame, finished_in, on_process_finished-frame}

abbrev Summary : Type 0
Summary = Option (String × String × Bool × ℕ)

unfoldable pub runs : Summary → Bool
runs none = false
runs (some (path, error, b, lines)) = b

unfoldable pub known : Summary → Bool
known none = false
known (some v) = true

unfoldable pub implies : Bool → Bool → Bool
implies a b = not a || b

unfoldable pub count : Bool → ℕ
count true = 1
count false = 0

-- Of an executor whose executions may cause `n` completions: a stop is asked for only while the process
-- runs, a context that says it runs has a process that does, a process that runs has a context, and the
-- completions that were reported are, with one for a process that runs, no more than `n`.
abbrev pub Sound : Frame → ℕ → Type 0
Sound p n =
    (implies p.stop_requested (is_active p.process) ≡ true)
    × (implies (runs p.context) (is_active p.process) ≡ true)
    × (implies (is_active p.process) (known p.context) ≡ true)
    × (length p.reports + count (is_active p.process) ≤ n)

-- The old process gives its signal only if there is one that runs.
unfoldable pub may_die : Bool → Option Finish → Bool
may_die active none = true
may_die active (some f) = active

pub finish-Sound :
    (q : Text) (f : Finish) (o : Summary) (p : Frame) (n : ℕ)
    → implies (is_active p.process) (known o) ≡ true
    → length p.reports + count (is_active p.process) ≤ n
    → is_active p.process ≡ true
    → Sound (finished_in o q f (record p { process = some not_running })) n
unfolding finished_in is_active implies known runs count
finish-Sound q f none p n h k e = ground (arith, h, e)
finish-Sound q f (some v) p n h k e = (refl, refl, refl, ground (arith, e, k))

-- The frame behind stopScript.
stopped_summary : Summary → Summary
stopped_summary none = none
stopped_summary (some (path, error, b, lines)) = some (path, error, false, lines)

abbrev stopped_frame : Frame → Frame
stopped_frame p = record p {
  stop_requested = is_active p.process || p.stop_requested;
  context = stopped_summary p.context;
}

stop_context-summary :
    (o : Option ScriptContext) → summary (stop_context o) ≡ stopped_summary (summary o)
unfolding summary stop_context set_running stopped_summary
stop_context-summary none = refl
stop_context-summary (some c) = refl

frame-stop : (s : Session) → frame (stop_script s) ≡ stopped_frame (frame s)
unfolding frame stop_script emit completions
frame-stop s = elim (Bool-cases (is_active s.process)) [
  | inl e ↦ elim (Bool-cases s.stop_requested) [
    | inl k ↦ rw (e, k, stop_context-summary s.context) refl
    | inr k ↦ rw (e, k, stop_context-summary s.context) refl
  ]
  | inr e ↦ rw (e, stop_context-summary s.context) refl
]

runs-stopped : (o : Summary) → runs (stopped_summary o) ≡ false
unfolding runs stopped_summary
runs-stopped none = refl
runs-stopped (some v) = refl

known-stopped : (o : Summary) → known (stopped_summary o) ≡ known o
unfolding known stopped_summary
known-stopped none = refl
known-stopped (some v) = refl

implies_or : (a b : Bool) → implies b a ≡ true → implies (a || b) a ≡ true
unfolding implies
implies_or true true h = refl
implies_or true false h = refl
implies_or false true h = h
implies_or false false h = refl

implies-true : (b : Bool) → implies b true ≡ true
unfolding implies
implies-true true = refl
implies-true false = refl

pub stop-Sound : (s : Session) (n : ℕ) → Sound (frame s) n → Sound (frame (stop_script s)) n
unfolding implies
stop-Sound s n (h, k, l, m) =
    subst (λ p. Sound p n) (sym (frame-stop s))
      (
        implies_or (is_active (frame s).process) (frame s).stop_requested h,
        rw (runs-stopped (frame s).context) refl,
        rw (known-stopped (frame s).context) l,
        m,
      )

pub kill-frame : (same : Bool) (s : Session) → frame (kill_timer same s) ≡ frame s
unfolding frame kill_timer emit completions
kill-frame same s = elim (Bool-cases (s.stop_requested && same && is_active s.process)) [
  | inl e ↦ rw e refl
  | inr e ↦ rw e refl
]

frame-begin :
    (c : ScriptContext) (s : Session)
    → frame (record (if is_active s.process then stop_script s else s) {
      context = some c;
      stop_requested = false;
    })
      ≡ record (frame s) { context = summary (some c); stop_requested = false }
unfolding frame stop_script emit completions
frame-begin c s = elim (Bool-cases (is_active s.process)) [
  | inl e ↦ elim (Bool-cases s.stop_requested) [ inl k ↦ rw (e, k) refl | inr k ↦ rw (e, k) refl ]
  | inr e ↦ rw e refl
]

unfoldable pub failed_summary : String → Summary → Summary
unfolding failed_start
failed_summary path none = none
failed_summary path (some (p, error, b, lines)) = some (p, failed_start path, false, lines)

fail_context-summary :
    (path : String) (o : Option ScriptContext)
    → summary (fail_context (failed_start path) o) ≡ failed_summary path (summary o)
unfolding summary fail_context failed_summary
fail_context-summary path none = refl
fail_context-summary path (some c) = refl

-- The frame behind startProcess.
unfoldable pub failed_frame : String → Frame → Frame
unfolding failed_summary failed_start
failed_frame path p = record p {
  context = failed_summary path p.context;
  reports = (false, failed_start path) ∷ p.reports;
}

unfoldable pub started_frame : Start → String → Frame → Frame
unfolding failed_frame
started_frame started path p = record p { process = some running }
started_frame refused_start path p = failed_frame path p
started_frame timed_out_start path p = failed_frame path (record p { process = some running })

-- The completions that an execution may cause: one, and two if its start is given up too early.
unfoldable pub completions_of : Start → ℕ
completions_of started = 1
completions_of refused_start = 1
completions_of timed_out_start = 2

frame-await :
    (start : Start) (path : String) (s : Session)
    → frame (await_started start path s) ≡ started_frame start path (frame s)
unfolding frame await_started report_failed_start emit completions started_frame failed_frame
frame-await started path s = refl
frame-await refused_start path s = rw (fail_context-summary path s.context) refl
frame-await timed_out_start path s = rw (fail_context-summary path s.context) refl

-- The frame when a new process has taken the old one's place.
unfoldable pub replaced_frame : Text → Option Finish → Frame → Frame
unfolding finished_frame
replaced_frame q none p = record p { process = some not_running }
replaced_frame q (some f) p = finished_frame q f (record p { process = some not_running })

module _ (q : Text) (J : JsonLib) (utf8 : List ℕ → String) (sha1_hex : String → String)
    (parse_error : String → String) where
  frame-replace :
      (dying : Option Finish) (x : ScriptExecutor)
      → frame (replace_process q J utf8 sha1_hex parse_error dying x).session
        ≡ replaced_frame q dying (frame x.session)
  unfolding replace_process replaced_frame frame
  frame-replace none x = refl
  frame-replace (some f) x =
      on_process_finished-frame q J utf8 sha1_hex parse_error f
        (record x { session = record x.session { process = some not_running } })

  -- The frame behind executeCommand.
  pub frame-execute :
      (file : FileAnswer) (dying : Option Finish) (start : Start) (path : String)
      (x : ScriptExecutor)
      → frame (execute_command q J utf8 sha1_hex parse_error file dying start path x).session
        ≡ started_frame start path (
            replaced_frame q dying (record (frame x.session) {
              context = summary (some (new_context file path));
              stop_requested = false;
            }))
  unfolding execute_command on_session begin_script
  frame-execute file dying start path x =
      let y = on_session (begin_script file path) x in
      frame-await start path (replace_process q J utf8 sha1_hex parse_error dying y).session
      ∙ ap (started_frame start path) (
          frame-replace dying y
          ∙ ap (replaced_frame q dying) (frame-begin (new_context file path) x.session))

  pub execute-Sound :
      (dying : Option Finish) (start : Start) (path : String) (v : String × String × Bool × ℕ)
      (p : Frame) (n : ℕ)
      → may_die (is_active p.process) dying ≡ true
      → length p.reports + count (is_active p.process) ≤ n
      → Sound
          (started_frame start path
            (replaced_frame q dying (record p { context = some v; stop_requested = false })))
          (n + completions_of start)
  unfolding completions_of failed_frame started_frame replaced_frame finished_in finished_frame
      is_active implies known runs count may_die failed_summary
  execute-Sound none started path v p n h k = (refl, implies-true v.2, refl, ground (arith, k))
  execute-Sound none refused_start path v p n h k = (refl, refl, refl, ground (arith, k))
  execute-Sound none timed_out_start path v p n h k = (refl, refl, refl, ground (arith, k))
  execute-Sound (some f) started path v p n h k = (refl, refl, refl, ground (arith, h, k))
  execute-Sound (some f) refused_start path v p n h k = (refl, refl, refl, ground (arith, h, k))
  execute-Sound (some f) timed_out_start path v p n h k = (refl, refl, refl, ground (arith, h, k))

  pub frame-output :
      (out err : List ℕ) (x : ScriptExecutor)
      → frame (on_process_output q J utf8 sha1_hex parse_error out err x).session ≡ frame x.session
  unfolding on_process_output read_stdout read_stderr
  frame-output out err x = elim (Bool-cases (is_attached x.session)) [
    | inl e ↦ rw e (
        frame-bytes q J utf8 sha1_hex parse_error err x.stderr_buffer
          (read_stdout q J utf8 sha1_hex parse_error out x).session
        ∙ frame-bytes q J utf8 sha1_hex parse_error out x.stdout_buffer x.session)
    | inr e ↦ rw e refl
  ]
