-- ===== src/Script/Reach.antt =====
-- The script executors that can be reached by any sequence of calls, signals and timers.
use xreal_bsp_rgb_tool.Prelude.{
  ℕ, ◌+◌, ◌≡◌, refl, sym, subst, Bool, true, false, List, [], Option, none, some, String, arith,
}
use Prim.Native.String.{◌++◌}
use xreal_bsp_rgb_tool.Prelude.{ap, ◌∙◌, false, ◌∷◌}
use xreal_bsp_rgb_tool.Script.Frame.{Frame}
use xreal_bsp_rgb_tool.Script.Runs.{succeeds, error_left}
use xreal_bsp_rgb_tool.Script.Sound.{failed_frame, failed_summary, started_frame, replaced_frame}
use xreal_bsp_rgb_tool.Script.Lifecycle.{timed_out_start, failed_start}
use xreal_bsp_rgb_tool.Platform.{Text, JsonLib}
use xreal_bsp_rgb_tool.Script.History.{Settings}
use xreal_bsp_rgb_tool.Script.Dialog.{Answer, Device}
use xreal_bsp_rgb_tool.Script.Executor.{not_running, ScriptExecutor, is_active, on_process_output}
use xreal_bsp_rgb_tool.Script.Lifecycle.{
  Start, FileAnswer, Finish, set_runtime_device_info, process_ends, stop_script, kill_timer,
  execute_command, new_context, on_session,
}
use xreal_bsp_rgb_tool.Script.Frame.{frame, completions, summary}
use xreal_bsp_rgb_tool.Script.Runs.{finished_frame, finished_in, on_process_finished-frame}
use xreal_bsp_rgb_tool.Script.Sound.{
  Sound, may_die, implies, runs, known, count, finish-Sound, stop-Sound, kill-frame, frame-execute,
  execute-Sound, frame-output, completions_of,
}

module _ (q : Text) (J : JsonLib) (utf8 : List ℕ → String) (sha1_hex : String → String)
    (parse_error : String → String) where
  unfoldable pub new_executor : Device → Settings → List Answer → ScriptExecutor
  new_executor device settings answers = record {
    session = record {
      context = none;
      process = none;
      stop_requested = false;
      device = device;
      settings = settings;
      answers = answers;
      effects = [];
    };
    stdout_buffer = [];
    stderr_buffer = [];
  }

  -- The executors that can be reached, with the number of scripts that were executed, where one counts twice
  -- whose start took longer than waitForStarted waits. A process ends, and gives its signal as it is
  -- destroyed, only while it runs.
  pub data Reachable : ScriptExecutor → ℕ → Type 0 where
    created :
        (device : Device) (settings : Settings) (answers : List Answer)
        → Reachable (new_executor device settings answers) 0
    executed :
        (file : FileAnswer) (dying : Option Finish) (start : Start) (path : String)
        (x : ScriptExecutor) (n : ℕ)
        → Reachable x n
        → may_die (is_active x.session.process) dying ≡ true
        → Reachable
            (execute_command q J utf8 sha1_hex parse_error file dying start path x)
            (n + completions_of start)
    printed :
        (out err : List ℕ) (x : ScriptExecutor) (n : ℕ)
        → Reachable x n
        → Reachable (on_process_output q J utf8 sha1_hex parse_error out err x) n
    ended :
        (f : Finish) (x : ScriptExecutor) (n : ℕ)
        → Reachable x n
        → is_active x.session.process ≡ true
        → Reachable (process_ends q J utf8 sha1_hex parse_error f x) n
    stopped : (x : ScriptExecutor) (n : ℕ) → Reachable x n → Reachable (on_session stop_script x) n
    timed_out :
        (same : Bool) (x : ScriptExecutor) (n : ℕ)
        → Reachable x n
        → Reachable (on_session (kill_timer same) x) n
    named :
        (name fsn label : String) (x : ScriptExecutor) (n : ℕ)
        → Reachable x n
        → Reachable (on_session (set_runtime_device_info name fsn label) x) n

  -- Of every executor that can be reached: a stop is asked for only while its process runs, a context
  -- that says it runs has a process that does, a process that runs has a context, and the completions
  -- that were reported, with one for a process that runs, are no more than the scripts executed, where one
  -- counts twice whose start took longer than the wait for it.
  pub reachable-Sound : (x : ScriptExecutor) (n : ℕ) → Reachable x n → Sound (frame x.session) n
  unfolding on_session process_ends set_runtime_device_info new_executor frame summary completions
      implies runs is_active count known new_context finished_frame finished_in
  reachable-Sound x n (created device settings answers) = (refl, refl, refl, omega arith)
  reachable-Sound y m (executed file dying start path x n r h) =
      let i = reachable-Sound x n r in
      subst (λ p. Sound p (n + completions_of start))
        (sym (frame-execute q J utf8 sha1_hex parse_error file dying start path x))
        (execute-Sound q J utf8 sha1_hex parse_error dying start path
          (path, "", true, (new_context file path).total_lines) (frame x.session) n h i.3)
  reachable-Sound y m (printed out err x n r) =
      subst (λ p. Sound p n) (sym (frame-output q J utf8 sha1_hex parse_error out err x))
        (reachable-Sound x n r)
  reachable-Sound y m (ended f x n r e) =
      let i = reachable-Sound x n r in
      subst (λ p. Sound p n)
        (sym (
          on_process_finished-frame q J utf8 sha1_hex parse_error f
            (record x { session = record x.session { process = some not_running } })))
        (finish-Sound q f (frame x.session).context (frame x.session) n i.2 i.3 e)
  reachable-Sound y m (named name fsn label x n r) = reachable-Sound x n r
  reachable-Sound y m (stopped x n r) = stop-Sound x.session n (reachable-Sound x n r)
  reachable-Sound y m (timed_out same x n r) =
      subst (λ p. Sound p n) (sym (kill-frame same x.session)) (reachable-Sound x n r)

  -- executeCommand of a script whose process takes longer to start than the wait for it, and then runs to
  -- its end, where no older process gives its signal: the one script is reported twice, first as failed,
  -- and then by how it ended, so that an end with code 0 is a success, which carries the text of the failed
  -- start; any other one carries its code.
  pub execute_command-late :
      (f : Finish) (file : FileAnswer) (path : String) (x : ScriptExecutor)
      → (frame
          (process_ends q J utf8 sha1_hex parse_error f (
            execute_command q J utf8 sha1_hex parse_error file none timed_out_start path
              x)).session).reports
        ≡ (
          succeeds false f.normal_exit f.exit_code,
          error_left q.number false f.normal_exit f.exit_code
              ("Failed to start process for " ++ path),
        )
          ∷ (false, "Failed to start process for " ++ path)
          ∷ (frame x.session).reports
  unfolding process_ends started_frame failed_frame failed_summary failed_start replaced_frame
      finished_frame finished_in summary frame
  execute_command-late f file path x =
      let y = execute_command q J utf8 sha1_hex parse_error file none timed_out_start path x in
      ap (λ (p : Frame). p.reports)
        (on_process_finished-frame q J utf8 sha1_hex parse_error f
            (record y { session = record y.session { process = some not_running } })
          ∙ ap (λ (p : Frame). finished_frame q f (record p { process = some not_running }))
              (frame-execute q J utf8 sha1_hex parse_error file none timed_out_start path x))
