-- ===== src/Script/Runs.antt =====
-- The runs of a script executor: how a process ends, and what holds after any sequence of calls and
-- signals.
use xreal_bsp_rgb_tool.Prelude.{
  ℕ, ◌≡◌, refl, sym, ap, ◌∙◌, Bool, false, List, ◌∷◌, Option, none, some, String, Bool-cases, inl,
  inr,
}
use Prim.Native.String.{◌++◌}
use xreal_bsp_rgb_tool.Prelude.{zero, true, ap₂, arith}
use xreal_bsp_rgb_tool.Prelude.Int.{ℤ, pos}
use xreal_bsp_rgb_tool.Platform.{Text, JsonLib}
use xreal_bsp_rgb_tool.Script.Executor.{ScriptContext, Session, ScriptExecutor, emit}
use xreal_bsp_rgb_tool.Script.Lifecycle.{
  Finish, finish_error, finish_success, conclude, conclude_in, flush, on_process_finished,
  finish_in, is_blank, is_zero,
}
use xreal_bsp_rgb_tool.Script.Frame.{Frame, frame, frame-line, completions, summary}

-- The success and the error of an end, by whether a stop was asked for, whether the exit was normal, and
-- its code.
unfoldable pub succeeds : Bool → Bool → ℤ → Bool
succeeds false true (pos zero) = true
succeeds _ _ _ = false

unfoldable pub error_left : (ℤ → String) → Bool → Bool → ℤ → String → String
error_left number true normal code error = "Script stopped by user"
error_left number false true (pos zero) error = error
error_left number false _ code error = "Process exited with code " ++ number code

finish_success-succeeds :
    (f : Finish) (stopped : Bool)
    → finish_success f stopped ≡ succeeds stopped f.normal_exit f.exit_code
unfolding finish_success succeeds is_zero
finish_success-succeeds f stopped = ground arith

finish_error-left :
    (q : Text) (f : Finish) (stopped : Bool) (error : String)
    → finish_error q f stopped error ≡ error_left q.number stopped f.normal_exit f.exit_code error
unfolding finish_error error_left is_zero
finish_error-left q f stopped error = ground arith

-- The frame behind the end of a process, the newest report first, by its context.
unfoldable pub finished_in : Option (String × String × Bool × ℕ) → Text → Finish → Frame → Frame
unfolding succeeds error_left
finished_in none q f p = p
finished_in (some (path, error, b, lines)) q f p =
    let left = error_left q.number p.stop_requested f.normal_exit f.exit_code error in
    record {
      process = p.process;
      stop_requested = false;
      context = some (path, left, false, lines);
      reports = (succeeds p.stop_requested f.normal_exit f.exit_code, left) ∷ p.reports;
    }

unfoldable pub finished_frame : Text → Finish → Frame → Frame
unfolding finished_in
finished_frame q f p = finished_in p.context q f p

conclude-frame :
    (q : Text) (f : Finish) (context : Option ScriptContext) (s : Session)
    → frame (conclude_in context q f s) ≡ finished_in (summary context) q f (frame s)
unfolding frame conclude_in summary finished_in completions emit
conclude-frame q f none s = refl
conclude-frame q f (some c) s =
    ap₂
      (λ (ok : Bool) (error : String). record {
        process = (frame s).process;
        stop_requested = false;
        context = some (c.script_path, error, false, c.total_lines);
        reports = (ok, error) ∷ (frame s).reports;
      })
      (finish_success-succeeds f s.stop_requested) (finish_error-left q f s.stop_requested c.error)

module _ (q : Text) (J : JsonLib) (utf8 : List ℕ → String) (sha1_hex : String → String)
    (parse_error : String → String) where
  frame-flush :
      (buffer : List ℕ) (s : Session)
      → frame (flush q J utf8 sha1_hex parse_error buffer s) ≡ frame s
  unfolding flush
  frame-flush buffer s = elim (Bool-cases (is_blank buffer)) [
    | inl e ↦ rw e refl
    | inr e ↦ rw e (frame-line q J utf8 sha1_hex parse_error (q.trimmed (utf8 buffer)) s)
  ]

  frame-conclude :
      (f : Finish) (s : Session) → frame (conclude q f s) ≡ finished_frame q f (frame s)
  unfolding conclude frame finished_frame
  frame-conclude f s = conclude-frame q f s.context s

  finish_in-frame :
      (context : Option ScriptContext) (f : Finish) (x : ScriptExecutor)
      → x.session.context ≡ context
      → frame (finish_in q J utf8 sha1_hex parse_error context f x).session
        ≡ finished_frame q f (frame x.session)
  unfolding finish_in finished_frame frame summary
  finish_in-frame none f x e = sym (ap (λ o. finished_in (summary o) q f (frame x.session)) e)
  finish_in-frame (some c) f x e =
      let s = flush q J utf8 sha1_hex parse_error x.stdout_buffer x.session in
      frame-conclude f (flush q J utf8 sha1_hex parse_error x.stderr_buffer s)
      ∙ ap (finished_frame q f)
          (frame-flush x.stderr_buffer s ∙ frame-flush x.stdout_buffer x.session)

  pub on_process_finished-frame :
      (f : Finish) (x : ScriptExecutor)
      → frame (on_process_finished q J utf8 sha1_hex parse_error f x).session
        ≡ finished_frame q f (frame x.session)
  unfolding on_process_finished
  on_process_finished-frame f x = finish_in-frame x.session.context f x refl
