-- ===== src/Script/Stream.antt =====
-- The output of a script's process that arrives in pieces, as onProcessOutput reads it.
use xreal_bsp_rgb_tool.Prelude.{
  ℕ, zero, suc, ◌≡◌, refl, sym, ap, ◌∙◌, Bool, true, false, List, [], ◌∷◌, ◌++◌, Option, none, some,
  String, length, Bool-cases, Option-cases, inl, inr,
}
use xreal_bsp_rgb_tool.Platform.{Text, JsonLib}
use xreal_bsp_rgb_tool.Script.Lines.{split_line, process_output_bytes, process_chunks, drain}
use xreal_bsp_rgb_tool.Script.Chunks.{flatten, NoLine, process_chunks-lines_of}
use xreal_bsp_rgb_tool.Script.Executor.{
  ScriptContext, ProcessState, Session, ScriptExecutor, is_attached, deliver_line,
  on_process_output, read_stdout, read_stderr,
}
use xreal_bsp_rgb_tool.Script.Frame.{Frame, frame, frame-deliver, summary}

-- Whether a frame has a process and a context.
attached_frame : Frame → Bool
attached_frame f = elim f.process [
  | none ↦ false
  | some p ↦ elim f.context [ none ↦ false | some c ↦ true ]
]

attached-summary :
    (p : Option ProcessState) (c : Option ScriptContext)
    → elim p [ none ↦ false | some p ↦ elim c [ none ↦ false | some c ↦ true ] ]
      ≡ elim p [ none ↦ false | some p ↦ elim (summary c) [ none ↦ false | some c ↦ true ] ]
unfolding summary
attached-summary none c = refl
attached-summary (some p) none = refl
attached-summary (some p) (some c) = refl

attached-frame : (s : Session) → is_attached s ≡ attached_frame (frame s)
unfolding is_attached attached_frame frame
attached-frame s = attached-summary s.process s.context

module _ (q : Text) (J : JsonLib) (utf8 : List ℕ → String) (sha1_hex : String → String)
    (parse_error : String → String) where
  abbrev deliver : List ℕ → Session → Session
  deliver = deliver_line q J utf8 sha1_hex parse_error

  frame-drain :
      (fuel : ℕ) (buffer : List ℕ) (s : Session) → frame (drain deliver fuel buffer s).0 ≡ frame s
  unfolding drain
  frame-drain zero buffer s = refl
  frame-drain (suc fuel) buffer s = elim (Option-cases (split_line buffer)) [
    | inl e ↦ rw (e, drain) refl
    | inr ((l, r), e) ↦
        rw (e, drain)
          (frame-drain fuel r (deliver l s) ∙ frame-deliver q J utf8 sha1_hex parse_error l s)
  ]

  pub frame-bytes :
      (chunk buffer : List ℕ) (s : Session)
      → frame (process_output_bytes deliver chunk buffer s).0 ≡ frame s
  unfolding process_output_bytes
  frame-bytes [] buffer s = refl
  frame-bytes (b ∷ chunk) buffer s =
      frame-drain (suc (length (buffer ++ b ∷ chunk))) (buffer ++ b ∷ chunk) s

  attached-bytes :
      (chunk buffer : List ℕ) (s : Session)
      → is_attached (process_output_bytes deliver chunk buffer s).0 ≡ is_attached s
  attached-bytes chunk buffer s =
      attached-frame _ ∙ ap attached_frame (frame-bytes chunk buffer s) ∙ sym (attached-frame s)

  -- What onProcessOutput makes of the chunks of one stream, the other one silent.
  unfoldable pub read_outputs : List (List ℕ) → ScriptExecutor → ScriptExecutor
  read_outputs [] x = x
  read_outputs (chunk ∷ chunks) x =
      read_outputs chunks (on_process_output q J utf8 sha1_hex parse_error chunk [] x)

  read_outputs-detached :
      (chunks : List (List ℕ)) (x : ScriptExecutor)
      → is_attached x.session ≡ false
      → read_outputs chunks x ≡ x
  unfolding read_outputs on_process_output
  read_outputs-detached [] x e = refl
  read_outputs-detached (chunk ∷ chunks) x e = rw e (read_outputs-detached chunks x e)

  attached_output :
      (chunk : List ℕ) (x : ScriptExecutor)
      → is_attached x.session ≡ true
      → on_process_output q J utf8 sha1_hex parse_error chunk [] x
        ≡ read_stdout q J utf8 sha1_hex parse_error chunk x
  unfolding on_process_output read_stderr read_stdout process_output_bytes
  attached_output chunk x e = rw e refl

  read_outputs-chunks :
      (chunks : List (List ℕ)) (x : ScriptExecutor)
      → is_attached x.session ≡ true
      → read_outputs chunks x ≡ record x {
        session = (process_chunks deliver chunks x.stdout_buffer x.session).0;
        stdout_buffer = (process_chunks deliver chunks x.stdout_buffer x.session).1;
      }
  unfolding read_outputs process_chunks read_stdout
  read_outputs-chunks [] x e = refl
  read_outputs-chunks (chunk ∷ chunks) x e =
      ap (read_outputs chunks) (attached_output chunk x e)
      ∙ read_outputs-chunks chunks (read_stdout q J utf8 sha1_hex parse_error chunk x)
          (attached-bytes chunk x.stdout_buffer x.session ∙ e)

  -- Two ways to cut the same bytes of the standard output into chunks leave the executor the same, if
  -- its buffer holds no newline.
  pub read_outputs-flatten :
      (chunks other : List (List ℕ)) (x : ScriptExecutor)
      → NoLine x.stdout_buffer
      → flatten chunks ≡ flatten other
      → read_outputs chunks x ≡ read_outputs other x
  read_outputs-flatten chunks other x h e = elim (Bool-cases (is_attached x.session)) [
    | inl a ↦
        read_outputs-chunks chunks x a
        ∙ rw (process_chunks-lines_of deliver chunks x.stdout_buffer x.session h)
            (rw e (rw (process_chunks-lines_of deliver other x.stdout_buffer x.session h) refl))
        ∙ sym (read_outputs-chunks other x a)
    | inr a ↦ read_outputs-detached chunks x a ∙ sym (read_outputs-detached other x a)
  ]
