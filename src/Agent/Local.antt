-- ===== src/Agent/Local.antt =====
-- LocalhostAgent of src/flowagent/agents/localhost_agent.cpp: media players and scripts of the machine
-- itself. The files and what becomes of a program are arguments.
use Prim.Native.String.{◌++◌}
use text.Mathlib.Text.{◌==◌}
use mathlib.Core.List.{◌++◌ as list_append}
use xreal_bsp_rgb_tool.Prelude.{
  ℕ, ◌*◌, Bool, true, false, not, List, [], ◌∷◌, Option, none, some, String, if◌then◌else◌,
}
use xreal_bsp_rgb_tool.Prelude.Int.{pos}
use xreal_bsp_rgb_tool.Prelude.Maps.{lookup, insert}
use xreal_bsp_rgb_tool.Platform.{Text, JsonLib}
use xreal_bsp_rgb_tool.Manager.Fields.{◌>>=◌, Fields, value_text}
use xreal_bsp_rgb_tool.Manager.Agents.{CmdReply}
use xreal_bsp_rgb_tool.Agent.Base.{cmd_result}
use xreal_bsp_rgb_tool.Agent.Launch.{Shell}

-- What the agent makes the machine run: a program that it leaves alone, one that it waits for, and the
-- end of a script that took too long.
pub data LocalEffect : Type 0 where
  detached : String → List String → LocalEffect
  ran : String → List String → LocalEffect
  killed_script : LocalEffect

pub record LocalhostAgent : Type 0 where
  pub name : String
  pub scripts_dir : String
  pub is_connected : Bool

-- The end of a script: it takes too long or does not start, or it exits with a success or not and what it has printed.
pub data ScriptEnd : Type 0 where
  too_long : ScriptEnd
  exited_well : ScriptEnd
  exited_badly : String → String → ScriptEnd

-- `exists` is QFileInfo::exists, `kills` whether pkill -9 of a program ends with code 0 in 2 seconds,
-- `script_end` what a script does within a time in milliseconds.
pub record LocalOutside : Type 0 where
  pub exists : String → Bool
  pub kills : String → Bool
  pub script_end : String → List String → ℕ → ScriptEnd

unfoldable pub local_connect : LocalhostAgent → LocalhostAgent × Bool × String
local_connect a = (record a { is_connected = true }, true, "Localhost agent ready")

unfoldable pub local_disconnect : LocalhostAgent → LocalhostAgent × Bool × String
local_disconnect a = (record a { is_connected = false }, true, "Disconnected")

-- The texts with ", " between them.
unfoldable pub join_names : List String → String
join_names [] = ""
join_names (n ∷ []) = n
join_names (n ∷ m ∷ ns) = n ++ ", " ++ join_names (m ∷ ns)

-- The programs that were ended.
unfoldable pub stop_targets : (String → Bool) → List String → List String
stop_targets kills [] = []
stop_targets kills (t ∷ ts) = if kills t then t ∷ stop_targets kills ts else stop_targets kills ts

unfoldable pub kill_targets : List String → List LocalEffect
kill_targets [] = []
kill_targets (t ∷ ts) = ran "pkill" ("-9" ∷ t ∷ []) ∷ kill_targets ts

abbrev pub estop_targets : List String
estop_targets = "vlc" ∷ "mpv" ∷ "mplayer" ∷ "ffplay" ∷ []

module _ (q : Text) (sh : Shell) (J : JsonLib) (what : String → String)
    (is_null : J.Json → Bool) where
  open J use {Json, as_object, as_array, as_string, of_text, of_fields, null}

  -- What a command makes run, in order, with its reply; none where it throws.
  abbrev pub Performed : Type 0
  Performed = Option (List LocalEffect × CmdReply Json)

  abbrev say : Bool → String → CmdReply Json
  say b m = cmd_result q J what b m null

  unfoldable pub cmd_check : Performed
  cmd_check = some ([], say true "Localhost is ready")

  unfoldable pub cmd_estop : LocalOutside → Performed
  unfolding kill_targets stop_targets join_names
  cmd_estop o =
      let stopped = stop_targets o.kills estop_targets in
      some (
        kill_targets estop_targets,
        say true (elim stopped [
          | [] ↦ "Estop completed. No running processes found"
          | t ∷ ts ↦ "Estop completed. Stopped: " ++ join_names (t ∷ ts)
        ]),
      )

  -- A file that is given and exists is opened by the player; `before` are the player's own arguments.
  unfoldable pub play :
      LocalOutside → (String → List String) → String → String → Fields J → Performed
  unfolding value_text
  play o before kind missing params = do
    file ← value_text J "file" "" params
    (if file == ""
        then some ([], say false "Missing 'file' parameter")
        else if not (o.exists file)
        then some ([], say false (missing ++ file))
        else (do
          player ← value_text J "player" "xdg-open" params
          some (
            detached player (list_append (before player) (file ∷ [])) ∷ [],
            say true (kind ++ file),
          )))

  unfoldable pub cmd_play_video : LocalOutside → Json → Performed
  unfolding play
  cmd_play_video o params = do
    fields ← as_object params
    play o (λ player. []) "Video playing: " "Video file not found: " fields

  unfoldable pub audio_options : String → List String
  audio_options player = if player == "mpv" then "--no-video" ∷ [] else []

  unfoldable pub cmd_play_audio : LocalOutside → Json → Performed
  unfolding play audio_options
  cmd_play_audio o params = do
    fields ← as_object params
    play o audio_options "Audio playing: " "Audio file not found: " fields

  unfoldable pub arg_texts : List Json → Option (List String)
  arg_texts [] = some []
  arg_texts (j ∷ js) = do t ← as_string j; ts ← arg_texts js; some (t ∷ ts)

  unfoldable pub script_args : Fields J → Option (List String)
  unfolding arg_texts
  script_args params = elim (lookup "args" params) [
    | none ↦ some []
    | some v ↦ elim (as_array v) [ none ↦ some [] | some js ↦ arg_texts js ]
  ]

  -- The program for a script with its arguments.
  unfoldable pub script_program : String → List String → String × List String
  script_program path args =
      if sh.ends_with path ".sh"
      then ("bash", path ∷ args)
      else if sh.ends_with path ".py"
      then ("python3", path ∷ args)
      else (path, args)

  unfoldable pub script_reply :
      ScriptEnd → ℕ → String → List String → List LocalEffect × CmdReply Json
  script_reply too_long timeout program args = (
    ran program args ∷ killed_script ∷ [],
    say false ("Script timeout after " ++ q.number (pos timeout) ++ "s"),
  )
  script_reply exited_well timeout program args =
      (ran program args ∷ [], say true "Script executed successfully")
  script_reply (exited_badly error output) timeout program args = (
    ran program args ∷ [],
    cmd_result q J what false "Script failed"
        (of_fields (("error", of_text error) ∷ ("output", of_text output) ∷ [])),
  )

  unfoldable pub start_script :
      LocalOutside → Bool → ℕ → String → String × List String → List LocalEffect × CmdReply Json
  unfolding script_reply
  start_script o wait timeout script (program, args) =
      if wait
      then script_reply (o.script_end program args (timeout * 1000)) timeout program args
      else (detached program args ∷ [], say true ("Script started in background: " ++ script))

  -- The path in the directory of the scripts if there is such a file, else the name itself.
  unfoldable pub local_script_path : LocalOutside → LocalhostAgent → String → String
  local_script_path o a script =
      let path = sh.file_path a.scripts_dir script in if o.exists path then path else script

  unfoldable pub run_script : LocalOutside → LocalhostAgent → Bool → ℕ → Fields J → Performed
  unfolding local_script_path script_args script_program start_script value_text
  run_script o a wait timeout params = do
    script ← value_text J "script" "" params
    (if script == ""
        then some ([], say false "Missing 'script' parameter")
        else if not (o.exists (local_script_path o a script))
        then some ([], say false ("Script not found: " ++ script))
        else (do
          args ← script_args params
          some (
              start_script o wait timeout script
                (script_program (local_script_path o a script) args))))

  unfoldable pub cmd_run_script : LocalOutside → LocalhostAgent → Bool → ℕ → Json → Performed
  unfolding run_script
  cmd_run_script o a wait timeout params = do
    fields ← as_object params
    run_script o a wait timeout fields

  unfoldable pub cmd_stop_all : Performed
  cmd_stop_all = some (
    ran "pkill" ("vlc" ∷ []) ∷ ran "pkill" ("mpv" ∷ []) ∷ ran "pkill" ("mplayer" ∷ []) ∷ [],
    say true "Stop commands sent",
  )

  -- `params["script"] = name`: a null becomes an object, what is no object throws.
  unfoldable pub with_script : String → Json → Option (Fields J)
  with_script name params =
      if is_null params
      then some (("script", of_text name) ∷ [])
      else (do fields ← as_object params; some (insert "script" (of_text name) fields))

  -- LocalhostAgent::cmd; the time is in seconds.
  unfoldable pub local_cmd : LocalOutside → LocalhostAgent → String → Json → Bool → ℕ → Performed
  unfolding cmd_check cmd_estop cmd_play_video cmd_play_audio cmd_run_script cmd_stop_all
      with_script run_script
  local_cmd o a name params wait timeout =
      if name == "check"
      then cmd_check
      else if name == "estop"
      then cmd_estop o
      else if name == "play_video"
      then cmd_play_video o params
      else if name == "play_audio"
      then cmd_play_audio o params
      else if name == "run_script"
      then cmd_run_script o a wait timeout params
      else if name == "stop_all"
      then cmd_stop_all
      else (do fields ← with_script name params; run_script o a wait timeout fields)
