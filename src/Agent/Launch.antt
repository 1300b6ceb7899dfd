-- ===== src/Agent/Launch.antt =====
-- The local node of BaseAgent (src/flowagent/agents/base_agent.cpp): how its process is started and
-- ended. Text functions of Qt, the process table, the runtime that XrealRuntimeLocator finds and what
-- becomes of a process are arguments.
use Prim.Native.String.{◌++◌}
use text.Mathlib.Text.{◌==◌}
use mathlib.Core.List.{◌++◌ as list_append}
use xreal_bsp_rgb_tool.Prelude.{
  ℕ, Bool, true, false, not, ◌&&◌, ◌||◌, List, [], ◌∷◌, Option, none, some, String, if◌then◌else◌,
}
use xreal_bsp_rgb_tool.Prelude.{◌==◌ as same_ℕ}
use xreal_bsp_rgb_tool.Prelude.Int.{ℤ, pos, pos_part, neg_part}
use xreal_bsp_rgb_tool.Prelude.Maps.{lookup, insert}
use xreal_bsp_rgb_tool.Platform.{Text}
use xreal_bsp_rgb_tool.Manager.Agents.{CustomValue, custom_text, custom_int, custom_flag}
use xreal_bsp_rgb_tool.Agent.Base.{
  BaseAgent, AgentSettings, AgentEffect, started, executed, terminated, killed, is_remote_mode,
}

-- `lines` and `words` are the splits at line ends and at white space without empty parts, `joined` puts
-- a space between, `to_pid` is toLongLong, `clean` cleanPath.
pub record Shell : Type 0 where
  pub ends_with : String → String → Bool
  pub contains_text : String → String → Bool
  pub lines : String → List String
  pub words : String → List String
  pub joined : List String → String
  pub to_pid : String → Option ℤ
  pub absolute_path : String → String
  pub file_path : String → String → String
  pub clean : String → String

-- What the locator finds.
pub record Runtime : Type 0 where
  pub available : Bool
  pub native_lib_dir : String
  pub qt_lib_dir : String
  pub shiboken_dir : String
  pub qt_plugins_dir : String
  pub runtime_root : String
  pub site_packages_path : String
  pub glasses_server_path : String

-- What launchSubnode meets. `process_table` is what `ps` prints, if it works; `survives` are the
-- processes that are still there after the first signal; `start` is the id of a process that started.
pub record Launching : Type 0 where
  pub entry_exists : Bool
  pub own_pid : ℤ
  pub process_table : Option String
  pub survives : ℤ → Bool
  pub environment : List (String × String)
  pub source_root : String
  pub runtime_at : String → Runtime
  pub is_dir : String → Bool
  pub start : Option ℕ
  pub running_after : Bool

same_ℤ : ℤ → ℤ → Bool
same_ℤ a b = same_ℕ (pos_part a) (pos_part b) && same_ℕ (neg_part a) (neg_part b)

unfoldable pub value_or_empty : String → List (String × String) → String
value_or_empty key m = elim (lookup key m) [ none ↦ "" | some v ↦ v ]

module _ (q : Text) (sh : Shell) where
  open q use {trimmed, number}
  open sh use {
    ends_with, contains_text, lines, words, joined, to_pid, absolute_path, file_path, clean,
  }

  unfoldable pub cleaned_or_empty : String → String
  cleaned_or_empty v = if trimmed v == "" then "" else clean (trimmed v)

  -- QVariant::toString.
  unfoldable pub variant_text : CustomValue → String
  variant_text (custom_text s) = s
  variant_text (custom_int n) = number n
  variant_text (custom_flag b) = if b then "true" else "false"

  -- The process of a line of the table, if it is another node of the same entry and port.
  unfoldable pub stale_pid : ℤ → String → String → List String → Option ℤ
  unfolding same_ℤ
  stale_pid own target flag [] = none
  stale_pid own target flag (word ∷ []) = none
  stale_pid own target flag (word ∷ next ∷ more) = elim (to_pid word) [
    | none ↦ none
    | some pid ↦
        if same_ℤ pid own
        then none
        else if not (contains_text (joined (next ∷ more)) target)
            || not (contains_text (joined (next ∷ more)) flag)
        then none
        else some pid
  ]

  unfoldable pub stale_pids : ℤ → String → String → List String → List ℤ
  unfolding stale_pid
  stale_pids own target flag [] = []
  stale_pids own target flag (line ∷ rest) =
      elim (stale_pid own target flag (words (trimmed line))) [
        | none ↦ stale_pids own target flag rest
        | some pid ↦ pid ∷ stale_pids own target flag rest
      ]

  -- The calls of `kill`, in the order in which they are made.
  unfoldable pub first_signals : List ℤ → List AgentEffect
  first_signals [] = []
  first_signals (pid ∷ pids) = executed "kill" (number pid ∷ []) ∷ first_signals pids

  unfoldable pub last_signals : (ℤ → Bool) → List ℤ → List AgentEffect
  last_signals survives [] = []
  last_signals survives (pid ∷ pids) =
      if survives pid
      then executed "kill" ("-9" ∷ number pid ∷ []) ∷ last_signals survives pids
      else last_signals survives pids

  unfoldable pub cleanup_stale_subnodes : AgentSettings → Launching → List AgentEffect
  unfolding stale_pids first_signals last_signals
  cleanup_stale_subnodes s o = elim o.process_table [
    | none ↦ []
    | some output ↦
        if s.subnode_path == ""
        then []
        else (let pids =
              stale_pids o.own_pid (absolute_path s.subnode_path)
                ("--goal-port " ++ number s.goal_port) (lines output) in
            list_append (first_signals pids) (last_signals o.survives pids))
  ]

  unfoldable pub custom_args : List (String × CustomValue) → List String
  unfolding variant_text
  custom_args [] = []
  custom_args ((key, custom_flag b) ∷ rest) =
      if b then ("--" ++ key) ∷ custom_args rest else custom_args rest
  custom_args ((key, custom_text s) ∷ rest) =
      ("--" ++ key) ∷ variant_text (custom_text s) ∷ custom_args rest
  custom_args ((key, custom_int n) ∷ rest) =
      ("--" ++ key) ∷ variant_text (custom_int n) ∷ custom_args rest

  unfoldable pub node_args : AgentSettings → List String
  unfolding custom_args
  node_args s =
      "--name"
      ∷ s.name
      ∷ "--host"
      ∷ s.subnode_host
      ∷ "--goal-port"
      ∷ number s.goal_port
      ∷ "--feedback-port"
      ∷ number s.feedback_port
      ∷ "--root-path"
      ∷ s.root_path
      ∷ custom_args s.custom_params

  -- The program and its arguments, by the ending of the entry.
  unfoldable pub program_of : AgentSettings → String × List String
  unfolding node_args
  program_of s =
      if ends_with s.subnode_path ".py"
      then ("python3", s.subnode_path ∷ node_args s)
      else if ends_with s.subnode_path ".sh"
      then ("bash", s.subnode_path ∷ node_args s)
      else (s.subnode_path, node_args s)

  unfoldable pub library_path : Runtime → String → String
  library_path r existing =
      let own = r.native_lib_dir ++ ":" ++ r.qt_lib_dir ++ ":" ++ r.shiboken_dir in
      if trimmed existing == "" then own else own ++ ":" ++ existing

  unfoldable pub with_runtime : Runtime → List (String × String) → List (String × String)
  unfolding library_path value_or_empty
  with_runtime r env =
      if r.available
      then insert "RECORDLABC_XREAL_GLASSES_SERVER" r.glasses_server_path (
          insert "RECORDLABC_XREAL_SITE_PACKAGES" r.site_packages_path (
            insert "RECORDLABC_XREAL_RUNTIME_ROOT" r.runtime_root (
              insert "QT_QPA_PLATFORM_PLUGIN_PATH" (file_path r.qt_plugins_dir "platforms") (
                insert "QT_PLUGIN_PATH" r.qt_plugins_dir (
                  insert "LD_LIBRARY_PATH" (library_path r (value_or_empty "LD_LIBRARY_PATH" env))
                    env)))))
      else env

  unfoldable pub child_environment : AgentSettings → Launching → List (String × String)
  unfolding with_runtime cleaned_or_empty value_or_empty
  child_environment s o =
      let root = value_or_empty "RECORDLABC_ROOT" o.environment in
      if s.name == "glasses_bsp_node"
      then with_runtime
          (o.runtime_at (if cleaned_or_empty root == "" then o.source_root else clean root))
          o.environment
      else o.environment

  -- An empty path stands for the directory of the tool itself.
  unfoldable pub working_directory : List (String × String) → Launching → String
  unfolding cleaned_or_empty value_or_empty
  working_directory env o =
      let explicit = cleaned_or_empty (value_or_empty "RECORDLABC_ROOT" env) in
      let compiled = cleaned_or_empty o.source_root in
      if not (explicit == "") && o.is_dir explicit
      then explicit
      else if not (compiled == "") && o.is_dir compiled
      then compiled
      else ""

  module _ {Json : Type 0} where
    -- What became of the process that was started; its id is 0 where it did not start.
    unfoldable pub await_start : Option ℕ → Bool → BaseAgent Json → BaseAgent Json × Bool × String
    await_start none alive a =
        (record a { subnode_process = some 0 }, false, "SubNode failed to start")
    await_start (some pid) alive a =
        let b = record a { subnode_process = some pid } in
        if alive
        then (b, true, "Launched (PID: " ++ number (pos pid) ++ ")")
        else (b, false, "SubNode exited immediately")

    unfoldable pub log_effects : List AgentEffect → BaseAgent Json → BaseAgent Json
    log_effects [] a = a
    log_effects (e ∷ es) a = log_effects es (record a { effects = e ∷ a.effects })

    unfoldable pub start_subnode : Launching → BaseAgent Json → BaseAgent Json
    unfolding program_of child_environment working_directory
    start_subnode o a =
        let (program, args) = program_of a.settings in
        let env = child_environment a.settings o in
        record a { effects = started program args env (working_directory env o) ∷ a.effects }

    unfoldable pub launch_subnode : Launching → BaseAgent Json → BaseAgent Json × Bool × String
    unfolding cleanup_stale_subnodes log_effects start_subnode await_start is_remote_mode
    launch_subnode o a =
        if is_remote_mode q a.settings
        then (a, true, "Remote subnode, no local process to launch")
        else if not o.entry_exists
        then (a, false, "Subnode entry not found: " ++ a.settings.subnode_path)
        else await_start o.start o.running_after
            (start_subnode o (log_effects (cleanup_stale_subnodes a.settings o) a))

    unfoldable pub end_process : Option ℕ → Bool → BaseAgent Json → BaseAgent Json × Bool × String
    end_process none finishes a = (a, true, "Subnode not running")
    end_process (some pid) finishes a = (
      record a {
        effects =
            if finishes
            then terminated pid ∷ a.effects
            else killed pid ∷ terminated pid ∷ a.effects;
        subnode_process = none;
      },
      true,
      "Terminated (PID: " ++ number (pos pid) ++ ")",
    )

    -- `finishes` is whether the process ends within 10 seconds.
    unfoldable pub terminate_subnode : Bool → BaseAgent Json → BaseAgent Json × Bool × String
    unfolding end_process
    terminate_subnode finishes a = end_process a.subnode_process finishes a
