-- ===== src/Agent/Copy.antt =====
-- copyFolderFromRemote of BaseAgent (src/flowagent/agents/base_agent.cpp). What the programs answer is
-- an argument: their exit code, with the trimmed text of their errors.
use Prim.Native.String.{◌++◌}
use text.Mathlib.Text.{◌==◌}
use xreal_bsp_rgb_tool.Prelude.{
  Bool, false, List, [], ◌∷◌, Option, none, some, String, if◌then◌else◌,
}
use xreal_bsp_rgb_tool.Prelude.Maps.{lookup}
use xreal_bsp_rgb_tool.Platform.{Text}
use xreal_bsp_rgb_tool.Agent.Base.{AgentSettings, AgentEffect, executed}
use xreal_bsp_rgb_tool.Agent.Launch.{Shell, variant_text}

-- The arguments of the call.
pub record CopyCall : Type 0 where
  pub remote_path : String
  pub local_path : String
  pub method : String
  pub remote_host : String
  pub remote_user : String
  pub remote_password : String
  pub adb_device : String

-- `lower` is toLower, `user` the environment variable USER, `run` a program with its arguments.
pub record CopyOutside : Type 0 where
  pub lower : String → String
  pub user : Option String
  pub run : String → List String → Bool × String

unfoldable pub or_else : String → String → String
or_else s t = if s == "" then t else s

-- The program that was run, the success and the message.
abbrev pub Copied : Type 0
Copied = List AgentEffect × Bool × String

unfoldable pub run_copy : CopyOutside → String → List String → String → Copied
run_copy o program args message =
    let r = o.run program args in (executed program args ∷ [], r.0, if r.0 then message else r.1)

module _ (q : Text) (sh : Shell) where
  -- `customParams_.value(key).toString()`.
  unfoldable pub custom_text_of : String → AgentSettings → String
  unfolding variant_text
  custom_text_of key s = elim (lookup key s.custom_params) [
    | none ↦ ""
    | some v ↦ variant_text q sh v
  ]

  unfoldable pub copy_user : CopyOutside → CopyCall → AgentSettings → String
  unfolding or_else custom_text_of
  copy_user o c s =
      or_else c.remote_user
        (or_else (custom_text_of "remote_user" s) (elim o.user [ none ↦ "root" | some u ↦ u ]))

  unfoldable pub scp_args : CopyOutside → CopyCall → AgentSettings → List String
  unfolding or_else copy_user
  scp_args o c s =
      "-r"
      ∷ "-o"
      ∷ "StrictHostKeyChecking=no"
      ∷ "-o"
      ∷ "UserKnownHostsFile=/dev/null"
      ∷ (copy_user o c s ++ "@" ++ or_else c.remote_host s.subnode_host ++ ":" ++ c.remote_path)
      ∷ c.local_path
      ∷ []

  unfoldable pub copy_scp : CopyOutside → CopyCall → AgentSettings → Copied
  unfolding scp_args or_else custom_text_of run_copy
  copy_scp o c s =
      let password = or_else c.remote_password (custom_text_of "remote_password" s) in
      if password == ""
      then run_copy o "scp" (scp_args o c s) "Folder copied via SCP"
      else run_copy o "sshpass" ("-p" ∷ password ∷ "scp" ∷ scp_args o c s) "Folder copied via SCP"

  unfoldable pub adb_args : CopyCall → List String
  adb_args c =
      let pull = "pull" ∷ c.remote_path ∷ c.local_path ∷ [] in
      if c.adb_device == "" then pull else "-s" ∷ c.adb_device ∷ pull

  unfoldable pub copy_folder_from_remote : CopyOutside → CopyCall → AgentSettings → Copied
  unfolding copy_scp adb_args run_copy
  copy_folder_from_remote o c s =
      if o.lower c.method == "scp"
      then copy_scp o c s
      else if o.lower c.method == "adb"
      then run_copy o "adb" (adb_args c) "Folder copied via ADB"
      else ([], false, "Unsupported method: " ++ c.method ++ ". Use 'scp' or 'adb'")
