-- ===== src/Agent/Connection.antt =====
-- connect and disconnect of BaseAgent (src/flowagent/agents/base_agent.cpp). The registry of the message
-- system and its ActionClient answer by arguments.
use Prim.Native.String.{◌++◌}
use xreal_bsp_rgb_tool.Prelude.{
  ℕ, Bool, true, false, not, ◌&&◌, ◌||◌, List, [], ◌∷◌, Option, none, some, String, if◌then◌else◌,
}
use xreal_bsp_rgb_tool.Prelude.Tables.{blank}
use xreal_bsp_rgb_tool.Platform.{Text, JsonLib}
use xreal_bsp_rgb_tool.Manager.Fields.{◌>>=◌}
use xreal_bsp_rgb_tool.Agent.Storage.{is_some}
use xreal_bsp_rgb_tool.Agent.Remote.{Linked, new_client, Attempt, wait_for_server}
use xreal_bsp_rgb_tool.Agent.Base.{
  BaseAgent, Delivery, Round, is_remote_mode, send_command_sync_direct,
}
use xreal_bsp_rgb_tool.Agent.Launch.{Shell, Launching, launch_subnode, terminate_subnode}

-- What createActionClient meets: the exception of the client's constructor if it
-- throws, the pings of a remote client,
-- for each round before the deadline whether both services are registered and whether the process has
-- ended, and whether they are registered at the end.
pub record Linking : Type 0 where
  pub refused : Option String
  pub attempts : List Attempt
  pub rounds : List (Bool × Bool)
  pub registered : Bool

-- What a command on the way out meets.
abbrev pub Exchanged : Type 0 → Type 0
Exchanged Json = Delivery Json × List (Round Json)

-- What disconnect meets: the two commands of the release, and whether the process ends by itself.
pub record Closing (Json : Type 0) : Type 0 where
  pub stop_device : Exchanged Json
  pub release_device : Exchanged Json
  pub finishes : Bool

-- The wait for the services stops by itself (false) or because the process has ended (true).
unfoldable pub exited_early : Bool → List (Bool × Bool) → Bool
exited_early has_process [] = false
exited_early has_process ((registered, ended) ∷ rounds) =
    if registered
    then false
    else if has_process && ended
    then true
    else exited_early has_process rounds

module _ (q : Text) (sh : Shell) (J : JsonLib) (what : String → String) where
  open J use {Json, null}

  unfoldable pub close_action_client : BaseAgent Json → BaseAgent Json
  close_action_client a = record a { action_client = false; legacy_remote_action_client = none }

  unfoldable pub close_all_subscribers : BaseAgent Json → BaseAgent Json
  close_all_subscribers a = record a { subscribers = blank }

  -- The client that waited for its server, kept only if a ping was answered.
  unfoldable pub link_remote :
      Linked Json × Bool × String → BaseAgent Json → BaseAgent Json × Bool × String
  link_remote ((c, s), true, e) a = (
    record a { legacy_remote_action_client = some c; cmd_storage = s },
    true,
    "Legacy remote ActionClient created",
  )
  link_remote ((c, s), false, e) a =
      (record a { cmd_storage = s }, false, "Remote ActionServer not reachable: " ++ e)

  unfoldable pub make_remote :
      ℕ → Option String → List Attempt → BaseAgent Json → BaseAgent Json × Bool × String
  unfolding link_remote wait_for_server
  make_remote pid (some e) attempts a = (record a { action_client = false }, false, e)
  make_remote pid none attempts a =
      link_remote (wait_for_server q J what pid "" attempts (new_client, a.cmd_storage)) a

  unfoldable pub make_echo : Option String → BaseAgent Json → BaseAgent Json × Bool × String
  make_echo (some e) a = (record a { action_client = false }, false, e)
  make_echo none a = (record a { action_client = true }, true, "ActionClient created")

  -- The client of the message system, once its services are registered.
  unfoldable pub make_local : Linking → BaseAgent Json → BaseAgent Json × Bool × String
  unfolding make_echo exited_early is_some
  make_local o a =
      if exited_early (is_some a.subnode_process) o.rounds
      then (a, false, "SubNode exited before ActionServer became ready")
      else if not o.registered
      then (
        a,
        false,
        "ActionServer not registered in time: " ++ a.settings.name ++ "_actions/send_goal / "
            ++ a.settings.name ++ "_actions/cancel",
      )
      else make_echo o.refused a

  unfoldable pub create_action_client :
      ℕ → Linking → BaseAgent Json → BaseAgent Json × Bool × String
  unfolding make_remote make_local is_some is_remote_mode
  create_action_client pid o a =
      if a.action_client || is_some a.legacy_remote_action_client
      then (a, true, "ActionClient already exists")
      else if is_remote_mode q a.settings
      then make_remote pid o.refused o.attempts a
      else make_local o a

  -- A command of the release; its reply is only logged. None if its rounds do not suffice.
  unfoldable pub release_step :
      ℕ → String → ℕ → Exchanged Json → BaseAgent Json → Option (BaseAgent Json)
  unfolding send_command_sync_direct
  release_step pid name limit (d, rounds) a =
      let (b, r) = send_command_sync_direct q J what pid name null limit d rounds a in
      elim r [ none ↦ none | some reply ↦ some b ]

  unfoldable pub release_steps : ℕ → Closing Json → BaseAgent Json → Option (BaseAgent Json)
  unfolding release_step
  release_steps pid o a = do
    b ← release_step pid "stop_device" 3000 o.stop_device a
    release_step pid "release_device" 5000 o.release_device b

  unfoldable pub graceful_release_before_disconnect :
      ℕ → Closing Json → BaseAgent Json → Option (BaseAgent Json)
  unfolding release_steps is_remote_mode
  graceful_release_before_disconnect pid o a =
      if is_remote_mode q a.settings || (not a.is_connected || not a.action_client)
      then some a
      else release_steps pid o a

  -- The process of an agent in the remote mode (true) or the local one.
  unfoldable pub stop_process : Bool → Bool → BaseAgent Json → BaseAgent Json
  unfolding terminate_subnode
  stop_process true finishes a = a
  stop_process false finishes a = (terminate_subnode q sh finishes a).0

  -- The part of disconnect behind the release.
  unfoldable pub close_down : Bool → BaseAgent Json → BaseAgent Json
  unfolding close_action_client close_all_subscribers stop_process is_remote_mode
  close_down finishes a =
      let b = close_all_subscribers (close_action_client a) in
      record (stop_process (is_remote_mode q b.settings) finishes b) { is_connected = false }

  unfoldable pub shut : Closing Json → BaseAgent Json → Option (BaseAgent Json × Bool × String)
  unfolding close_down
  shut o a = some (close_down o.finishes a, true, "Disconnected")

  unfoldable pub disconnect :
      ℕ → Closing Json → BaseAgent Json → Option (BaseAgent Json × Bool × String)
  unfolding graceful_release_before_disconnect shut
  disconnect pid o a = do b ← graceful_release_before_disconnect pid o a; shut o b

  unfoldable pub cleanup_and_fail :
      ℕ → Closing Json → String → BaseAgent Json → Option (BaseAgent Json × Bool × String)
  unfolding disconnect
  cleanup_and_fail pid o message a = do x ← disconnect pid o a; some (x.0, false, message)

  unfoldable pub connect_linked :
      ℕ → Closing Json → BaseAgent Json × Bool × String → Option (BaseAgent Json × Bool × String)
  unfolding cleanup_and_fail is_remote_mode
  connect_linked pid o (a, false, m) =
      cleanup_and_fail pid o ("Failed to create ActionClient: " ++ m) a
  connect_linked pid o (a, true, m) = some (
    record a { is_connected = true },
    true,
    if is_remote_mode q a.settings then "Connected (remote mode)" else "Connected",
  )

  unfoldable pub connect_launched :
      ℕ
      → Linking
      → Closing Json
      → BaseAgent Json × Bool × String
      → Option (BaseAgent Json × Bool × String)
  unfolding cleanup_and_fail connect_linked create_action_client
  connect_launched pid l o (a, false, m) =
      cleanup_and_fail pid o ("Failed to launch subnode: " ++ m) a
  connect_launched pid l o (a, true, m) = connect_linked pid o (create_action_client pid l a)

  -- The launch of a remote agent does nothing.
  unfoldable pub connect :
      ℕ
      → Launching
      → Linking
      → Closing Json
      → BaseAgent Json
      → Option (BaseAgent Json × Bool × String)
  unfolding connect_launched launch_subnode is_remote_mode
  connect pid n l o a =
      if a.is_connected
      then some (a, true, "Already connected")
      else connect_launched pid l o
          (if is_remote_mode q a.settings then (a, true, "") else launch_subnode q sh n a)
