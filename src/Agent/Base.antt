-- ===== src/Agent/Base.antt =====
-- BaseAgent of src/flowagent/agents/base_agent.cpp: its state and the commands that it sends to its node,
-- by the client for another machine or by the message system's ActionClient, of which only the ids and
-- the callbacks are seen. The lock on commands makes one call run at a time. Times are in milliseconds.
use Prim.Native.String.{◌++◌}
use text.Mathlib.Text.{◌==◌}
use xreal_bsp_rgb_tool.Prelude.{
  ℕ, Bool, true, false, ◌&&◌, ◌||◌, List, [], ◌∷◌, Option, none, some, String, leb, if◌then◌else◌,
}
use xreal_bsp_rgb_tool.Prelude.Int.{ℤ, pos}
use xreal_bsp_rgb_tool.Prelude.Maps.{lookup, contains}
use xreal_bsp_rgb_tool.Prelude.Tables.{Table, blank}
use xreal_bsp_rgb_tool.Platform.{Text, JsonLib}
use xreal_bsp_rgb_tool.Manager.Agents.{CmdReply, CustomValue}
use xreal_bsp_rgb_tool.Agent.Storage.{
  CmdStorage, ResultEntry, Callback, called_all, has_goal, init_goal, get_result, reset_storage,
  no_goals, is_some,
}
use xreal_bsp_rgb_tool.Agent.Remote.{
  RemoteClient, Outcome, threw, gave, Sending, storing, send_goal, listen_all,
}

-- What the constructor is given.
pub record AgentSettings : Type 0 where
  pub name : String
  pub subnode_path : String
  pub subnode_host : String
  pub goal_port : ℤ
  pub feedback_port : ℤ
  pub root_path : String
  pub custom_params : List (String × CustomValue)

-- What an agent makes the system run: a child process with its environment and working directory, a
-- program, and the two ways to end the child.
pub data AgentEffect : Type 0 where
  started : String → List String → List (String × String) → String → AgentEffect
  executed : String → List String → AgentEffect
  terminated : ℕ → AgentEffect
  killed : ℕ → AgentEffect

-- `subnode_process` is the id of the process, `action_client` whether there is one. Ports are numbers.
-- `effects` has the newest first.
pub record BaseAgent (Json : Type 0) : Type 0 where
  pub settings : AgentSettings
  pub is_connected : Bool
  pub subnode_process : Option ℕ
  pub action_client : Bool
  pub legacy_remote_action_client : Option (RemoteClient Json)
  pub subscribers : Table String
  pub topic_data : Table Json
  pub topic_to_port : List (String × ℕ)
  pub topic_receive_count : Table ℕ
  pub cmd_storage : CmdStorage Json
  pub effects : List AgentEffect

-- What a sendGoal meets: the exchange of the one client, and of the other the id or the exception with
-- the callbacks that it makes before it returns.
pub record Delivery (Json : Type 0) : Type 0 where
  pub remote : Sending
  pub echo : Outcome ℕ
  pub echo_calls : List (Callback Json)

-- One round of waiting: the time since the start when it looks at the clock, and what arrives while it
-- then sleeps.
pub record Round (Json : Type 0) : Type 0 where
  pub elapsed : ℕ
  pub messages : List (List String)
  pub echo_calls : List (Callback Json)

pub record CmdStatus (Json : Type 0) : Type 0 where
  pub done : Bool
  pub status : String
  pub result : Json

module _ {Json : Type 0} where
  abbrev pub new_agent : AgentSettings → BaseAgent Json
  new_agent s = record {
    settings = s;
    is_connected = false;
    subnode_process = none;
    action_client = false;
    legacy_remote_action_client = none;
    subscribers = blank;
    topic_data = blank;
    topic_to_port = [];
    topic_receive_count = blank;
    cmd_storage = no_goals;
    effects = [];
  }

  unfoldable pub is_cmd_done : ℕ → CmdStorage Json → Bool
  unfolding has_goal get_result is_some
  is_cmd_done id s = has_goal id s && is_some (get_result id s)

  unfoldable pub reserve : ℕ → CmdStorage Json → CmdStorage Json
  unfolding has_goal init_goal
  reserve id s = if has_goal id s then s else init_goal id s

  unfoldable pub has_client : BaseAgent Json → Bool
  unfolding is_some
  has_client a = a.action_client || is_some a.legacy_remote_action_client

  -- reset leaves the connection and the names of the topics.
  unfoldable pub reset_agent : BaseAgent Json → BaseAgent Json
  unfolding reset_storage
  reset_agent a = record a {
    topic_data = blank;
    topic_receive_count = blank;
    cmd_storage = reset_storage a.cmd_storage;
  }

unfoldable pub is_remote_mode : Text → AgentSettings → Bool
is_remote_mode q s = q.trimmed s.subnode_path == ""

module _ (q : Text) (J : JsonLib) (what : String → String) where
  open J use {Json, as_object, as_string, of_fields, of_text, dump, null}
  open q use {trimmed, number}

  abbrev pub cmd_result : Bool → String → Json → CmdReply Json
  cmd_result b m r = record {
    success = b;
    message = m;
    result = r;
    feedback = null;
    status_value = pos 0;
  }

  abbrev pub goal_of : String → Json → Json
  goal_of name params = of_fields (("cmd", of_text name) ∷ ("params", params) ∷ [])

  -- sendGoal of the client that there is.
  unfoldable pub send_by :
      ℕ
      → Option (RemoteClient Json)
      → Json
      → Delivery Json
      → BaseAgent Json
      → BaseAgent Json × Outcome ℕ
  unfolding called_all send_goal
  send_by pid none goal d a =
      (record a { cmd_storage = called_all d.echo_calls a.cmd_storage }, d.echo)
  send_by pid (some c) goal d a =
      let (x, r) = send_goal q J what pid goal storing d.remote (c, a.cmd_storage) in
      (record a { legacy_remote_action_client = some x.0; cmd_storage = x.1 }, r)

  -- What arrives in a round.
  unfoldable pub take_in : Option (RemoteClient Json) → Round Json → BaseAgent Json → BaseAgent Json
  unfolding called_all listen_all
  take_in none r a = record a { cmd_storage = called_all r.echo_calls a.cmd_storage }
  take_in (some c) r a =
      let x = listen_all q J what r.messages (c, a.cmd_storage) in
      record a { legacy_remote_action_client = some x.0; cmd_storage = x.1 }

  -- The loop that waits: what it says of a result and of the timeout is `judge` and `late`; none if the
  -- rounds do not suffice.
  unfoldable pub poll :
      (Option (ResultEntry Json) → CmdReply Json)
      → CmdReply Json
      → ℕ
      → ℕ
      → List (Round Json)
      → BaseAgent Json
      → BaseAgent Json × Option (CmdReply Json)
  unfolding is_cmd_done get_result take_in
  poll judge late id limit [] a = (a, none)
  poll judge late id limit (r ∷ rounds) a =
      let later = poll judge late id limit rounds (take_in a.legacy_remote_action_client r a) in
      if is_cmd_done id a.cmd_storage
      then (a, some (judge (get_result id a.cmd_storage)))
      else if leb limit r.elapsed
      then (a, some late)
      else later

  -- The text that a failed result carries.
  unfoldable pub error_message : Json → String
  error_message r = elim (as_object r) [
    | none ↦ dump r
    | some fields ↦ elim (lookup "message" fields) [
      | none ↦ dump r
      | some m ↦ elim (as_string m) [ none ↦ "Error parsing result" | some s ↦ s ]
    ]
  ]

  unfoldable pub verdict : Option (ResultEntry Json) → CmdReply Json
  unfolding error_message
  verdict none = cmd_result false "Unknown error" null
  verdict (some e) =
      if e.success
      then cmd_result true "Success" e.result
      else cmd_result false (error_message e.result) e.result

  unfoldable pub cmd_sent :
      Bool
      → ℕ
      → List (Round Json)
      → BaseAgent Json × Outcome ℕ
      → BaseAgent Json × Option (CmdReply Json)
  unfolding poll verdict reserve
  cmd_sent wait limit rounds (a, threw e) = (a, some (cmd_result false e null))
  cmd_sent wait limit rounds (a, gave id) =
      let b = record a { cmd_storage = reserve id a.cmd_storage } in
      if wait then poll verdict (cmd_result false "Timeout" null) id limit rounds b else (
        b,
        some (cmd_result true ("Command sent (non-blocking), goal_id: " ++ number (pos id)) null),
      )

  -- cmd; no result either where a connected agent has no client, whose null pointer the source then
  -- follows.
  unfoldable pub cmd :
      ℕ
      → String
      → Json
      → Bool
      → ℕ
      → Delivery Json
      → List (Round Json)
      → BaseAgent Json
      → BaseAgent Json × Option (CmdReply Json)
  unfolding cmd_sent send_by has_client
  cmd pid name params wait limit d rounds a =
      if a.is_connected
      then if has_client a
        then cmd_sent wait limit rounds
            (send_by pid a.legacy_remote_action_client (goal_of name params) d a)
        else (a, none)
      else (a, some (cmd_result false "Not connected" null))

  -- sendCommandSyncDirect, which keeps "Unknown error" for a result without a readable message.
  unfoldable pub direct_message : Json → String
  direct_message r = elim (as_object r) [
    | none ↦ "Unknown error"
    | some fields ↦ elim (lookup "message" fields) [
      | none ↦ "Unknown error"
      | some m ↦ elim (as_string m) [ none ↦ "Unknown error" | some s ↦ s ]
    ]
  ]

  unfoldable pub direct_verdict : Option (ResultEntry Json) → CmdReply Json
  unfolding direct_message
  direct_verdict none = cmd_result false "Unknown error" null
  direct_verdict (some e) =
      if e.success
      then cmd_result true "Success" e.result
      else cmd_result false (direct_message e.result) null

  unfoldable pub direct_sent :
      String
      → ℕ
      → List (Round Json)
      → BaseAgent Json × Outcome ℕ
      → BaseAgent Json × Option (CmdReply Json)
  unfolding poll direct_verdict reserve
  direct_sent name limit rounds (a, threw e) = (a, some (cmd_result false e null))
  direct_sent name limit rounds (a, gave id) =
      poll direct_verdict (cmd_result false ("Timeout waiting for " ++ name) null) id limit rounds
        (record a { cmd_storage = reserve id a.cmd_storage })

  unfoldable pub send_command_sync_direct :
      ℕ
      → String
      → Json
      → ℕ
      → Delivery Json
      → List (Round Json)
      → BaseAgent Json
      → BaseAgent Json × Option (CmdReply Json)
  unfolding direct_sent send_by has_client
  send_command_sync_direct pid name params limit d rounds a =
      if a.is_connected && has_client a
      then direct_sent name limit rounds
          (send_by pid a.legacy_remote_action_client (goal_of name params) d a)
      else (a, some (cmd_result false "Not connected" null))

  unfoldable pub status_of : Option (ResultEntry Json) → CmdStatus Json
  status_of none = record { done = false; status = ""; result = null }
  status_of (some e) = record {
    done = true;
    status = if e.success then "SUCCEEDED" else "FAILED";
    result = e.result;
  }

  unfoldable pub get_cmd_status : ℕ → BaseAgent Json → CmdStatus Json
  unfolding has_goal get_result status_of
  get_cmd_status id a =
      if has_goal id a.cmd_storage
      then status_of (get_result id a.cmd_storage)
      else record { done = false; status = ""; result = null }

  abbrev local_root : AgentSettings → Json
  local_root s = of_fields (("root_path", of_text s.root_path) ∷ [])

  -- Whether the reply of get_root_path has the path.
  unfoldable pub has_root_path : CmdReply Json → Bool
  has_root_path r =
      r.success
      && (elim (as_object r.result) [ none ↦ false | some fields ↦ contains "root_path" fields ])

  unfoldable pub root_path_reply : AgentSettings → Option (CmdReply Json) → Option (CmdReply Json)
  unfolding has_root_path
  root_path_reply s none = none
  root_path_reply s (some r) =
      if has_root_path r
      then some (cmd_result true "Root path retrieved from subnode" r.result)
      else some (cmd_result false "Failed to retrieve root_path, using local config" (local_root s))

  unfoldable pub get_root_path_sync :
      ℕ
      → Delivery Json
      → List (Round Json)
      → BaseAgent Json
      → BaseAgent Json × Option (CmdReply Json)
  unfolding cmd root_path_reply
  get_root_path_sync pid d rounds a =
      let (b, r) = cmd pid "get_root_path" null true 5000 d rounds a in
      if a.is_connected
      then (b, root_path_reply a.settings r)
      else (a, some (cmd_result false "Not connected to subnode" (local_root a.settings)))
