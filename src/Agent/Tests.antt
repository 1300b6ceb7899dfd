-- ===== src/Agent/Tests.antt =====
-- Concrete agents, and the theorems about agents applied to them.
use text.Mathlib.Text.{◌==◌}
use xreal_bsp_rgb_tool.Prelude.{
  ◌≡◌, ◌≤◌, refl, Bool, true, false, List, [], ◌∷◌, Option, none, some, String, if◌then◌else◌,
  arith,
}
use xreal_bsp_rgb_tool.Prelude.Int.{pos}
use xreal_bsp_rgb_tool.Prelude.Tables.{blank, put}
use xreal_bsp_rgb_tool.Platform.{Text, JsonLib}
use xreal_bsp_rgb_tool.Manager.Fields.{value_text, value_json, value_flag}
use xreal_bsp_rgb_tool.Manager.Agents.{CmdReply}
use xreal_bsp_rgb_tool.Agent.Storage.{ResultEntry, get_result, joined, is_some}
use xreal_bsp_rgb_tool.Agent.Remote.{
  RemoteClient, Sending, response, gave, new_client, wait_for_server, is_accepted,
  make_remote_goal_id, message_of, last_part, await_ping, send_goal, read_response, wait_for_result,
  register_goal, listen_all, listen, handle_message, handle_result, find_goal, give_result,
  call_back, settled, call_goal_socket, parsed, conclude_goal, has_result, remove_goal, forget,
}
use xreal_bsp_rgb_tool.Agent.Base.{
  BaseAgent, AgentSettings, Delivery, Round, new_agent, cmd, verdict, cmd_result, is_remote_mode,
  has_client,
}
use xreal_bsp_rgb_tool.Agent.Launch.{Shell, Launching}
use xreal_bsp_rgb_tool.Agent.Connection.{Linking, Closing, connect, disconnect}
use xreal_bsp_rgb_tool.Agent.Answers.{newest_result, newer, carried, carried_in, result_for}
use xreal_bsp_rgb_tool.Agent.Waiting.{answered, answer_now, cmd-answered}
use xreal_bsp_rgb_tool.Agent.Timeouts.{cmd-ends}
use xreal_bsp_rgb_tool.Agent.Sessions.{Settled, connect-Settled}
use xreal_bsp_rgb_tool.Agent.Reconnect.{reconnect-stale}
use xreal_bsp_rgb_tool.Agent.Topics.{
  create_subscriber, on_all_topic_data, get_topic_data_by_name, get_topic_data,
  get_topic_receive_count, counted, message_content,
}
use xreal_bsp_rgb_tool.Agent.Feed.{
  last_content, sent_to, create_subscriber-by_name, on_all_topic_data-sent_to,
}

-- The texts of the wire: "ack" accepts a goal, any other names a goal that has succeeded.
pub data Wire : Type 0 where
  word : String → Wire
  ack : Wire
  success_of : String → Wire

fields_of : Wire → Option (List (String × Wire))
fields_of (word s) = none
fields_of ack = some (("status", word "ACCEPTED") ∷ [])
fields_of (success_of s) =
    some (("type", word "result") ∷ ("goal_id", word s) ∷ ("status", word "SUCCEEDED") ∷ [])

word_of : Wire → Option String
word_of (word s) = some s
word_of ack = none
word_of (success_of s) = none

abbrev plain_text : Text
plain_text = record {
  trimmed = λ s. s;
  contains_insensitive = λ s t. s == t;
  number = λ z. "7";
  to_int = λ s. pos 0;
}

abbrev wires : JsonLib
wires = record {
  Json = Wire;
  find = λ key j. none;
  as_string = word_of;
  as_bool = λ j. none;
  as_int = λ j. none;
  as_array = λ j. none;
  get_int = λ j. none;
  as_object = fields_of;
  as_float_text = λ j. none;
  parse = λ s. some (if s == "ack" then ack else success_of s);
  dump = λ j. "{}";
  is_empty = λ j. true;
  null = word "null";
  of_text = word;
  of_bool = λ b. word "flag";
  of_int = λ z. word "number";
  of_texts = λ ss. word "texts";
  of_fields = λ fs. word "object";
  value_bool = λ j key b. some b;
}

abbrev says : String → String
says s = s

abbrev shell : Shell
shell = record {
  ends_with = λ s t. false;
  contains_text = λ s t. false;
  lines = λ s. [];
  words = λ s. [];
  joined = λ ss. "";
  to_pid = λ s. none;
  absolute_path = λ s. s;
  file_path = λ d f. f;
  clean = λ s. s;
}

abbrev there : AgentSettings
there = record {
  name = "node";
  subnode_path = "";
  subnode_host = "10.0.0.2";
  goal_port = pos 5690;
  feedback_port = pos 5691;
  root_path = "./output";
  custom_params = [];
}

abbrev goal_text : String
goal_text = "recordlabc-7-7-7"

abbrev acked : Sending
acked = record { now = 0; exchange = response "ack"; meanwhile = [] }

abbrev sending : Delivery Wire
sending = record { remote = acked; echo = gave 1; echo_calls = [] }

-- A round in which the result of the goal arrives.
abbrev arrival : Round Wire
arrival = record { elapsed = 0; messages = ((goal_text ∷ []) ∷ []); echo_calls = [] }

abbrev late_round : Round Wire
late_round = record { elapsed = 100; messages = []; echo_calls = [] }

abbrev linked_agent : BaseAgent Wire
linked_agent = record (new_agent there) {
  is_connected = true;
  legacy_remote_action_client = some new_client;
}

remote_there : is_remote_mode plain_text there ≡ true
unfolding is_remote_mode
remote_there = refl

acked-accepts : is_accepted plain_text wires says ack ≡ some true
unfolding is_accepted value_text fields_of word_of
acked-accepts = refl

abbrev succeeded : CmdReply Wire
succeeded = cmd_result plain_text wires says true "Success" (word "object")

cmd-answered_example :
    (cmd plain_text wires says 7 "start" ack true 1000 sending
      (arrival ∷ late_round ∷ [])
      linked_agent).1
    ≡ some succeeded
unfolding answered answer_now newest_result newer carried carried_in result_for message_of last_part
    verdict make_remote_goal_id get_result joined value_text value_json fields_of word_of
cmd-answered_example =
    cmd-answered plain_text wires says 7 1000 "start" ack sending (arrival ∷ late_round ∷ []) "ack"
      ack new_client linked_agent (record { below = λ r l e. absurd (ground (arith, e)) }) refl refl
      refl refl acked-accepts

linked_agent-has_client : has_client linked_agent ≡ true
unfolding has_client is_some
linked_agent-has_client = refl

cmd-ends_example :
    (r : CmdReply Wire) × ((cmd plain_text wires says 7 "start" ack true 100 sending
        (arrival ∷ late_round ∷ [])
        linked_agent).1
      ≡ some r)
cmd-ends_example =
    cmd-ends plain_text wires says 7 100 1 "start" ack true sending (arrival ∷ late_round ∷ [])
      linked_agent linked_agent-has_client (omega arith) (omega arith) (omega arith)

abbrev unreachable : Linking
unreachable = record { refused = none; attempts = []; rounds = []; registered = false }

abbrev no_launch : Launching
no_launch = record {
  entry_exists = false;
  own_pid = pos 7;
  process_table = none;
  survives = λ p. false;
  environment = [];
  source_root = "";
  runtime_at = λ s. record {
    available = false;
    native_lib_dir = "";
    qt_lib_dir = "";
    shiboken_dir = "";
    qt_plugins_dir = "";
    runtime_root = "";
    site_packages_path = "";
    glasses_server_path = "";
  };
  is_dir = λ s. false;
  start = none;
  running_after = false;
}

abbrev closing : Closing Wire
closing = record { stop_device = (sending, []); release_device = (sending, []); finishes = true }

connect-Settled_example :
    (b : BaseAgent Wire) × (ok : Bool) × (m : String) × (connect plain_text shell wires says 7
        no_launch unreachable closing
        (new_agent there)
      ≡ some (b, ok, m))
    × Settled plain_text shell wires says ok b
connect-Settled_example =
    connect-Settled plain_text shell wires says 7 no_launch unreachable closing (new_agent there)
      refl

-- One ping that is answered.
abbrev answered_ping : Linking
answered_ping = record {
  refused = none;
  attempts = ((acked, (goal_text ∷ []) ∷ []) ∷ []);
  rounds = [];
  registered = false;
}

abbrev former : ResultEntry Wire
former = record { result = word "former"; success = true }

-- An agent whose second goal has had a result.
abbrev used_agent : BaseAgent Wire
used_agent = record linked_agent {
  cmd_storage = record { feedbacks = blank; results = put 2 (some former) blank };
}

ping_answered :
    ((wait_for_server plain_text wires says 7 "" answered_ping.attempts
        (new_client, used_agent.cmd_storage)).1
      ≡ true)
    × (get_result
          (wait_for_server plain_text wires says 7 "" answered_ping.attempts
            (new_client, used_agent.cmd_storage)).0.0.next_goal_id
          used_agent.cmd_storage
        ≡ some former)
unfolding wait_for_server await_ping send_goal read_response wait_for_result register_goal
    listen_all listen handle_message handle_result find_goal give_result call_back settled
    call_goal_socket parsed conclude_goal has_result remove_goal forget is_accepted
    make_remote_goal_id message_of last_part value_text value_json value_flag fields_of word_of
    get_result joined
ping_answered = (refl, refl)

reconnect-stale_example :
    (b f : BaseAgent Wire) × (c : RemoteClient Wire) × (disconnect plain_text shell wires says 7
        closing used_agent
      ≡ some (b, true, "Disconnected"))
    × (connect plain_text shell wires says 7 no_launch answered_ping closing b
        ≡ some (f, true, "Connected (remote mode)"))
    × (f.legacy_remote_action_client ≡ some c)
    × (2 ≤ c.next_goal_id)
    × (c.next_goal_id ≤ 2)
    × ((cmd plain_text wires says 7 "start" ack true 1000 sending (arrival ∷ late_round ∷ []) f).1
        ≡ some (verdict plain_text wires says (some former)))
reconnect-stale_example =
    reconnect-stale plain_text shell wires says 7 1000 no_launch answered_ping closing closing
      "start" "ack" ack ack sending arrival (late_round ∷ []) used_agent former remote_there refl
      (omega arith) ping_answered.0 ping_answered.1 refl refl acked-accepts refl

create_subscriber-by_name_example :
    get_topic_data_by_name wires "imu" (
      on_all_topic_data wires
        ((5, "a") ∷ (6, "b") ∷ (5, "c") ∷ [])
        (create_subscriber wires 5 "imu" false linked_agent))
    ≡ success_of "c"
unfolding last_content message_content sent_to
create_subscriber-by_name_example =
    create_subscriber-by_name wires 5 "imu" ((5, "a") ∷ (6, "b") ∷ (5, "c") ∷ []) linked_agent refl
      refl

on_all_topic_data-sent_to_example :
    (get_topic_data wires 6
        (on_all_topic_data wires ((5, "a") ∷ (6, "b") ∷ (5, "c") ∷ []) linked_agent)
      ≡ success_of "b")
    × (get_topic_receive_count wires 6
          (on_all_topic_data wires ((5, "a") ∷ (6, "b") ∷ (5, "c") ∷ []) linked_agent)
        ≡ 1)
unfolding last_content message_content sent_to get_topic_receive_count counted get_topic_data
on_all_topic_data-sent_to_example =
    on_all_topic_data-sent_to wires 6 ((5, "a") ∷ (6, "b") ∷ (5, "c") ∷ []) linked_agent
