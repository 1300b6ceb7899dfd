-- ===== src/Agent/Topics.antt =====
-- The subscriptions of BaseAgent (src/flowagent/agents/base_agent.cpp) and the newest message of every
-- port. The subscriber is the message system's: whether its constructor throws is an argument.
use text.Mathlib.Text.{◌==◌}
use xreal_bsp_rgb_tool.Prelude.{
  ℕ, ◌+◌, Bool, List, [], ◌∷◌, Option, none, some, String, if◌then◌else◌,
}
use xreal_bsp_rgb_tool.Prelude.Maps.{lookup, insert}
use xreal_bsp_rgb_tool.Prelude.Tables.{put, has}
use xreal_bsp_rgb_tool.Platform.{JsonLib}
use xreal_bsp_rgb_tool.Agent.Base.{BaseAgent}

-- The entry of a counter, which `operator[]` makes as 0.
unfoldable pub counted : Option ℕ → ℕ
counted none = 0
counted (some n) = n

module _ (J : JsonLib) where
  open J use {Json, parse, of_text, null}

  unfoldable pub create_subscriber : ℕ → String → Bool → BaseAgent Json → BaseAgent Json
  create_subscriber port topic throws a =
      if has port a.subscribers then a else if throws then a else record a {
        subscribers = put port topic a.subscribers;
        topic_to_port = if topic == "" then a.topic_to_port else insert topic port a.topic_to_port;
      }

  -- A message that is no JSON is kept as its text.
  unfoldable pub message_content : String → Json
  message_content raw = elim (parse raw) [ none ↦ of_text raw | some j ↦ j ]

  unfoldable pub on_topic_data : ℕ → String → BaseAgent Json → BaseAgent Json
  unfolding message_content counted
  on_topic_data port raw a = record a {
    topic_data = put port (message_content raw) a.topic_data;
    topic_receive_count = put port (counted (a.topic_receive_count port) + 1) a.topic_receive_count;
  }

  unfoldable pub newest : Option Json → Json
  newest none = null
  newest (some j) = j

  unfoldable pub get_topic_data : ℕ → BaseAgent Json → Json
  unfolding newest
  get_topic_data port a = newest (a.topic_data port)

  unfoldable pub newest_of : Option ℕ → BaseAgent Json → Json
  unfolding newest
  newest_of none a = null
  newest_of (some port) a = newest (a.topic_data port)

  unfoldable pub get_topic_data_by_name : String → BaseAgent Json → Json
  unfolding newest_of
  get_topic_data_by_name topic a = newest_of (lookup topic a.topic_to_port) a

  unfoldable pub get_topic_receive_count : ℕ → BaseAgent Json → ℕ
  unfolding counted
  get_topic_receive_count port a = counted (a.topic_receive_count port)

  -- Messages of all ports in their order.
  unfoldable pub on_all_topic_data : List (ℕ × String) → BaseAgent Json → BaseAgent Json
  unfolding on_topic_data
  on_all_topic_data [] a = a
  on_all_topic_data ((port, raw) ∷ rest) a = on_all_topic_data rest (on_topic_data port raw a)
