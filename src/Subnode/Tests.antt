-- ===== src/Subnode/Tests.antt =====
-- A concrete node, and the theorems about nodes applied to it.
use text.Mathlib.Text.{◌==◌}
use xreal_bsp_rgb_tool.Prelude.{
  ◌≡◌, refl, true, false, List, [], ◌∷◌, ◌++◌, ◌⊎◌, Option, none, some, String, ℕ,
}
use xreal_bsp_rgb_tool.Prelude.Int.{pos, ltb_ℤ}
use xreal_bsp_rgb_tool.Platform.{Text, JsonLib}
use xreal_bsp_rgb_tool.Subnode.{Subnode, Sleep, new_subnode}
use xreal_bsp_rgb_tool.Subnode.Commands.{
  NodeEvent, arrive, start, look, finish_goal, slept, run_node,
}
use xreal_bsp_rgb_tool.Subnode.Stops.{sleep-undisturbed}
use xreal_bsp_rgb_tool.Subnode.Answers.{
  tally, arrivals, arrival, one_if, count_results, count_goals, count_sleep, run_node-tally,
}

-- JSON values: the goal of an emergency stop, or anything else.
pub data Request : Type 0 where
  stop_request : Request
  other_request : Request

request_fields : Request → Option (List (String × Request))
request_fields stop_request = some (("cmd", stop_request) ∷ [])
request_fields other_request = some []

request_text : Request → Option String
request_text stop_request = some "estop"
request_text other_request = none

abbrev plain_text : Text
plain_text = record {
  trimmed = λ s. s;
  contains_insensitive = λ s t. s == t;
  number = λ z. "1";
  to_int = λ s. pos 0;
}

abbrev requests : JsonLib
requests = record {
  Json = Request;
  find = λ key j. none;
  as_string = request_text;
  as_bool = λ j. none;
  as_int = λ j. none;
  as_array = λ j. none;
  get_int = λ j. none;
  as_object = request_fields;
  as_float_text = λ j. none;
  parse = λ s. none;
  dump = λ j. "{}";
  is_empty = λ j. true;
  null = other_request;
  of_text = λ s. other_request;
  of_bool = λ b. other_request;
  of_int = λ z. other_request;
  of_texts = λ ss. other_request;
  of_fields = λ fs. other_request;
  value_bool = λ j key b. some b;
}

abbrev says : String → String
says s = s

abbrev sleep_of_two : Sleep
sleep_of_two = record { goal_id = 4; duration = pos 2; elapsed = 0 }

-- A node that sleeps for 2 seconds.
abbrev sleeping_node : Subnode Request
sleeping_node = record (new_subnode "node" "./output" none) {
  is_connected = true;
  action_server = true;
  sleeping = some sleep_of_two;
}

-- An emergency stop arrives and tries to start, while the command sleeps.
abbrev stop_events : List (NodeEvent Request)
stop_events =
    look
    ∷ arrive 5 stop_request
    ∷ start 0 (some other_request)
    ∷ look
    ∷ look
    ∷ start 0 (some other_request)
    ∷ []

abbrev later : List (NodeEvent Request) → Subnode Request
later es = run_node plain_text requests says es sleeping_node

sleep-undisturbed_example :
    ((m : ℕ) × ((later stop_events).sleeping ≡ some (record sleep_of_two { elapsed = m }))
      × ((later stop_events).estop_flag ≡ false))
    ⊎ ((m : ℕ) × (before after : List (NodeEvent Request)) × (stop_events
          ≡ before ++ (look ∷ after))
        × (ltb_ℤ (pos m) (pos 2) ≡ false)
        × ((later before).sleeping ≡ some (record sleep_of_two { elapsed = m }))
        × (later stop_events
            ≡ run_node plain_text requests says after (
                finish_goal plain_text requests says 4
                  (some (slept plain_text requests says sleep_of_two))
                  (record (later before) { sleeping = none }))))
sleep-undisturbed_example =
    sleep-undisturbed plain_text requests says sleep_of_two stop_events 0 sleeping_node refl refl

run_node-tally_example : tally 5 (later stop_events) ≡ 1
unfolding tally arrivals arrival one_if count_results count_goals count_sleep
run_node-tally_example =
    run_node-tally plain_text requests says 5 stop_events sleeping_node refl refl
