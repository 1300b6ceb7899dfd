-- ===== src/Subnode/Commands.antt =====
-- actionCallback of BaseSubnode (src/subnodes/base_subnode.cpp). The message system runs each goal in a
-- thread of its own, and the lock on commands lets one handler run at a time: the steps below are what the
-- threads do one after another, in any order.
use Prim.Native.String.{◌++◌}
use xreal_bsp_rgb_tool.Prelude.{
  ℕ, zero, suc, ◌+◌, Bool, true, false, List, [], ◌∷◌, Option, none, some, String, if◌then◌else◌,
}
use xreal_bsp_rgb_tool.Prelude.Int.{ℤ, pos, ltb_ℤ}
use xreal_bsp_rgb_tool.Prelude.Maps.{lookup}
use xreal_bsp_rgb_tool.Platform.{Text, JsonLib}
use xreal_bsp_rgb_tool.Manager.Fields.{
  ◌>>=◌, Fields, value_text, value_int, value_flag, value_json, with_message, done,
}
use xreal_bsp_rgb_tool.Subnode.{
  Subnode, Goal, Sleep, Handler, check_handler, estop_handler, sleep_handler, topics_handler,
  root_path_handler, device_handler, connect_subnode, disconnect_subnode, send_result, passed_on,
  check_result,
}

-- A goal arrives; the thread of a waiting goal, by its place, gets the lock, with what the derived class
-- answers (none where it throws); the command that sleeps looks at the clock and the flag.
pub data NodeEvent (Json : Type 0) : Type 0 where
  arrive : ℕ → Json → NodeEvent Json
  start : ℕ → Option Json → NodeEvent Json
  look : NodeEvent Json

-- The goal at a place, and the others.
unfoldable pub put_back {ℓ} : {X : Type ℓ} → X → Option (X × List X) → Option (X × List X)
put_back x none = none
put_back x (some (y, ys)) = some (y, x ∷ ys)

unfoldable pub take_goal {ℓ} : {X : Type ℓ} → ℕ → List X → Option (X × List X)
unfolding put_back
take_goal n [] = none
take_goal zero (x ∷ xs) = some (x, xs)
take_goal (suc n) (x ∷ xs) = put_back x (take_goal n xs)

module _ (q : Text) (J : JsonLib) (what : String → String) where
  open J use {Json, as_object, of_fields, of_text, null}

  abbrev pub message : Bool → String → Json
  message b m = of_fields (with_message J b m)

  -- What is sent for a handler's result, or for its exception, with the success.
  unfoldable pub outcome_of : Option Json → Json × Bool
  unfolding value_flag
  outcome_of result =
      let sent : Option (Json × Bool) = (do
        j ← result
        fields ← as_object j
        ok ← value_flag J "success" true fields
        some (j, ok)) in
      elim sent [ none ↦ (message false (what "callback"), false) | some r ↦ r ]

  -- The end of actionCallback.
  unfoldable pub finish_goal : ℕ → Option Json → Subnode Json → Subnode Json
  unfolding send_result outcome_of
  finish_goal id result s = let r = outcome_of result in send_result id r.0 r.1 s

  -- The name and the parameters of the command that a goal holds.
  unfoldable pub read_goal : Json → Option (String × Json)
  unfolding value_text value_json
  read_goal goal = do
    fields ← as_object goal
    name ← value_text J "cmd" "" fields
    some (name, value_json J "params" fields)

  abbrev pub not_registered : Goal Json → Json
  not_registered g = message false ("Command '" ++ g.cmd_name ++ "' not registered")

  -- A goal whose command has a handler waits for the lock.
  unfoldable pub queue_goal : Option Handler → Goal Json → Subnode Json → Subnode Json
  unfolding finish_goal
  queue_goal none g s = finish_goal g.goal_id (some (not_registered g)) s
  queue_goal (some h) g s = record s { waiting = g ∷ s.waiting }

  unfoldable pub accept_goal : ℕ → Option (String × Json) → Subnode Json → Subnode Json
  unfolding finish_goal queue_goal
  accept_goal id none s = finish_goal id none s
  accept_goal id (some (name, params)) s =
      queue_goal (lookup name s.cmd_handlers)
        (record { goal_id = id; cmd_name = name; params = params }) s

  -- The part of actionCallback before the lock.
  unfoldable pub receive_goal : ℕ → Json → Subnode Json → Subnode Json
  unfolding read_goal accept_goal
  receive_goal id goal s = accept_goal id (read_goal goal) (record s { estop_flag = false })

  unfoldable pub topics_json : List (ℕ × String) → Fields J
  topics_json [] = []
  topics_json ((port, topic) ∷ rest) = (q.number (pos port), of_text topic) ∷ topics_json rest

  -- No topic leaves the JSON null.
  unfoldable pub topics_value : List (ℕ × String) → Json
  unfolding topics_json
  topics_value [] = null
  topics_value (t ∷ ts) = of_fields (topics_json (t ∷ ts))

  -- The duration of a sleep; none where `value` throws.
  unfoldable pub duration_of : Json → Option ℤ
  unfolding value_int
  duration_of params = do fields ← as_object params; value_int J "time" (pos 1) fields

  unfoldable pub begin_sleep : ℕ → Option ℤ → Subnode Json → Subnode Json
  unfolding finish_goal
  begin_sleep id none s = finish_goal id none s
  begin_sleep id (some d) s = record s {
    sleeping = some (record { goal_id = id; duration = d; elapsed = 0 });
  }

  unfoldable pub topics_reply : List (ℕ × String) → Json
  unfolding topics_value
  topics_reply topics = of_fields (
      done J true
        (("message", of_text "Agent topics retrieved") ∷ ("topics", topics_value topics) ∷ []))

  unfoldable pub root_path_of : String → Json
  root_path_of path =
      of_fields (
        done J true (("message", of_text "Root path retrieved") ∷ ("root_path", of_text path) ∷ []))

  -- A handler that has the lock; `device` is what the derived class answers. A handler is never removed,
  -- so that a goal that waits has one.
  unfoldable pub run_handler :
      Option Handler → Goal Json → Option Json → Subnode Json → Subnode Json
  unfolding finish_goal begin_sleep duration_of topics_reply root_path_of check_result passed_on
  run_handler none g device s = finish_goal g.goal_id device s
  run_handler (some check_handler) g device s = finish_goal g.goal_id (device >>= check_result J) s
  run_handler (some estop_handler) g device s =
      finish_goal g.goal_id (device >>= passed_on J) (record s { estop_flag = true })
  run_handler (some sleep_handler) g device s = begin_sleep g.goal_id (duration_of g.params) s
  run_handler (some topics_handler) g device s =
      finish_goal g.goal_id (some (topics_reply s.agent_topics)) s
  run_handler (some root_path_handler) g device s =
      finish_goal g.goal_id (some (root_path_of s.root_path)) s
  run_handler (some device_handler) g device s = finish_goal g.goal_id device s

  unfoldable pub start_goal :
      Option (Goal Json × List (Goal Json)) → Option Json → Subnode Json → Subnode Json
  unfolding run_handler
  start_goal none device s = s
  start_goal (some (g, rest)) device s =
      run_handler (lookup g.cmd_name s.cmd_handlers) g device (record s { waiting = rest })

  abbrev pub slept : Sleep → Json
  slept z = message true ("Slept for " ++ q.number z.duration ++ " seconds")

  -- A look of the sleep's loop and the second of sleep behind it; the lock is given back at its end.
  unfoldable pub look_up : Sleep → Subnode Json → Subnode Json
  unfolding finish_goal
  look_up z s =
      if ltb_ℤ (pos z.elapsed) z.duration
      then (if s.estop_flag
          then finish_goal z.goal_id (some (message false "Sleep interrupted by emergency stop"))
              (record s { sleeping = none })
          else record s { sleeping = some (record z { elapsed = z.elapsed + 1 }) })
      else finish_goal z.goal_id (some (slept z)) (record s { sleeping = none })

  -- A goal can start only while no command sleeps.
  unfoldable pub start_free : Option Sleep → ℕ → Option Json → Subnode Json → Subnode Json
  unfolding start_goal take_goal
  start_free none n device s = start_goal (take_goal n s.waiting) device s
  start_free (some z) n device s = s

  unfoldable pub look_if : Option Sleep → Subnode Json → Subnode Json
  unfolding look_up
  look_if none s = s
  look_if (some z) s = look_up z s

  unfoldable pub node_step : NodeEvent Json → Subnode Json → Subnode Json
  unfolding receive_goal start_free look_if
  node_step (arrive id goal) s = receive_goal id goal s
  node_step (start n device) s = start_free s.sleeping n device s
  node_step look s = look_if s.sleeping s

  unfoldable pub run_node : List (NodeEvent Json) → Subnode Json → Subnode Json
  unfolding node_step
  run_node [] s = s
  run_node (e ∷ es) s = run_node es (node_step e s)

  -- spin with what the new server's constructor throws, and what happens until a signal ends its wait.
  -- The results of connect and release are only logged.
  unfoldable pub spin : Option String → List (NodeEvent Json) → Subnode Json → Subnode Json
  unfolding run_node connect_subnode disconnect_subnode
  spin refused es s =
      let (t, ok, m) = connect_subnode refused s in
      if ok then (disconnect_subnode (run_node es t)).0 else t
