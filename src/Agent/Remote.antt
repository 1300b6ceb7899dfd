-- ===== src/Agent/Remote.antt =====
-- LegacyRemoteActionClient of src/flowagent/agents/legacy_remote_action_client.cpp: it sends goals over a
-- socket and hands what comes back to the callbacks. The sockets are ZeroMQ's: what an exchange on them
-- brings and what messages arrive are arguments.
use Prim.Native.String.{◌++◌}
use text.Mathlib.Text.{◌==◌}
use xreal_bsp_rgb_tool.Prelude.{
  ℕ, ◌+◌, ◌%◌, ◌^◌, Bool, true, false, List, [], ◌∷◌, Option, none, some, String, if◌then◌else◌,
}
use xreal_bsp_rgb_tool.Prelude.Int.{pos}
use xreal_bsp_rgb_tool.Prelude.Maps.{lookup, erase, insert}
use xreal_bsp_rgb_tool.Prelude.Tables.{Table, blank, put, remove}
use xreal_bsp_rgb_tool.Platform.{Text, JsonLib}
use xreal_bsp_rgb_tool.Manager.Fields.{◌>>=◌, Fields, value_text, value_flag, value_json}
use xreal_bsp_rgb_tool.Agent.Storage.{CmdStorage, Callback, feedback_call, result_call, called}

-- The callbacks that were given: those of an agent, which fill its storage, or none.
pub data Callbacks : Type 0 where
  storing : Callbacks
  no_callbacks : Callbacks

pub record PendingGoal (Json : Type 0) : Type 0 where
  pub remote_goal_id : String
  pub callbacks : Callbacks
  pub result : Json
  pub success : Bool
  pub result_received : Bool

-- `goal_sockets` counts the sockets that resetGoalSocket has made; `requests` are the texts written to
-- them, newest first.
pub record RemoteClient (Json : Type 0) : Type 0 where
  pub next_goal_id : ℕ
  pub pending_by_local_id : Table (PendingGoal Json)
  pub local_id_by_remote_id : List (String × ℕ)
  pub goal_sockets : ℕ
  pub requests : List String

-- What a request on the goal socket meets: it is not sent, no response comes in time, a response, or an
-- exception of the socket or of `dump`.
pub data Exchange : Type 0 where
  not_sent : Exchange
  no_response : Exchange
  response : String → Exchange
  socket_error : String → Exchange

-- A result, or the text of the exception.
pub data Outcome {ℓ} (X : Type ℓ) : Type ℓ where
  threw : String → Outcome X
  gave : X → Outcome X

-- The client with the storage that its callbacks fill.
abbrev pub Linked : Type 0 → Type 0
Linked Json = RemoteClient Json × CmdStorage Json

-- What the outside does with one sendGoal: the clock, the exchange, and the messages that the listener
-- handles before its response is read.
pub record Sending : Type 0 where
  pub now : ℕ
  pub exchange : Exchange
  pub meanwhile : List (List String)

-- One ping that starts before the deadline: what its sendGoal meets and what is handled while its
-- result is awaited.
abbrev pub Attempt : Type 0
Attempt = Sending × List (List String)

module _ {Json : Type 0} where
  -- The constructor; the listener thread is the messages that `listen` handles.
  abbrev pub new_client : RemoteClient Json
  new_client = record {
    next_goal_id = 1;
    pending_by_local_id = blank;
    local_id_by_remote_id = [];
    goal_sockets = 1;
    requests = [];
  }

  unfoldable pub reset_goal_socket : RemoteClient Json → RemoteClient Json
  reset_goal_socket c = record c { goal_sockets = c.goal_sockets + 1 }

  unfoldable pub forget : ℕ → Option (PendingGoal Json) → RemoteClient Json → RemoteClient Json
  forget id none c = c
  forget id (some g) c = record c {
    local_id_by_remote_id = erase g.remote_goal_id c.local_id_by_remote_id;
    pending_by_local_id = remove id c.pending_by_local_id;
  }

  unfoldable pub remove_goal : ℕ → RemoteClient Json → RemoteClient Json
  unfolding forget
  remove_goal id c = forget id (c.pending_by_local_id id) c

  -- The local id of a message's goal with its pending entry.
  unfoldable pub find_goal : String → RemoteClient Json → Option (ℕ × PendingGoal Json)
  find_goal remote c = do
    id ← lookup remote c.local_id_by_remote_id
    g ← c.pending_by_local_id id
    some (id, g)

  -- `if (callback) callback(…)`.
  unfoldable pub call_back : Callbacks → Callback Json → CmdStorage Json → CmdStorage Json
  unfolding called
  call_back no_callbacks call s = s
  call_back storing call s = called call s

  unfoldable pub give_feedback : Json → Option (ℕ × PendingGoal Json) → Linked Json → Linked Json
  unfolding call_back
  give_feedback f none x = x
  give_feedback f (some (id, g)) (c, s) = (c, call_back g.callbacks (feedback_call id f) s)

  unfoldable pub give_result :
      Json → Bool → Option (ℕ × PendingGoal Json) → Linked Json → Linked Json
  unfolding call_back
  give_result r b none x = x
  give_result r b (some (id, g)) (c, s) = (
    record c {
      pending_by_local_id =
          put id (record g { result = r; success = b; result_received = true })
            c.pending_by_local_id;
    },
    call_back g.callbacks (result_call id r b) s,
  )

  unfoldable pub settled : Linked Json → Option (Linked Json) → Linked Json
  settled x none = x
  settled x (some y) = y

  unfoldable pub has_result : Option (PendingGoal Json) → Bool
  has_result none = false
  has_result (some g) = g.result_received

module _ (q : Text) (J : JsonLib) (what : String → String) where
  open J use {Json, as_object, of_fields, of_text, of_bool, parse, dump}
  open q use {number}

  -- The process id and the clock are arguments.
  unfoldable pub make_remote_goal_id : ℕ → ℕ → ℕ → String
  make_remote_goal_id pid now id =
      "recordlabc-" ++ number (pos pid) ++ "-" ++ number (pos now) ++ "-" ++ number (pos id)

  unfoldable pub parsed : Option Json → RemoteClient Json → RemoteClient Json × Outcome Json
  unfolding reset_goal_socket
  parsed none c = (reset_goal_socket c, threw (what "parse"))
  parsed (some j) c = (c, gave j)

  -- callGoalSocket: the exceptions of a request that fails pass through the catch that makes a new
  -- socket once more.
  unfoldable pub call_goal_socket :
      Exchange → Json → RemoteClient Json → RemoteClient Json × Outcome Json
  unfolding reset_goal_socket parsed
  call_goal_socket (socket_error e) request c = (reset_goal_socket c, threw e)
  call_goal_socket not_sent request c =
      (reset_goal_socket (reset_goal_socket c), threw "failed to send goal request")
  call_goal_socket no_response request c = (
    reset_goal_socket (reset_goal_socket (record c { requests = dump request ∷ c.requests })),
    threw "goal request timeout",
  )
  call_goal_socket (response text) request c =
      parsed (parse text) (record c { requests = dump request ∷ c.requests })

  -- Whether a response accepts the goal; none where `value` throws.
  unfoldable pub is_accepted : Json → Option Bool
  unfolding value_text value_flag
  is_accepted r = do
    fields ← as_object r
    status ← value_text J "status" "" fields
    (if status == "ACCEPTED" then some true else value_flag J "accepted" false fields)

  -- handleFeedback and handleResult; none where `value` throws.
  unfoldable pub handle_feedback : Fields J → Linked Json → Option (Linked Json)
  unfolding value_text value_json find_goal give_feedback
  handle_feedback message x = do
    remote ← value_text J "goal_id" "" message
    some (give_feedback (value_json J "feedback" message) (find_goal remote x.0) x)

  unfoldable pub handle_result : Fields J → Linked Json → Option (Linked Json)
  unfolding value_text value_json find_goal give_result
  handle_result message x = do
    remote ← value_text J "goal_id" "" message
    status ← value_text J "status" "" message
    some (
        give_result (value_json J "result" message) (status == "SUCCEEDED") (find_goal remote x.0)
          x)

  unfoldable pub handle_message : Json → Linked Json → Option (Linked Json)
  unfolding value_text handle_feedback handle_result
  handle_message j x = do
    message ← as_object j
    kind ← value_text J "type" "" message
    (if kind == "feedback"
        then handle_feedback message x
        else if kind == "result"
        then handle_result message x
        else some x)

  unfoldable pub last_part : List String → Option String
  last_part [] = none
  last_part (part ∷ []) = some part
  last_part (part ∷ next ∷ parts) = last_part (next ∷ parts)

  unfoldable pub message_of : List String → Option Json
  unfolding last_part
  message_of parts = do payload ← last_part parts; parse payload

  -- A round of listenLoop with the parts of one message: an exception leaves everything as it was.
  unfoldable pub listen : List String → Linked Json → Linked Json
  unfolding message_of handle_message settled
  listen parts x = settled x (do j ← message_of parts; handle_message j x)

  unfoldable pub listen_all : List (List String) → Linked Json → Linked Json
  unfolding listen
  listen_all [] x = x
  listen_all (m ∷ ms) x = listen_all ms (listen m x)

  unfoldable pub register_goal : String → Callbacks → RemoteClient Json → RemoteClient Json
  register_goal remote cb c = record c {
    next_goal_id = (c.next_goal_id + 1) % 2 ^ 32;
    pending_by_local_id =
        put c.next_goal_id
          (record {
            remote_goal_id = remote;
            callbacks = cb;
            result = of_fields [];
            success = false;
            result_received = false;
          })
          c.pending_by_local_id;
    local_id_by_remote_id = insert remote c.next_goal_id c.local_id_by_remote_id;
  }

  -- The end of sendGoal: a goal that is not accepted is removed and throws.
  unfoldable pub conclude_goal : ℕ → Option Bool → Json → Linked Json → Linked Json × Outcome ℕ
  unfolding remove_goal
  conclude_goal id (some true) r x = (x, gave id)
  conclude_goal id (some false) r (c, s) =
      ((remove_goal id (remove_goal id c), s), threw ("Goal rejected: " ++ dump r))
  conclude_goal id none r (c, s) = ((remove_goal id c, s), threw (what "value"))

  unfoldable pub read_response :
      ℕ → RemoteClient Json × Outcome Json → CmdStorage Json → Linked Json × Outcome ℕ
  unfolding remove_goal conclude_goal is_accepted
  read_response id (c, threw e) s = ((remove_goal id c, s), threw e)
  read_response id (c, gave r) s = conclude_goal id (is_accepted r) r (c, s)

  abbrev pub goal_request : String → Json → Json
  goal_request remote goal = of_fields (("goal_id", of_text remote) ∷ ("goal", goal) ∷ [])

  unfoldable pub send_goal : ℕ → Json → Callbacks → Sending → Linked Json → Linked Json × Outcome ℕ
  unfolding make_remote_goal_id register_goal listen_all call_goal_socket read_response
  send_goal pid goal cb o (c, s) =
      let id = c.next_goal_id in
      let remote = make_remote_goal_id pid o.now id in
      let x = listen_all o.meanwhile (register_goal remote cb c, s) in
      read_response id (call_goal_socket o.exchange (goal_request remote goal) x.0) x.1

  -- waitForResult with a limit above 0, and the messages that are handled until it returns.
  unfoldable pub wait_for_result : ℕ → List (List String) → Linked Json → Linked Json × Bool
  unfolding listen_all has_result
  wait_for_result id messages x =
      let y = listen_all messages x in (y, has_result (y.0.pending_by_local_id id))

  abbrev pub ping : Json
  ping = of_fields (("ping", of_bool true) ∷ [])

  -- The ping has its result (true), or the text of `lastError`.
  unfoldable pub await_ping :
      List (List String) → Linked Json × Outcome ℕ → Linked Json × Option String
  unfolding wait_for_result remove_goal
  await_ping messages (x, threw e) = (x, some e)
  await_ping messages (x, gave id) =
      let (y, done) = wait_for_result id messages x in
      ((remove_goal id y.0, y.1), if done then none else some "ping result timeout")

  -- waitForServer with the pings that start before the deadline: whether one was answered, with the
  -- text of the last error where none was.
  unfoldable pub wait_for_server :
      ℕ → String → List Attempt → Linked Json → Linked Json × Bool × String
  unfolding send_goal await_ping
  wait_for_server pid last_error [] x =
      (x, false, if last_error == "" then "server timeout" else last_error)
  wait_for_server pid last_error ((o, messages) ∷ attempts) x =
      let (y, error) = await_ping messages (send_goal pid ping no_callbacks o x) in
      elim error [ none ↦ (y, true, "") | some e ↦ wait_for_server pid e attempts y ]
