-- ===== src/Agent/Waiting.antt =====
-- The reply of a command against a reference that sees only the messages for its goal.
use text.Mathlib.Text.{◌==◌}
use xreal_bsp_rgb_tool.Prelude.{
  ℕ, ◌<◌, ◌≡◌, refl, sym, ap, ap₂, ◌∙◌, Bool, true, false, List, [], ◌∷◌, Option, none, some,
  String, if◌then◌else◌, ◌||◌, arith, eq_iff, Bool-cases, inl, inr, leb,
}
use xreal_bsp_rgb_tool.Prelude.Maps.{lookup, lookup-insert}
use xreal_bsp_rgb_tool.Platform.{Text, JsonLib}
use xreal_bsp_rgb_tool.Manager.Agents.{CmdReply}
use xreal_bsp_rgb_tool.Agent.Storage.{
  CmdStorage, ResultEntry, get_result, has_goal, init_goal, joined, is_some,
}
use xreal_bsp_rgb_tool.Agent.Remote.{
  RemoteClient, Callbacks, storing, Sending, goal_request, Linked, listen_all, response, send_goal,
  register_goal, read_response, call_goal_socket, parsed, conclude_goal, gave, is_accepted,
  make_remote_goal_id, Outcome,
}
use xreal_bsp_rgb_tool.Agent.Base.{
  BaseAgent, goal_of, Delivery, Round, is_cmd_done, reserve, take_in, poll, cmd_result, verdict,
  cmd_sent, send_by, cmd, has_client,
}
use xreal_bsp_rgb_tool.Agent.Goals.{Open}
use xreal_bsp_rgb_tool.Agent.Answers.{newest_result, listen_all-Leaves}

or_true : (b : Bool) → (b || true) ≡ true
or_true true = refl
or_true false = refl

module _ {Json : Type 0} where
  -- The client's local ids are below the next one.
  pub record Numbered (c : RemoteClient Json) : Type 0 where
    pub below :
        (r : String) (l : ℕ) → lookup r c.local_id_by_remote_id ≡ some l → l < c.next_goal_id

  is_cmd_done-held : (id : ℕ) (s : CmdStorage Json) → is_cmd_done id s ≡ is_some (get_result id s)
  unfolding is_cmd_done has_goal get_result joined is_some
  is_cmd_done-held id s = ground arith

  reserve-held : (id : ℕ) (s : CmdStorage Json) → get_result id (reserve id s) ≡ get_result id s
  unfolding reserve has_goal init_goal get_result joined
  reserve-held id s = ground arith

  with_requests :
      (id : ℕ) (remote : String) (c : RemoteClient Json) (r : List String)
      → Open id remote c
      → Open id remote (record c { requests = r })
  with_requests id remote c r w = record {
    goal = w.goal;
    pending = w.pending;
    fills = w.fills;
    named = w.named;
    only = w.only;
  }

  -- What a look at the storage and the clock decides.
  unfoldable pub answer_now :
      (Option (ResultEntry Json) → CmdReply Json)
      → CmdReply Json
      → Option (ResultEntry Json)
      → Bool
      → Option (CmdReply Json)
      → Option (CmdReply Json)
  answer_now judge late none over rest = if over then some late else rest
  answer_now judge late (some e) over rest = some (judge (some e))

  look :
      (judge : Option (ResultEntry Json) → CmdReply Json) (late : CmdReply Json)
      (o : Option (ResultEntry Json)) (done over : Bool) (a : BaseAgent Json)
      (later : BaseAgent Json × Option (CmdReply Json)) (rest : Option (CmdReply Json))
      → done ≡ is_some o
      → later.1 ≡ rest
      → (if done then (a, some (judge o)) else if over then (a, some late) else later).1
        ≡ answer_now judge late o over rest
  unfolding answer_now is_some
  look judge late none done over a later rest h k = ground (arith, h, k)
  look judge late (some e) done over a later rest h k = ground (arith, h)

module _ (q : Text) (J : JsonLib) (what : String → String) where
  open J use {Json, of_fields}

  -- The reply by the messages for the goal alone: the result once there is one, else the timeout.
  unfoldable pub answered :
      String
      → (Option (ResultEntry Json) → CmdReply Json)
      → CmdReply Json
      → ℕ
      → List (Round Json)
      → Option (ResultEntry Json)
      → Option (CmdReply Json)
  unfolding newest_result answer_now
  answered remote judge late limit [] held = none
  answered remote judge late limit (r ∷ rounds) held =
      answer_now judge late held (leb limit r.elapsed)
        (answered remote judge late limit rounds (newest_result q J what remote r.messages held))

  poll-answered :
      (remote : String) (judge : Option (ResultEntry Json) → CmdReply Json) (late : CmdReply Json)
      (id limit : ℕ) (rounds : List (Round Json)) (a : BaseAgent Json) (c : RemoteClient Json)
      → a.legacy_remote_action_client ≡ some c
      → Open id remote c
      → (poll q J what judge late id limit rounds a).1
        ≡ answered remote judge late limit rounds (get_result id a.cmd_storage)
  unfolding poll answered take_in
  poll-answered remote judge late id limit [] a c h w = refl
  poll-answered remote judge late id limit (r ∷ rounds) a c h w =
      let x = listen_all q J what r.messages (c, a.cmd_storage) in
      let (v, e) = listen_all-Leaves q J what id remote r.messages (c, a.cmd_storage) w in
      let b = record a { legacy_remote_action_client = some x.0; cmd_storage = x.1 } in
      look judge late (get_result id a.cmd_storage) (is_cmd_done id a.cmd_storage)
        (leb limit r.elapsed) a
        (poll q J what judge late id limit rounds
          (take_in q J what a.legacy_remote_action_client r a))
        _ (is_cmd_done-held id a.cmd_storage)
        (ap (λ l. (poll q J what judge late id limit rounds (take_in q J what l r a)).1) h
          ∙ poll-answered remote judge late id limit rounds b x.0 refl v
          ∙ ap (answered remote judge late limit rounds) e)

  only_new :
      (remote r : String) (c : RemoteClient Json)
      → Numbered c
      → (if remote == r then some c.next_goal_id else lookup r c.local_id_by_remote_id)
        ≡ some c.next_goal_id
      → r ≡ remote
  only_new remote r c n h = elim (Bool-cases (remote == r)) [
    | inl e ↦ ground (arith, e, eq_iff remote r)
    | inr e ↦ absurd (omega (arith, n.below r c.next_goal_id (ground (arith, e, h))))
  ]

  register_goal-Open :
      (remote : String) (c : RemoteClient Json)
      → Numbered c
      → Open c.next_goal_id remote (register_goal q J what remote storing c)
  unfolding register_goal
  register_goal-Open remote c n = record {
    goal = record {
      remote_goal_id = remote;
      callbacks = storing;
      result = of_fields [];
      success = false;
      result_received = false;
    };
    pending = ground arith;
    fills = refl;
    named =
        lookup-insert remote remote c.next_goal_id c.local_id_by_remote_id
        ∙ ground (arith, eq_iff remote remote);
    only = λ r h.
        only_new remote r c n
          (sym (lookup-insert remote r c.next_goal_id c.local_id_by_remote_id) ∙ h);
  }

  -- sendGoal of a goal that is accepted.
  pub send_goal-accepted :
      (pid : ℕ) (goal : Json) (cb : Callbacks) (o : Sending) (c : RemoteClient Json)
      (s : CmdStorage Json) (text : String) (j : Json)
      → o.exchange ≡ response text
      → J.parse text ≡ some j
      → is_accepted q J what j ≡ some true
      → send_goal q J what pid goal cb o (c, s) ≡ (
          let remote = make_remote_goal_id q J what pid o.now c.next_goal_id in
          let x = listen_all q J what o.meanwhile (register_goal q J what remote cb c, s) in
          (
            (
              record x.0 { requests = J.dump (goal_request q J what remote goal) ∷ x.0.requests },
              x.1,
            ),
            gave c.next_goal_id,
          ))
  unfolding send_goal call_goal_socket read_response parsed conclude_goal
  send_goal-accepted pid goal cb o c s text j e p acc =
      let id = c.next_goal_id in
      let remote = make_remote_goal_id q J what pid o.now id in
      let x = listen_all q J what o.meanwhile (register_goal q J what remote cb c, s) in
      let r = goal_request q J what remote goal in
      let c1 : RemoteClient Json = record x.0 { requests = J.dump r ∷ x.0.requests } in
      ap (λ ex. read_response q J what id (call_goal_socket q J what ex r x.0) x.1) e
      ∙ ap (λ y. read_response q J what id (parsed q J what y c1) x.1) p
      ∙ ap (λ y. conclude_goal q J what id y j (c1, x.1)) acc

  -- The local id, once the response accepts the goal.
  sent-answered :
      (remote : String) (judge : Option (ResultEntry Json) → CmdReply Json) (late : CmdReply Json)
      (id limit : ℕ) (rounds : List (Round Json)) (a : BaseAgent Json) (c : RemoteClient Json)
      → a.legacy_remote_action_client ≡ some c
      → Open id remote c
      → (poll q J what judge late id limit rounds
          (record a { cmd_storage = reserve id a.cmd_storage })).1
        ≡ answered remote judge late limit rounds (get_result id a.cmd_storage)
  sent-answered remote judge late id limit rounds a c h w =
      poll-answered remote judge late id limit rounds
        (record a { cmd_storage = reserve id a.cmd_storage }) c h w
      ∙ ap (answered remote judge late limit rounds) (reserve-held id a.cmd_storage)

  module _ (pid limit : ℕ) (name : String) (params : Json) (d : Delivery Json)
      (rounds : List (Round Json)) where
    abbrev goal : Json
    goal = goal_of q J what name params

    abbrev remote_name : RemoteClient Json → String
    remote_name c = make_remote_goal_id q J what pid d.remote.now c.next_goal_id

    -- cmd that waits, of a connected agent with a remote client whose response accepts the goal: the
    -- reply is the reference's, which starts from what the storage holds under the goal's local id, takes
    -- the newest result for the goal's remote name, and says "Timeout" once the clock has reached the
    -- limit; no other message has an influence.
    pub cmd-answered :
        (text : String) (j : Json) (c : RemoteClient Json) (a : BaseAgent Json)
        → Numbered c
        → a.legacy_remote_action_client ≡ some c
        → a.is_connected ≡ true
        → d.remote.exchange ≡ response text
        → J.parse text ≡ some j
        → is_accepted q J what j ≡ some true
        → (cmd q J what pid name params true limit d rounds a).1
          ≡ answered
              (remote_name c)
              (verdict q J what)
              (cmd_result q J what false "Timeout" J.null)
              limit
              rounds
              (newest_result q J what
                (remote_name c)
                d.remote.meanwhile
                (get_result c.next_goal_id a.cmd_storage))
    unfolding cmd cmd_sent send_by has_client is_some
    cmd-answered text j c a n h k e p acc =
        let remote = remote_name c in
        let x =
          listen_all q J what d.remote.meanwhile
            (register_goal q J what remote storing c, a.cmd_storage) in
        let (v, u) =
          listen_all-Leaves q J what c.next_goal_id remote d.remote.meanwhile
            (register_goal q J what remote storing c, a.cmd_storage)
            (register_goal-Open remote c n) in
        let sent = send_goal-accepted pid goal storing d.remote c a.cmd_storage text j e p acc in
        let c1 : RemoteClient Json = record x.0 {
          requests = J.dump (goal_request q J what remote goal) ∷ x.0.requests;
        } in
        ap₂
          (λ (b : Bool) l.
            (if b
              then if a.action_client || is_some l
                then cmd_sent q J what true limit rounds (send_by q J what pid l goal d a)
                else (a, none)
              else (a, some (cmd_result q J what false "Not connected" J.null))).1)
          k h
        ∙ ap
            (λ (b : Bool).
              (if b
                then cmd_sent q J what true limit rounds (send_by q J what pid (some c) goal d a)
                else (a, none)).1)
            (or_true a.action_client)
        ∙ ap
            (λ (y : Linked Json × Outcome ℕ).
              (cmd_sent q J what true limit rounds (
                record a { legacy_remote_action_client = some y.0.0; cmd_storage = y.0.1 },
                y.1,
              )).1)
            sent
        ∙ sent-answered remote (verdict q J what) (cmd_result q J what false "Timeout" J.null)
            c.next_goal_id limit rounds
            (record a { legacy_remote_action_client = some c1; cmd_storage = x.1 }) c1 refl
            (with_requests c.next_goal_id remote x.0 (c1.requests) v)
        ∙ ap
            (answered remote (verdict q J what) (cmd_result q J what false "Timeout" J.null) limit
              rounds)
            u
