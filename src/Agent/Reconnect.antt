-- ===== src/Agent/Reconnect.antt =====
-- A remote agent that is disconnected and connected again keeps its storage, while its new client counts
-- from 1 again.
use xreal_bsp_rgb_tool.Prelude.{
  ℕ, ◌+◌, ◌≤◌, ◌<◌, ◌^◌, ◌≡◌, refl, sym, ap, subst, ◌∙◌, Bool, true, false, not, ◌||◌, List, [],
  ◌∷◌, Option, none, some, String, if◌then◌else◌, arith, length,
}
use xreal_bsp_rgb_tool.Prelude.Tables.{blank}
use xreal_bsp_rgb_tool.Platform.{Text, JsonLib}
use xreal_bsp_rgb_tool.Manager.Fields.{◌>>=◌}
use xreal_bsp_rgb_tool.Manager.Agents.{CmdReply}
use xreal_bsp_rgb_tool.Agent.Storage.{CmdStorage, ResultEntry, is_some, get_result}
use xreal_bsp_rgb_tool.Agent.Remote.{
  RemoteClient, Linked, Attempt, wait_for_server, new_client, response, is_accepted,
  make_remote_goal_id,
}
use xreal_bsp_rgb_tool.Agent.Base.{
  BaseAgent, Delivery, Round, is_remote_mode, cmd, verdict, cmd_result,
}
use xreal_bsp_rgb_tool.Agent.Launch.{Shell, Launching, launch_subnode}
use xreal_bsp_rgb_tool.Agent.Connection.{
  Linking, Closing, connect, connect_launched, connect_linked, disconnect, close_down, shut,
  make_local, stop_process, close_action_client, close_all_subscribers,
  graceful_release_before_disconnect, release_steps, create_action_client, make_remote, link_remote,
}
use xreal_bsp_rgb_tool.Agent.Answers.{newest_result}
use xreal_bsp_rgb_tool.Agent.Waiting.{Numbered, answered, answer_now, cmd-answered}
use xreal_bsp_rgb_tool.Agent.Listening.{blank-Quiet}
use xreal_bsp_rgb_tool.Agent.Pings.{Pinging, Pinged, wait_for_server-Pinged}

module _ (q : Text) (sh : Shell) (J : JsonLib) (what : String → String) where
  open J use {Json}

  -- A remote agent behind disconnect, and behind the connect that follows with a client and a storage.
  abbrev apart : BaseAgent Json → BaseAgent Json
  apart a = record a {
    action_client = false;
    legacy_remote_action_client = none;
    subscribers = blank;
    is_connected = false;
  }

  abbrev again : Linked Json → BaseAgent Json → BaseAgent Json
  again (c, s) a = record (apart a) {
    legacy_remote_action_client = some c;
    cmd_storage = s;
    is_connected = true;
  }

  disconnect_remote :
      (pid : ℕ) (o : Closing Json) (a : BaseAgent Json)
      → is_remote_mode q a.settings ≡ true
      → disconnect q sh J what pid o a ≡ some (apart a, true, "Disconnected")
  unfolding disconnect shut graceful_release_before_disconnect close_down stop_process
      close_action_client close_all_subscribers
  disconnect_remote pid o a h =
      let b : BaseAgent Json = record a {
        action_client = false;
        legacy_remote_action_client = none;
        subscribers = blank;
      } in
      ap
        (λ (r : Bool).
          (if r || (not a.is_connected || not a.action_client)
            then some a
            else release_steps q sh J what pid o a)
          >>= shut q sh J what o)
        h
      ∙ ap
          (λ (r : Bool). some (
            record (stop_process q sh J what r o.finishes b) { is_connected = false },
            true,
            "Disconnected",
          ))
          h

  linked_up :
      (w : Linked Json × Bool × String) (a : BaseAgent Json)
      → w.1 ≡ true
      → link_remote q sh J what w a ≡ (
        record a { legacy_remote_action_client = some w.0.0; cmd_storage = w.0.1 },
        true,
        "Legacy remote ActionClient created",
      )
  unfolding link_remote
  linked_up ((c, s), true, e) a h = refl
  linked_up ((c, s), false, e) a h = absurd (ground (arith, h))

  connect_remote :
      (pid : ℕ) (n : Launching) (l : Linking) (o : Closing Json) (a : BaseAgent Json)
      → is_remote_mode q a.settings ≡ true
      → l.refused ≡ none
      → (wait_for_server q J what pid "" l.attempts (new_client, a.cmd_storage)).1 ≡ true
      → connect q sh J what pid n l o (apart a)
        ≡ some (
          again (wait_for_server q J what pid "" l.attempts (new_client, a.cmd_storage)).0 a,
          true,
          "Connected (remote mode)",
        )
  unfolding connect connect_launched connect_linked create_action_client make_remote is_some
  connect_remote pid n l o a h k w =
      let b = apart a in
      let s = wait_for_server q J what pid "" l.attempts (new_client, a.cmd_storage) in
      let e : BaseAgent Json = record b {
        legacy_remote_action_client = some s.0.0;
        cmd_storage = s.0.1;
      } in
      ap
        (λ (r : Bool).
          connect_launched q sh J what pid l o
            (if r then (b, true, "") else launch_subnode q sh n b))
        h
      ∙ ap
          (λ (r : Bool). connect_linked q sh J what pid o (
            if r
            then make_remote q sh J what pid l.refused l.attempts b
            else make_local q sh J what l b))
          h
      ∙ ap (λ r. connect_linked q sh J what pid o (make_remote q sh J what pid r l.attempts b)) k
      ∙ ap (connect_linked q sh J what pid o) (linked_up s b w)
      ∙ ap
          (λ (r : Bool). some (
            record e { is_connected = true },
            true,
            if r then "Connected (remote mode)" else "Connected",
          ))
          h

  new_client-Pinging : (s : CmdStorage Json) → Pinging q J what 1 s (new_client, s)
  new_client-Pinging s = record {
    stored = refl;
    next = refl;
    silent = blank-Quiet Json;
    below = λ r l e. absurd (ground (arith, e));
  }

  -- What the wait for the server leaves of a new client.
  pinged_client :
      (pid : ℕ) (attempts : List Attempt) (s : CmdStorage Json)
      → 1 + length attempts < 2 ^ 32
      → (w : Linked Json × Bool × String)
      → w ≡ wait_for_server q J what pid "" attempts (new_client, s)
      → w.1 ≡ true
      → (w.0.1 ≡ s)
        × Numbered w.0.0
        × (2 ≤ w.0.0.next_goal_id)
        × (w.0.0.next_goal_id ≤ 1 + length attempts)
  unfolding Pinged
  pinged_client pid attempts s h (x, true, e) k g =
      let (m, u, l, p) = subst (Pinged q J what 1 (length attempts) s) (sym k) (
        wait_for_server-Pinged q J what 1 s pid "" attempts (new_client, s) h
          (new_client-Pinging s)) in
      (
        p.stored,
        record { below = λ r i y. subst (λ n. i < n) (sym p.next) (p.below r i y) },
        omega (arith, l, p.next),
        omega (arith, u, p.next),
      )
  pinged_client pid attempts s h (x, false, e) k g = absurd (ground (arith, g))

  abbrev reply_to :
      ℕ
      → ℕ
      → Delivery Json
      → RemoteClient Json
      → List (Round Json)
      → Option (ResultEntry Json)
      → Option (CmdReply Json)
  reply_to pid limit d c rounds =
      answered q J what (make_remote_goal_id q J what pid d.remote.now c.next_goal_id)
        (verdict q J what) (cmd_result q J what false "Timeout" J.null) limit rounds

  -- A remote agent is disconnected and connected again, a ping of the new client having been answered:
  -- both succeed, the client's next goal is at least 2 and at most 1 more than the pings that could be
  -- sent, and where the storage held a result under that number before, a command that waits, whose goal
  -- is accepted and for which no message comes before it first looks, replies with that old result,
  -- whatever comes later.
  pub reconnect-stale :
      (pid limit : ℕ) (n : Launching) (l : Linking) (o p : Closing Json) (name text : String)
      (params j : Json) (d : Delivery Json) (r : Round Json) (rounds : List (Round Json))
      (a : BaseAgent Json) (e : ResultEntry Json)
      → is_remote_mode q a.settings ≡ true
      → l.refused ≡ none
      → 1 + length l.attempts < 2 ^ 32
      → (wait_for_server q J what pid "" l.attempts (new_client, a.cmd_storage)).1 ≡ true
      → get_result
          (wait_for_server q J what pid "" l.attempts (new_client, a.cmd_storage)).0.0.next_goal_id
          a.cmd_storage
        ≡ some e
      → d.remote.exchange ≡ response text
      → J.parse text ≡ some j
      → is_accepted q J what j ≡ some true
      → d.remote.meanwhile ≡ []
      → (b f : BaseAgent Json) × (c : RemoteClient Json) × (disconnect q sh J what pid o a
          ≡ some (b, true, "Disconnected"))
        × (connect q sh J what pid n l p b ≡ some (f, true, "Connected (remote mode)"))
        × (f.legacy_remote_action_client ≡ some c)
        × (2 ≤ c.next_goal_id)
        × (c.next_goal_id ≤ 1 + length l.attempts)
        × ((cmd q J what pid name params true limit d (r ∷ rounds) f).1
            ≡ some (verdict q J what (some e)))
  unfolding answered answer_now newest_result
  reconnect-stale pid limit n l o p name text params j d r rounds a e h k len w held x y z m =
      let s = wait_for_server q J what pid "" l.attempts (new_client, a.cmd_storage) in
      let (stored, numbered, low, high) = pinged_client pid l.attempts a.cmd_storage len s refl w in
      (
        apart a,
        again s.0 a,
        s.0.0,
        disconnect_remote pid o a h,
        connect_remote pid n l p a h k w,
        refl,
        low,
        high,
        cmd-answered q J what pid limit name params d (r ∷ rounds) text j s.0.0 (again s.0 a)
              numbered refl refl x y z
            ∙ ap
                (λ ms. reply_to pid limit d s.0.0 (r ∷ rounds) (
                  newest_result q J what
                    (make_remote_goal_id q J what pid d.remote.now s.0.0.next_goal_id) ms
                    (get_result s.0.0.next_goal_id s.0.1)))
                m
            ∙ ap (λ st. reply_to pid limit d s.0.0 (r ∷ rounds) (get_result s.0.0.next_goal_id st))
                stored
            ∙ ap (reply_to pid limit d s.0.0 (r ∷ rounds)) held,
      )
