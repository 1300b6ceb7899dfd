-- ===== src/Agent/Sessions.antt =====
-- What connect and disconnect leave.
use Prim.Native.String.{◌++◌}
use xreal_bsp_rgb_tool.Prelude.{
  ℕ, ◌≡◌, refl, sym, ap, ap₂, subst, ◌∙◌, Bool, true, false, not, ◌||◌, List, [], ◌∷◌, Option, none,
  some, String, if◌then◌else◌, arith, if_both,
}
use xreal_bsp_rgb_tool.Prelude.Tables.{blank}
use xreal_bsp_rgb_tool.Platform.{Text, JsonLib}
use xreal_bsp_rgb_tool.Manager.Fields.{◌>>=◌}
use xreal_bsp_rgb_tool.Agent.Storage.{is_some}
use xreal_bsp_rgb_tool.Agent.Remote.{RemoteClient, Linked, Attempt, wait_for_server, new_client}
use xreal_bsp_rgb_tool.Agent.Base.{BaseAgent, AgentEffect, is_remote_mode, has_client}
use xreal_bsp_rgb_tool.Agent.Launch.{
  Shell, Launching, launch_subnode, terminate_subnode, end_process, await_start, log_effects,
  start_subnode, cleanup_stale_subnodes,
}
use xreal_bsp_rgb_tool.Agent.Connection.{
  Linking, Closing, connect, connect_launched, connect_linked, cleanup_and_fail, disconnect,
  close_down, shut, make_local, stop_process, release_steps, close_action_client,
  close_all_subscribers, graceful_release_before_disconnect, create_action_client, make_remote,
  make_echo, link_remote, exited_early,
}

module _ (q : Text) (sh : Shell) (J : JsonLib) (what : String → String) where
  open J use {Json}

  -- An agent that is not connected and holds nothing: no client, no subscriber, and in the local mode no
  -- process.
  pub record Closed (b : BaseAgent Json) : Type 0 where
    pub apart : b.is_connected ≡ false
    pub no_client : has_client b ≡ false
    pub no_subscriber : b.subscribers ≡ blank
    pub no_process : (is_remote_mode q b.settings || not (is_some b.subnode_process)) ≡ true

  -- What connect leaves by the success that it gives.
  unfoldable pub Settled : Bool → BaseAgent Json → Type 0
  Settled true b = (b.is_connected ≡ true) × (has_client b ≡ true)
  Settled false b = Closed b

  -- What the end of the process leaves alone, and what it does in the local mode.
  record Stopped (remote : Bool) (a b : BaseAgent Json) : Type 0 where
    same_settings : b.settings ≡ a.settings
    same_client : b.action_client ≡ a.action_client
    same_remote : b.legacy_remote_action_client ≡ a.legacy_remote_action_client
    same_subscribers : b.subscribers ≡ a.subscribers
    same_storage : b.cmd_storage ≡ a.cmd_storage
    ended : remote ≡ false → b.subnode_process ≡ none

  end_process-Stopped :
      (o : Option ℕ) (finishes : Bool) (a : BaseAgent Json)
      → a.subnode_process ≡ o
      → Stopped false a (end_process q sh o finishes a).0
  unfolding end_process
  end_process-Stopped none finishes a h = record {
    same_settings = refl;
    same_client = refl;
    same_remote = refl;
    same_subscribers = refl;
    same_storage = refl;
    ended = λ e. h;
  }
  end_process-Stopped (some pid) finishes a h = record {
    same_settings = refl;
    same_client = refl;
    same_remote = refl;
    same_subscribers = refl;
    same_storage = refl;
    ended = λ e. refl;
  }

  stop_process-Stopped :
      (remote finishes : Bool) (a : BaseAgent Json)
      → Stopped remote a (stop_process q sh J what remote finishes a)
  unfolding stop_process terminate_subnode
  stop_process-Stopped true finishes a = record {
    same_settings = refl;
    same_client = refl;
    same_remote = refl;
    same_subscribers = refl;
    same_storage = refl;
    ended = λ e. absurd (ground (arith, e));
  }
  stop_process-Stopped false finishes a = end_process-Stopped a.subnode_process finishes a refl

  remote_or : (b : Bool) (p : Option ℕ) → (b ≡ false → p ≡ none) → (b || not (is_some p)) ≡ true
  unfolding is_some
  remote_or true p h = refl
  remote_or false p h = ap (λ (o : Option ℕ). not (is_some o)) (h refl)

  close_down-Closed :
      (finishes : Bool) (a : BaseAgent Json) → Closed (close_down q sh J what finishes a)
  unfolding close_down close_action_client close_all_subscribers has_client is_some
  close_down-Closed finishes a =
      let b : BaseAgent Json = record a {
        action_client = false;
        legacy_remote_action_client = none;
        subscribers = blank;
      } in
      let s = stop_process-Stopped (is_remote_mode q a.settings) finishes b in
      record {
        apart = refl;
        no_client =
            ap₂ (λ (x : Bool) (y : Option (RemoteClient Json)). x || is_some y) s.same_client
              s.same_remote;
        no_subscriber = s.same_subscribers;
        no_process =
            remote_or
              (is_remote_mode q
                (stop_process q sh J what (is_remote_mode q a.settings) finishes b).settings)
              _ (λ e. s.ended (sym (ap (is_remote_mode q) s.same_settings) ∙ e));
      }

  if_or_true {ℓ} : {X : Type ℓ} (b : Bool) (x y : X) → (if b || true then x else y) ≡ x
  if_or_true true x y = refl
  if_or_true false x y = refl

  graceful_apart :
      (pid : ℕ) (o : Closing Json) (a : BaseAgent Json)
      → a.is_connected ≡ false
      → graceful_release_before_disconnect q sh J what pid o a ≡ some a
  unfolding graceful_release_before_disconnect
  graceful_apart pid o a h =
      ap
        (λ (c : Bool).
          if is_remote_mode q a.settings || (not c || not a.action_client)
          then some a
          else release_steps q sh J what pid o a)
        h
      ∙ if_or_true (is_remote_mode q a.settings) (some a) (release_steps q sh J what pid o a)

  failing :
      Closing Json → String → Option (BaseAgent Json) → Option (BaseAgent Json × Bool × String)
  failing o m g = (g >>= shut q sh J what o) >>= λ x. some (x.0, false, m)

  cleanup-Settled :
      (pid : ℕ) (o : Closing Json) (m : String) (a : BaseAgent Json)
      → a.is_connected ≡ false
      → (b : BaseAgent Json) × (ok : Bool) × (n : String) × (cleanup_and_fail q sh J what pid o m a
          ≡ some (b, ok, n))
        × Settled ok b
  unfolding cleanup_and_fail disconnect shut Settled failing
  cleanup-Settled pid o m a h = (
    close_down q sh J what o.finishes a,
    false,
    m,
    ap (failing o m) (graceful_apart pid o a h),
    close_down-Closed o.finishes a,
  )

  logged :
      (es : List AgentEffect) (a : BaseAgent Json)
      → (log_effects q sh es a).is_connected ≡ a.is_connected
  unfolding log_effects
  logged [] a = refl
  logged (e ∷ es) a = logged es (record a { effects = e ∷ a.effects })

  awaited :
      (p : Option ℕ) (alive : Bool) (a : BaseAgent Json)
      → (await_start q sh p alive a).0.is_connected ≡ a.is_connected
  unfolding await_start
  awaited none alive a = refl
  awaited (some pid) true a = refl
  awaited (some pid) false a = refl

  launched :
      (n : Launching) (a : BaseAgent Json)
      → (launch_subnode q sh n a).0.is_connected ≡ a.is_connected
  unfolding launch_subnode start_subnode
  launched n a =
      if_both (λ (x : BaseAgent Json × Bool × String). x.0.is_connected ≡ a.is_connected)
        (is_remote_mode q a.settings) refl
        (if_both (λ (x : BaseAgent Json × Bool × String). x.0.is_connected ≡ a.is_connected)
          (not n.entry_exists) refl
          (awaited n.start n.running_after _ ∙ logged (cleanup_stale_subnodes q sh a.settings n) a))

  -- What createActionClient keeps and, if it succeeds, brings.
  Made : BaseAgent Json → BaseAgent Json × Bool × String → Type 0
  Made a x = (x.0.is_connected ≡ a.is_connected) × ((not x.1 || has_client x.0) ≡ true)

  linked :
      (x : Linked Json × Bool × String) (a : BaseAgent Json) → Made a (link_remote q sh J what x a)
  unfolding Made link_remote has_client is_some
  linked ((c, s), true, e) a = (refl, ground arith)
  linked ((c, s), false, e) a = (refl, refl)

  made_remote :
      (pid : ℕ) (r : Option String) (attempts : List Attempt) (a : BaseAgent Json)
      → Made a (make_remote q sh J what pid r attempts a)
  unfolding Made make_remote
  made_remote pid (some e) attempts a = (refl, refl)
  made_remote pid none attempts a =
      linked (wait_for_server q J what pid "" attempts (new_client, a.cmd_storage)) a

  made_echo : (r : Option String) (a : BaseAgent Json) → Made a (make_echo q sh J what r a)
  unfolding Made make_echo has_client
  made_echo (some e) a = (refl, refl)
  made_echo none a = (refl, refl)

  made_local : (l : Linking) (a : BaseAgent Json) → Made a (make_local q sh J what l a)
  unfolding Made make_local
  made_local l a =
      if_both (Made a) (exited_early (is_some a.subnode_process) l.rounds) (refl, refl)
        (if_both (Made a) (not l.registered) (refl, refl) (made_echo l.refused a))

  given_by :
      (b : Bool) (a : BaseAgent Json) (m : String) (x : BaseAgent Json × Bool × String)
      → b ≡ has_client a
      → Made a x
      → Made a (if b then (a, true, m) else x)
  unfolding Made
  given_by true a m x h p = (refl, sym h)
  given_by false a m x h p = p

  created :
      (pid : ℕ) (l : Linking) (a : BaseAgent Json)
      → Made a (create_action_client q sh J what pid l a)
  unfolding create_action_client has_client Made
  created pid l a = given_by (has_client a) a "ActionClient already exists" _ refl (
      if_both (Made a) (is_remote_mode q a.settings) (made_remote pid l.refused l.attempts a)
        (made_local l a))

  -- The result of connect.
  Ends : Option (BaseAgent Json × Bool × String) → Type 0
  Ends r = (b : BaseAgent Json) × (ok : Bool) × (n : String) × (r ≡ some (b, ok, n)) × Settled ok b

  linked-Ends :
      (pid : ℕ) (o : Closing Json) (x : BaseAgent Json × Bool × String)
      → x.0.is_connected ≡ false
      → (not x.1 || has_client x.0) ≡ true
      → Ends (connect_linked q sh J what pid o x)
  unfolding connect_linked Ends Settled has_client
  linked-Ends pid o (a, false, m) h k =
      cleanup-Settled pid o ("Failed to create ActionClient: " ++ m) a h
  linked-Ends pid o (a, true, m) h k = (_, true, _, refl, (refl, k))

  launched-Ends :
      (pid : ℕ) (l : Linking) (o : Closing Json) (x : BaseAgent Json × Bool × String)
      → x.0.is_connected ≡ false
      → Ends (connect_launched q sh J what pid l o x)
  unfolding connect_launched Ends Made
  launched-Ends pid l o (a, false, m) h =
      cleanup-Settled pid o ("Failed to launch subnode: " ++ m) a h
  launched-Ends pid l o (a, true, m) h =
      let (e, k) = created pid l a in
      linked-Ends pid o (create_action_client q sh J what pid l a) (e ∙ h) k

  -- connect of an agent that is not connected gives a result: with a success the agent is connected and
  -- has a client, otherwise it is not connected and has no client, no subscriber and, in the local mode,
  -- no process.
  pub connect-Settled :
      (pid : ℕ) (n : Launching) (l : Linking) (o : Closing Json) (a : BaseAgent Json)
      → a.is_connected ≡ false
      → (b : BaseAgent Json) × (ok : Bool) × (m : String) × (connect q sh J what pid n l o a
          ≡ some (b, ok, m))
        × Settled ok b
  unfolding connect Ends
  connect-Settled pid n l o a h =
      let x : BaseAgent Json × Bool × String =
        if is_remote_mode q a.settings then (a, true, "") else launch_subnode q sh n a in
      let y =
        if_both (λ (x : BaseAgent Json × Bool × String). x.0.is_connected ≡ false)
          (is_remote_mode q a.settings) h (launched n a ∙ h) in
      subst
        (λ (b : Bool). Ends (
          if b
          then some (a, true, "Already connected")
          else connect_launched q sh J what pid l o x))
        (sym h) (launched-Ends pid l o x y)
