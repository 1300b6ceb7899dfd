-- ===== src/Agent/Pings.antt =====
-- What the pings of a new remote client keep.
use text.Mathlib.Text.{◌==◌}
use xreal_bsp_rgb_tool.Prelude.{
  ℕ, suc, ◌+◌, ◌≤◌, ◌<◌, ◌^◌, ◌≡◌, refl, sym, ◌∙◌, Bool, true, false, List, [], ◌∷◌, Option, none,
  some, String, if◌then◌else◌, arith, Bool-cases, inl, inr, length,
}
use xreal_bsp_rgb_tool.Prelude.Maps.{lookup, lookup-insert, lookup-erase}
use xreal_bsp_rgb_tool.Platform.{Text, JsonLib}
use xreal_bsp_rgb_tool.Agent.Storage.{CmdStorage}
use xreal_bsp_rgb_tool.Agent.Remote.{
  RemoteClient, PendingGoal, Callbacks, storing, no_callbacks, Linked, find_goal, call_back,
  give_result, give_feedback, listen_all, send_goal, register_goal, read_response, call_goal_socket,
  parsed, conclude_goal, is_accepted, Exchange, not_sent, no_response, response, socket_error,
  Outcome, threw, gave, reset_goal_socket, remove_goal, forget, Sending, Attempt, await_ping,
  wait_for_result, wait_for_server, make_remote_goal_id, ping, goal_request,
}
use xreal_bsp_rgb_tool.Agent.Goals.{Located, located}
use xreal_bsp_rgb_tool.Agent.Listening.{Quiet, put-Quiet, remove-Quiet, listen_all_P}

module _ (q : Text) (J : JsonLib) (what : String → String) where
  open J use {Json, as_object}

  -- A client all whose goals are pings, `n` being its next local id, beside a storage.
  pub record Pinging (n : ℕ) (s : CmdStorage Json) (x : Linked Json) : Type 0 where
    pub stored : x.1 ≡ s
    pub next : x.0.next_goal_id ≡ n
    pub silent : Quiet x.0.pending_by_local_id
    pub below : (r : String) (l : ℕ) → lookup r x.0.local_id_by_remote_id ≡ some l → l < n

  call_back-silent :
      (cb : Callbacks) (c : _) (s : CmdStorage Json) → cb ≡ no_callbacks → call_back cb c s ≡ s
  unfolding call_back
  call_back-silent storing c s h = absurd (ground (arith, h))
  call_back-silent no_callbacks c s h = refl

  feedback-Pinging :
      (n : ℕ) (s : CmdStorage Json) (f : Json) (r : String) (o : Option (ℕ × PendingGoal Json))
      (x : Linked Json)
      → Located r x.0 o
      → Pinging n s x
      → Pinging n s (give_feedback f o x)
  unfolding give_feedback Located Quiet
  feedback-Pinging n s f r none x h p = p
  feedback-Pinging n s f r (some (l, g)) (c, t) (h, k) p = record {
    stored = call_back-silent g.callbacks _ t (p.silent l g k) ∙ p.stored;
    next = p.next;
    silent = p.silent;
    below = p.below;
  }

  result-Pinging :
      (n : ℕ) (s : CmdStorage Json) (j : Json) (b : Bool) (r : String)
      (o : Option (ℕ × PendingGoal Json)) (x : Linked Json)
      → Located r x.0 o
      → Pinging n s x
      → Pinging n s (give_result j b o x)
  unfolding give_result Located Quiet
  result-Pinging n s j b r none x h p = p
  result-Pinging n s j b r (some (l, g)) (c, t) (h, k) p = record {
    stored = call_back-silent g.callbacks _ t (p.silent l g k) ∙ p.stored;
    next = p.next;
    silent =
        put-Quiet l (record g { result = j; success = b; result_received = true })
          c.pending_by_local_id (p.silent l g k) p.silent;
    below = p.below;
  }

  listen-Pinging :
      (n : ℕ) (s : CmdStorage Json) (ms : List (List String)) (x : Linked Json)
      → Pinging n s x
      → Pinging n s (listen_all q J what ms x)
  listen-Pinging n s =
      listen_all_P q J what (Pinging n s)
        (λ f r x p. feedback-Pinging n s f r (find_goal r x.0) x (located r x.0) p)
        (λ j b r x p. result-Pinging n s j b r (find_goal r x.0) x (located r x.0) p)

  below_new :
      (n : ℕ) (x : Linked Json) (remote r : String) (l : ℕ)
      → x.0.next_goal_id ≡ n
      → ((s : String) (i : ℕ) → lookup s x.0.local_id_by_remote_id ≡ some i → i < n)
      → (if remote == r then some x.0.next_goal_id else lookup r x.0.local_id_by_remote_id) ≡ some l
      → l < suc n
  below_new n x remote r l h p e = elim (Bool-cases (remote == r)) [
    | inl y ↦ ground (arith, y, e, h)
    | inr y ↦ let z = p r l (ground (arith, y, e)) in omega (arith, z)
  ]

  register-Pinging :
      (n : ℕ) (s : CmdStorage Json) (remote : String) (x : Linked Json)
      → suc n < 2 ^ 32
      → Pinging n s x
      → Pinging (suc n) s (register_goal q J what remote no_callbacks x.0, x.1)
  unfolding register_goal
  register-Pinging n s remote x h p = record {
    stored = p.stored;
    next = omega (arith, p.next, h);
    silent = put-Quiet x.0.next_goal_id _ x.0.pending_by_local_id refl p.silent;
    below = λ r l e.
        below_new n x remote r l p.next p.below
          (sym (lookup-insert remote r x.0.next_goal_id x.0.local_id_by_remote_id) ∙ e);
  }

  forget-Pinging :
      (n : ℕ) (s : CmdStorage Json) (id : ℕ) (o : Option (PendingGoal Json)) (x : Linked Json)
      → Pinging n s x
      → Pinging n s (forget id o x.0, x.1)
  unfolding forget
  forget-Pinging n s id none x p = record {
    stored = p.stored;
    next = p.next;
    silent = p.silent;
    below = p.below;
  }
  forget-Pinging n s id (some g) x p = record {
    stored = p.stored;
    next = p.next;
    silent = remove-Quiet id x.0.pending_by_local_id p.silent;
    below = λ r l e.
        p.below r l
          (ground (arith, sym (lookup-erase g.remote_goal_id r x.0.local_id_by_remote_id) ∙ e));
  }

  remove-Pinging :
      (n : ℕ) (s : CmdStorage Json) (id : ℕ) (x : Linked Json)
      → Pinging n s x
      → Pinging n s (remove_goal id x.0, x.1)
  unfolding remove_goal
  remove-Pinging n s id x p = forget-Pinging n s id (x.0.pending_by_local_id id) x p

  touched :
      (n : ℕ) (s t : CmdStorage Json) (k : ℕ) (r : List String) (c : RemoteClient Json)
      → Pinging n s (c, t)
      → Pinging n s (record c { goal_sockets = k; requests = r }, t)
  touched n s t k r c p = record {
    stored = p.stored;
    next = p.next;
    silent = p.silent;
    below = p.below;
  }

  parsed-Pinging :
      (n : ℕ) (s t : CmdStorage Json) (o : Option Json) (c : RemoteClient Json)
      → Pinging n s (c, t)
      → Pinging n s ((parsed q J what o c).0, t)
  unfolding parsed reset_goal_socket
  parsed-Pinging n s t none c p = touched n s t _ _ c p
  parsed-Pinging n s t (some j) c p = p

  exchange-Pinging :
      (n : ℕ) (s t : CmdStorage Json) (ex : Exchange) (r : Json) (c : RemoteClient Json)
      → Pinging n s (c, t)
      → Pinging n s ((call_goal_socket q J what ex r c).0, t)
  unfolding call_goal_socket reset_goal_socket
  exchange-Pinging n s t (socket_error e) r c p = touched n s t _ _ c p
  exchange-Pinging n s t not_sent r c p = touched n s t _ _ c p
  exchange-Pinging n s t no_response r c p = touched n s t _ _ c p
  exchange-Pinging n s t (response text) r c p =
      parsed-Pinging n s t (J.parse text) _ (touched n s t _ _ c p)

  conclude-Pinging :
      (n : ℕ) (s : CmdStorage Json) (id : ℕ) (o : Option Bool) (r : Json) (x : Linked Json)
      → Pinging n s x
      → Pinging n s (conclude_goal q J what id o r x).0
  unfolding conclude_goal
  conclude-Pinging n s id (some true) r x p = p
  conclude-Pinging n s id (some false) r (c, t) p =
      remove-Pinging n s id _ (remove-Pinging n s id (c, t) p)
  conclude-Pinging n s id none r (c, t) p = remove-Pinging n s id (c, t) p

  response-Pinging :
      (n : ℕ) (s t : CmdStorage Json) (id : ℕ) (y : RemoteClient Json × Outcome Json)
      → Pinging n s (y.0, t)
      → Pinging n s (read_response q J what id y t).0
  unfolding read_response
  response-Pinging n s t id (c, threw e) p = remove-Pinging n s id (c, t) p
  response-Pinging n s t id (c, gave r) p =
      conclude-Pinging n s id (is_accepted q J what r) r (c, t) p

  send-Pinging :
      (n : ℕ) (s : CmdStorage Json) (pid : ℕ) (goal : Json) (o : Sending) (x : Linked Json)
      → suc n < 2 ^ 32
      → Pinging n s x
      → Pinging (suc n) s (send_goal q J what pid goal no_callbacks o x).0
  unfolding send_goal
  send-Pinging n s pid goal o (c, t) h p =
      let remote = make_remote_goal_id q J what pid o.now c.next_goal_id in
      let y = listen_all q J what o.meanwhile (register_goal q J what remote no_callbacks c, t) in
      response-Pinging (suc n) s y.1 c.next_goal_id _ (
        exchange-Pinging (suc n) s y.1 o.exchange (goal_request q J what remote goal) y.0
          (listen-Pinging (suc n) s o.meanwhile _ (register-Pinging n s remote (c, t) h p)))

  await-Pinging :
      (n : ℕ) (s : CmdStorage Json) (ms : List (List String)) (y : Linked Json × Outcome ℕ)
      → Pinging n s y.0
      → Pinging n s (await_ping q J what ms y).0
  unfolding await_ping wait_for_result
  await-Pinging n s ms (x, threw e) p = p
  await-Pinging n s ms (x, gave id) p = remove-Pinging n s id _ (listen-Pinging n s ms x p)

  -- A wait that has sent pings from number `n` on, at most `k`, and one at least if it succeeds.
  unfoldable pub Pinged : ℕ → ℕ → CmdStorage Json → Linked Json × Bool × String → Type 0
  Pinged n k s (x, ok, e) =
      (m : ℕ) × (m ≤ n + k) × (if ok then suc n ≤ m else n ≤ m) × Pinging m s x

  one_more :
      (n k : ℕ) (s : CmdStorage Json) (x : Linked Json × Bool × String)
      → Pinged (suc n) k s x
      → Pinged n (suc k) s x
  unfolding Pinged
  one_more n k s (x, true, e) (m, h, l, p) = (m, omega (arith, h), omega (arith, l), p)
  one_more n k s (x, false, e) (m, h, l, p) = (m, omega (arith, h), omega (arith, l), p)

  attempts-Pinged :
      (n k : ℕ) (s : CmdStorage Json) (y : Linked Json × Option String)
      (wait : String → Linked Json × Bool × String)
      → Pinging (suc n) s y.0
      → ((e : String) → Pinged (suc n) k s (wait e))
      → Pinged n (suc k) s (elim y.1 [ none ↦ (y.0, true, "") | some e ↦ wait e ])
  unfolding Pinged
  attempts-Pinged n k s (x, none) wait p h = (suc n, omega arith, omega arith, p)
  attempts-Pinged n k s (x, some e) wait p h = one_more n k s (wait e) (h e)

  pub wait_for_server-Pinged :
      (n : ℕ) (s : CmdStorage Json) (pid : ℕ) (last : String) (attempts : List Attempt)
      (x : Linked Json)
      → n + length attempts < 2 ^ 32
      → Pinging n s x
      → Pinged n (length attempts) s (wait_for_server q J what pid last attempts x)
  unfolding wait_for_server Pinged
  wait_for_server-Pinged n s pid last [] x h p = (n, omega arith, omega arith, p)
  wait_for_server-Pinged n s pid last ((o, ms) ∷ attempts) x h p =
      let sent = send_goal q J what pid (ping q J what) no_callbacks o x in
      let y = await_ping q J what ms sent in
      attempts-Pinged n (length attempts) s y (λ e. wait_for_server q J what pid e attempts y.0)
        (await-Pinging (suc n) s ms sent (send-Pinging n s pid (ping q J what) o x (omega arith) p))
        (λ e. wait_for_server-Pinged (suc n) s pid e attempts y.0 (omega (arith, h)) (
          await-Pinging (suc n) s ms sent
            (send-Pinging n s pid (ping q J what) o x (omega arith) p)))
