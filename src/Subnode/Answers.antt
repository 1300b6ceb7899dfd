-- ===== src/Subnode/Answers.antt =====
-- Every goal is answered once.
use xreal_bsp_rgb_tool.Prelude.{
  ℕ, zero, suc, ◌+◌, ◌≡◌, refl, sym, ap, subst, ◌∙◌, Bool, true, false, List, [], ◌∷◌, Option, none,
  some, String, if◌then◌else◌, arith, if_both,
}
use xreal_bsp_rgb_tool.Prelude.{◌==◌ as same_ℕ}
use xreal_bsp_rgb_tool.Prelude.Int.{ℤ, pos, ltb_ℤ}
use xreal_bsp_rgb_tool.Prelude.Maps.{lookup}
use xreal_bsp_rgb_tool.Platform.{Text, JsonLib}
use xreal_bsp_rgb_tool.Manager.Fields.{◌>>=◌}
use xreal_bsp_rgb_tool.Subnode.{
  passed_on, check_result, Subnode, Goal, Handler, check_handler, estop_handler, sleep_handler,
  topics_handler, root_path_handler, device_handler, Sleep, send_result,
}
use xreal_bsp_rgb_tool.Subnode.Commands.{
  NodeEvent, arrive, start, look, put_back, take_goal, not_registered, message, slept, topics_reply,
  root_path_of, finish_goal, accept_goal, queue_goal, read_goal, receive_goal, start_goal,
  start_free, look_if, look_up, begin_sleep, run_handler, node_step, run_node, duration_of,
}

unfoldable pub one_if : Bool → ℕ
one_if true = 1
one_if false = 0

-- How often an id stands among the results, the goals that wait, and the command that sleeps.
unfoldable pub count_results {ℓ} : {X : Type ℓ} → ℕ → List (ℕ × X × Bool) → ℕ
unfolding one_if
count_results i [] = 0
count_results i ((j, x, ok) ∷ rest) = one_if (same_ℕ j i) + count_results i rest

unfoldable pub count_sleep : ℕ → Option Sleep → ℕ
unfolding one_if
count_sleep i none = 0
count_sleep i (some z) = one_if (same_ℕ z.goal_id i)

module _ {Json : Type 0} where
  unfoldable pub count_goals : ℕ → List (Goal Json) → ℕ
  unfolding one_if
  count_goals i [] = 0
  count_goals i (g ∷ gs) = one_if (same_ℕ g.goal_id i) + count_goals i gs

  unfoldable pub tally : ℕ → Subnode Json → ℕ
  unfolding count_results count_goals count_sleep
  tally i s = count_results i s.results + count_goals i s.waiting + count_sleep i s.sleeping

  unfoldable pub arrival : ℕ → NodeEvent Json → ℕ
  unfolding one_if
  arrival i (arrive j goal) = one_if (same_ℕ j i)
  arrival i (start n device) = 0
  arrival i look = 0

  -- How often a goal with an id arrives.
  unfoldable pub arrivals : ℕ → List (NodeEvent Json) → ℕ
  unfolding arrival
  arrivals i [] = 0
  arrivals i (e ∷ es) = arrival i e + arrivals i es

  -- A node that can send results, and counts `n` for an id.
  pub record Serves (i n : ℕ) (s : Subnode Json) : Type 0 where
    pub open_ended : s.is_shutting_down ≡ false
    pub has_server : s.action_server ≡ true
    pub counts : tally i s ≡ n

  -- What taking a goal out of a list that counts `c` leaves.
  Counted : ℕ → ℕ → Option (Goal Json × List (Goal Json)) → Type 0
  Counted i c none = Unit
  Counted i c (some (g, rest)) = c ≡ one_if (same_ℕ g.goal_id i) + count_goals i rest

  put_back-Counted :
      (i c : ℕ) (x : Goal Json) (o : Option (Goal Json × List (Goal Json)))
      → Counted i c o
      → Counted i (one_if (same_ℕ x.goal_id i) + c) (put_back x o)
  unfolding Counted put_back count_goals
  put_back-Counted i c x none h = tt
  put_back-Counted i c x (some (g, rest)) h = omega (arith, h)

  taken : (i n : ℕ) (gs : List (Goal Json)) → Counted i (count_goals i gs) (take_goal n gs)
  unfolding take_goal count_goals Counted
  taken i n [] = tt
  taken i zero (x ∷ xs) = refl
  taken i (suc n) (x ∷ xs) = put_back-Counted i (count_goals i xs) x (take_goal n xs) (taken i n xs)

module _ (q : Text) (J : JsonLib) (what : String → String) where
  open J use {Json}

  sent :
      (i n id : ℕ) (r : Json) (ok : Bool) (s : Subnode Json)
      → Serves i n s
      → Serves i (one_if (same_ℕ id i) + n) (send_result id r ok s)
  unfolding send_result tally count_results
  sent i n id r ok s v =
      let t : Subnode Json = record s { results = (id, r, ok) ∷ s.results } in
      let same : send_result id r ok s ≡ t =
        ap (λ (b : Bool). if b then s else if s.action_server then t else s) v.open_ended
        ∙ ap (λ (b : Bool). if b then t else s) v.has_server in
      subst (Serves i (one_if (same_ℕ id i) + n)) (sym same) (record {
        open_ended = v.open_ended;
        has_server = v.has_server;
        counts = omega (arith, v.counts);
      })

  finished :
      (i n id : ℕ) (o : Option Json) (s : Subnode Json)
      → Serves i n s
      → Serves i (one_if (same_ℕ id i) + n) (finish_goal q J what id o s)
  unfolding finish_goal
  finished i n id o s v = sent i n id _ _ s v

  queued :
      (i n : ℕ) (h : Option Handler) (g : Goal Json) (s : Subnode Json)
      → Serves i n s
      → Serves i (one_if (same_ℕ g.goal_id i) + n) (queue_goal q J what h g s)
  unfolding queue_goal tally count_goals
  queued i n none g s v = finished i n g.goal_id (some (not_registered q J what g)) s v
  queued i n (some h) g s v = record {
    open_ended = v.open_ended;
    has_server = v.has_server;
    counts = omega (arith, v.counts);
  }

  accepted_goal :
      (i n id : ℕ) (o : Option (String × Json)) (s : Subnode Json)
      → Serves i n s
      → Serves i (one_if (same_ℕ id i) + n) (accept_goal q J what id o s)
  unfolding accept_goal
  accepted_goal i n id none s v = finished i n id none s v
  accepted_goal i n id (some (name, params)) s v =
      queued i n (lookup name s.cmd_handlers)
        (record { goal_id = id; cmd_name = name; params = params }) s v

  began :
      (i n id : ℕ) (o : Option ℤ) (s : Subnode Json)
      → s.sleeping ≡ none
      → Serves i n s
      → Serves i (one_if (same_ℕ id i) + n) (begin_sleep q J what id o s)
  unfolding begin_sleep tally count_sleep
  began i n id none s h v = finished i n id none s v
  began i n id (some d) s h v = record {
    open_ended = v.open_ended;
    has_server = v.has_server;
    counts = omega (arith, v.counts, ap (count_sleep i) h);
  }

  handled :
      (i n : ℕ) (h : Option Handler) (g : Goal Json) (device : Option Json) (s : Subnode Json)
      → s.sleeping ≡ none
      → Serves i n s
      → Serves i (one_if (same_ℕ g.goal_id i) + n) (run_handler q J what h g device s)
  unfolding run_handler tally
  handled i n none g device s e v = finished i n g.goal_id device s v
  handled i n (some check_handler) g device s e v =
      finished i n g.goal_id (device >>= check_result J) s v
  handled i n (some estop_handler) g device s e v =
      finished i n g.goal_id (device >>= passed_on J) (record s { estop_flag = true })
        (record { open_ended = v.open_ended; has_server = v.has_server; counts = v.counts })
  handled i n (some sleep_handler) g device s e v =
      began i n g.goal_id (duration_of q J what g.params) s e v
  handled i n (some topics_handler) g device s e v =
      finished i n g.goal_id (some (topics_reply q J what s.agent_topics)) s v
  handled i n (some root_path_handler) g device s e v =
      finished i n g.goal_id (some (root_path_of q J what s.root_path)) s v
  handled i n (some device_handler) g device s e v = finished i n g.goal_id device s v

  started :
      (i n : ℕ) (o : Option (Goal Json × List (Goal Json))) (device : Option Json)
      (s : Subnode Json)
      → s.sleeping ≡ none
      → Counted i (count_goals i s.waiting) o
      → Serves i n s
      → Serves i n (start_goal q J what o device s)
  unfolding start_goal Counted tally
  started i n none device s e h v = v
  started i n (some (g, rest)) device s e h v =
      let m = count_results i s.results + count_goals i rest + count_sleep i s.sleeping in
      subst
        (λ k. Serves i k (
          run_handler q J what (lookup g.cmd_name s.cmd_handlers) g device
            (record s { waiting = rest })))
        (omega (arith, h, v.counts))
        (handled i m (lookup g.cmd_name s.cmd_handlers) g device (record s { waiting = rest }) e
          (record { open_ended = v.open_ended; has_server = v.has_server; counts = refl }))

  freed :
      (i n place : ℕ) (o : Option Sleep) (device : Option Json) (s : Subnode Json)
      → s.sleeping ≡ o
      → Serves i n s
      → Serves i n (start_free q J what o place device s)
  unfolding start_free
  freed i n place none device s e v =
      started i n (take_goal place s.waiting) device s e (taken i place s.waiting) v
  freed i n place (some z) device s e v = v

  woken :
      (i n : ℕ) (z : Sleep) (o : Option Json) (s : Subnode Json)
      → s.sleeping ≡ some z
      → Serves i n s
      → Serves i n (finish_goal q J what z.goal_id o (record s { sleeping = none }))
  unfolding tally count_sleep
  woken i n z o s e v =
      let m = count_results i s.results + count_goals i s.waiting in
      let h = ap (count_sleep i) e in
      subst (λ k. Serves i k (finish_goal q J what z.goal_id o (record s { sleeping = none })))
        (omega (arith, h, v.counts))
        (finished i m z.goal_id o (record s { sleeping = none })
          (record { open_ended = v.open_ended; has_server = v.has_server; counts = omega arith }))

  dozed :
      (i n : ℕ) (z : Sleep) (k : ℕ) (s : Subnode Json)
      → s.sleeping ≡ some z
      → Serves i n s
      → Serves i n (record s { sleeping = some (record z { elapsed = k }) })
  unfolding tally count_sleep
  dozed i n z k s e v = record {
    open_ended = v.open_ended;
    has_server = v.has_server;
    counts = omega (arith, v.counts, ap (count_sleep i) e);
  }

  looked :
      (i n : ℕ) (o : Option Sleep) (s : Subnode Json)
      → s.sleeping ≡ o
      → Serves i n s
      → Serves i n (look_if q J what o s)
  unfolding look_if look_up
  looked i n none s e v = v
  looked i n (some z) s e v =
      if_both (Serves i n) (ltb_ℤ (pos z.elapsed) z.duration)
        (if_both (Serves i n) s.estop_flag
          (woken i n z (some (message q J what false "Sleep interrupted by emergency stop")) s e v)
          (dozed i n z (z.elapsed + 1) s e v))
        (woken i n z (some (slept q J what z)) s e v)

  stepped :
      (i n : ℕ) (e : NodeEvent Json) (s : Subnode Json)
      → Serves i n s
      → Serves i (arrival i e + n) (node_step q J what e s)
  unfolding node_step arrival receive_goal tally
  stepped i n (arrive id goal) s v =
      accepted_goal i n id (read_goal q J what goal) (record s { estop_flag = false })
        (record { open_ended = v.open_ended; has_server = v.has_server; counts = v.counts })
  stepped i n (start place device) s v =
      subst (λ k. Serves i k (node_step q J what (start place device) s)) (omega arith)
        (freed i n place s.sleeping device s refl v)
  stepped i n look s v =
      subst (λ k. Serves i k (node_step q J what look s)) (omega arith)
        (looked i n s.sleeping s refl v)

  ran :
      (i n : ℕ) (es : List (NodeEvent Json)) (s : Subnode Json)
      → Serves i n s
      → Serves i (arrivals i es + n) (run_node q J what es s)
  unfolding run_node arrivals
  ran i n [] s v = subst (λ k. Serves i k s) (omega arith) v
  ran i n (e ∷ es) s v =
      subst (λ k. Serves i k (run_node q J what es (node_step q J what e s))) (omega arith)
        (ran i (arrival i e + n) es (node_step q J what e s) (stepped i n e s v))

  -- A node that has its server and is not shutting down: after any events, an id stands among the
  -- results that were sent, the goals that wait and the command that sleeps as often as it did before
  -- and goals with that id have arrived.
  pub run_node-tally :
      (i : ℕ) (es : List (NodeEvent Json)) (s : Subnode Json)
      → s.is_shutting_down ≡ false
      → s.action_server ≡ true
      → tally i (run_node q J what es s) ≡ arrivals i es + tally i s
  run_node-tally i es s h k =
      (ran i (tally i s) es s (record { open_ended = h; has_server = k; counts = refl })).counts
