-- ===== src/Manager/Loop.antt =====
-- What rounds of processLoop make of the commands that wait.
use text.Mathlib.Text.{◌==◌}
use xreal_bsp_rgb_tool.Prelude.{
  ℕ, zero, suc, ◌+◌, ◌≤◌, ◌≡◌, refl, ap, ap₂, ◌∙◌, Bool, true, false, not, ◌&&◌, ◌||◌, List, [],
  ◌∷◌, Option, none, some, String, length, arith, Bool-cases, inl, inr, if_both,
}
use xreal_bsp_rgb_tool.Platform.{Text, JsonLib}
use xreal_bsp_rgb_tool.Watchdog.Primary.{OnePrimary}
use xreal_bsp_rgb_tool.Manager.Fields.{Fields, value_text}
use xreal_bsp_rgb_tool.Manager.Agents.{AgentClass}
use xreal_bsp_rgb_tool.Manager.Process.{Process, take_from, take_command, loop_round, process_loop}
use xreal_bsp_rgb_tool.Manager.Actions.{Outside}
use xreal_bsp_rgb_tool.Manager.Dispatch.{
  process_command, publish_result, repeated_agent, repeated_name, run_action,
}
use xreal_bsp_rgb_tool.Manager.Kept.{post}
use xreal_bsp_rgb_tool.Manager.Kept.Run.{run_action-Kept}
use xreal_bsp_rgb_tool.Manager.Answers.{processed, named_result, publish_result-OnePrimary}

unfoldable pub given {ℓ} : {X : Type ℓ} → Option X → Bool
given none = false
given (some x) = true

unfoldable pub has_command {ℓ} : {X : Type ℓ} → List X → List X → Bool
has_command [] [] = false
has_command [] (c ∷ cs) = true
has_command (c ∷ cs) normal = true

given-some {ℓ} : {X : Type ℓ} (x : Option X) → given x ≡ true → (a : X) × (x ≡ some a)
unfolding given
given-some none h = absurd (ground (arith, h))
given-some (some a) h = (a, refl)

both : (a b : Bool) → (a && b) ≡ true → (a ≡ true) × (b ≡ true)
both true b h = (refl, h)
both false b h = absurd (ground (arith, h))

or_true : (b : Bool) → (b || true) ≡ true
or_true true = refl
or_true false = refl

module _ (q : Text) (J : JsonLib) {A : Type 0} (C : AgentClass J.Json A)
    (o : Outside (Fields J)) where
  -- The four things of a command that processCommand reads outside its `try` block can be read.
  unfoldable pub readable : Fields J → Bool
  unfolding given
  readable c =
      given (value_text J "action" "" c)
      && (given (value_text J "request_id" "" c)
          && (given (repeated_agent q J C o c) && given (repeated_name q J C o c)))

  unfoldable pub all_readable : List (Fields J) → Bool
  unfolding readable
  all_readable [] = true
  all_readable (c ∷ cs) = readable c && all_readable cs

  -- The loop has nothing to do: it was stopped, or the queues are empty.
  unfoldable pub is_idle : Process J A → Bool
  unfolding has_command
  is_idle p = not p.running || not (has_command p.urgent_command_queue p.command_queue)

  post-publish_result :
      (id : String) (result : Fields J) (p : Process J A)
      → ((publish_result q J C o id result p).urgent_command_queue ≡ p.urgent_command_queue)
        × ((publish_result q J C o id result p).command_queue ≡ p.command_queue)
  unfolding publish_result
  post-publish_result id result p =
      if_both
        (λ (r : Process J A).
          (r.urgent_command_queue ≡ p.urgent_command_queue) × (r.command_queue ≡ p.command_queue))
        (id == "") (refl, refl) (refl, refl)

  readable-processed :
      (c : Fields J) (p : Process J A)
      → readable c ≡ true
      → OnePrimary p.watchdog
      → (r : Process J A) × (process_command q J C o c p ≡ some r)
        × OnePrimary r.watchdog
        × (r.urgent_command_queue ≡ p.urgent_command_queue)
        × (r.command_queue ≡ p.command_queue)
  unfolding readable post
  readable-processed c p h v =
      let (a, rest) = both _ _ h in
      let (b, rest2) = both _ _ rest in
      let (d, e) = both _ _ rest2 in
      let (action, ha) = given-some _ a in
      let (id, hb) = given-some _ b in
      let (agent, hd) = given-some _ d in
      let (command, he) = given-some _ e in
      let run = run_action q J C o action c p in
      let k = (run_action-Kept q J C o action c p).same_post in
      let l = post-publish_result id (named_result q J C o action agent command c run.1) run.0 in
      (
        publish_result q J C o id (named_result q J C o action agent command c run.1) run.0,
        processed q J C o c p action id agent command ha hb hd he,
        publish_result-OnePrimary q J C o id (named_result q J C o action agent command c run.1)
            run.0 ((run_action-Kept q J C o action c p).watched v),
        l.0 ∙ ap (λ x. x.urgent) k,
        l.1 ∙ ap (λ x. x.normal) k,
      )

  abbrev loop : ℕ → Process J A → Option (Process J A)
  loop = process_loop q J (process_command q J C o)

  round_by :
      (fuel : ℕ) (b : Bool) (urgent normal : List (Fields J)) (p : Process J A)
      → p.running ≡ b
      → p.urgent_command_queue ≡ urgent
      → p.command_queue ≡ normal
      → loop (suc fuel) p
        ≡ loop_round q J (process_command q J C o) b (take_from q J urgent normal p) (loop fuel) p
  unfolding process_loop take_command
  round_by fuel b urgent normal p g h k =
      ap₂ (λ x t. loop_round q J (process_command q J C o) x t (loop fuel) p) g
        (ap₂ (λ xs ys. take_from q J xs ys p) h k)

  idle_stopped : (p : Process J A) → p.running ≡ false → is_idle p ≡ true
  unfolding is_idle
  idle_stopped p g = ap (λ b. not b || not (has_command p.urgent_command_queue p.command_queue)) g

  idle_empty :
      (p : Process J A) → p.urgent_command_queue ≡ [] → p.command_queue ≡ [] → is_idle p ≡ true
  unfolding is_idle has_command
  idle_empty p h k =
      ap₂ (λ xs ys. not p.running || not (has_command xs ys)) h k ∙ or_true (not p.running)

  Ends : ℕ → Process J A → Type 0
  Ends fuel p =
      (r : Process J A) × (loop fuel p ≡ some r) × (is_idle r ≡ true) × OnePrimary r.watchdog

  -- A round that takes a readable command, where the rounds behind it end.
  round_takes :
      (fuel : ℕ) (c : Fields J) (p rest : Process J A)
      → loop (suc fuel) p
        ≡ loop_round q J (process_command q J C o) true (some (c, rest)) (loop fuel) p
      → readable c ≡ true
      → OnePrimary rest.watchdog
      → ((r : Process J A)
          → OnePrimary r.watchdog
          → r.urgent_command_queue ≡ rest.urgent_command_queue
          → r.command_queue ≡ rest.command_queue
          → Ends fuel r)
      → Ends (suc fuel) p
  unfolding loop_round Ends
  round_takes fuel c p rest e h v next =
      let (r, k, w, l, m) = readable-processed c rest h v in
      let (s, x, y, z) = next r w l m in (s, e ∙ rw k x, y, z)

  loop-running :
      (fuel : ℕ) (urgent normal : List (Fields J)) (p : Process J A)
      → p.running ≡ true
      → p.urgent_command_queue ≡ urgent
      → p.command_queue ≡ normal
      → length urgent + length normal ≤ suc fuel
      → all_readable urgent ≡ true
      → all_readable normal ≡ true
      → OnePrimary p.watchdog
      → ((us ns : List (Fields J)) (r : Process J A)
          → r.urgent_command_queue ≡ us
          → r.command_queue ≡ ns
          → length us + length ns ≤ fuel
          → all_readable us ≡ true
          → all_readable ns ≡ true
          → OnePrimary r.watchdog
          → Ends fuel r)
      → Ends (suc fuel) p
  unfolding take_from all_readable Ends loop_round
  loop-running fuel [] [] p g h k l m n v next =
      let (r, x, y, z) = next [] [] p h k (omega arith) m n v in
      (r, round_by fuel true [] [] p g h k ∙ x, y, z)
  loop-running fuel (c ∷ cs) normal p g h k l m n v next =
      let (x, y) = both (readable c) (all_readable cs) m in
      round_takes fuel c p (record p { urgent_command_queue = cs })
        (round_by fuel true (c ∷ cs) normal p g h k) x v
        (λ r w e f. next cs normal r e (f ∙ k) (omega (arith, l)) y n w)
  loop-running fuel [] (c ∷ cs) p g h k l m n v next =
      let (x, y) = both (readable c) (all_readable cs) n in
      round_takes fuel c p (record p { command_queue = cs })
        (round_by fuel true [] (c ∷ cs) p g h k) x v
        (λ r w e f. next [] cs r (e ∙ h) f (omega (arith, l)) m y w)

  loop-queues :
      (fuel : ℕ) (urgent normal : List (Fields J)) (p : Process J A)
      → p.urgent_command_queue ≡ urgent
      → p.command_queue ≡ normal
      → length urgent + length normal ≤ fuel
      → all_readable urgent ≡ true
      → all_readable normal ≡ true
      → OnePrimary p.watchdog
      → Ends fuel p
  unfolding process_loop take_from all_readable Ends loop_round
  loop-queues zero [] [] p h k l m n v = (p, refl, idle_empty p h k, v)
  loop-queues zero (c ∷ cs) normal p h k l m n v = absurd (omega (arith, l))
  loop-queues zero [] (c ∷ cs) p h k l m n v = absurd (omega (arith, l))
  loop-queues (suc fuel) urgent normal p h k l m n v = elim (Bool-cases p.running) [
    | inr g ↦ (p, round_by fuel false urgent normal p g h k, idle_stopped p g, v)
    | inl g ↦ loop-running fuel urgent normal p g h k l m n v (loop-queues fuel)
  ]

  -- At least as many rounds of processLoop as commands wait, while nobody sends another one, where all that
  -- wait can be read, at most the agent that the watchdog's primaryAgent_ names has the primary flag, and
  -- it has it: no exception leaves the loop, it is stopped or both queues are empty, and the same holds of
  -- the watchdog.
  pub process_loop-idle :
      (rounds : ℕ) (p : Process J A)
      → length p.urgent_command_queue + length p.command_queue ≤ rounds
      → all_readable p.urgent_command_queue ≡ true
      → all_readable p.command_queue ≡ true
      → OnePrimary p.watchdog
      → (r : Process J A) × (process_loop q J (process_command q J C o) rounds p ≡ some r)
        × (is_idle r ≡ true)
        × OnePrimary r.watchdog
  unfolding Ends
  process_loop-idle rounds p l m n v =
      loop-queues rounds p.urgent_command_queue p.command_queue p refl refl l m n v
