-- ===== src/Subnode/Stops.antt =====
-- An emergency stop and a command that sleeps.
use xreal_bsp_rgb_tool.Prelude.{
  ℕ, ◌+◌, ◌≡◌, refl, sym, ap, subst, ◌∙◌, Bool, true, false, List, [], ◌∷◌, ◌++◌, Option, none,
  some, String, if◌then◌else◌, ◌⊎◌, inl, inr, if_both,
}
use xreal_bsp_rgb_tool.Prelude.Int.{pos, ltb_ℤ}
use xreal_bsp_rgb_tool.Prelude.Maps.{lookup}
use xreal_bsp_rgb_tool.Platform.{Text, JsonLib}
use xreal_bsp_rgb_tool.Subnode.{Subnode, Goal, Handler, Sleep, send_result}
use xreal_bsp_rgb_tool.Subnode.Commands.{
  NodeEvent, arrive, start, look, finish_goal, queue_goal, accept_goal, read_goal, receive_goal,
  start_free, look_if, look_up, slept, message, not_registered, node_step, run_node,
}

module _ (q : Text) (J : JsonLib) (what : String → String) where
  open J use {Json}

  -- A command that sleeps for `k` seconds already, with the flag of the emergency stop down.
  Asleep : Sleep → ℕ → Subnode Json → Type 0
  Asleep z k s = (s.sleeping ≡ some (record z { elapsed = k })) × (s.estop_flag ≡ false)

  send_result-Asleep :
      (z : Sleep) (k id : ℕ) (r : Json) (ok : Bool) (s : Subnode Json)
      → Asleep z k s
      → Asleep z k (send_result id r ok s)
  unfolding send_result Asleep
  send_result-Asleep z k id r ok s h =
      if_both (Asleep z k) s.is_shutting_down h (if_both (Asleep z k) s.action_server h h)

  finish_goal-Asleep :
      (z : Sleep) (k id : ℕ) (result : Option Json) (s : Subnode Json)
      → Asleep z k s
      → Asleep z k (finish_goal q J what id result s)
  unfolding finish_goal
  finish_goal-Asleep z k id result s h = send_result-Asleep z k id _ _ s h

  queue_goal-Asleep :
      (z : Sleep) (k : ℕ) (o : Option Handler) (g : Goal Json) (s : Subnode Json)
      → Asleep z k s
      → Asleep z k (queue_goal q J what o g s)
  unfolding queue_goal Asleep
  queue_goal-Asleep z k none g s h =
      finish_goal-Asleep z k g.goal_id (some (not_registered q J what g)) s h
  queue_goal-Asleep z k (some e) g s h = h

  accept_goal-Asleep :
      (z : Sleep) (k id : ℕ) (o : Option (String × Json)) (s : Subnode Json)
      → Asleep z k s
      → Asleep z k (accept_goal q J what id o s)
  unfolding accept_goal Asleep
  accept_goal-Asleep z k id none s h = finish_goal-Asleep z k id none s h
  accept_goal-Asleep z k id (some (name, params)) s h =
      queue_goal-Asleep z k (lookup name s.cmd_handlers) _ s h

  -- The ends of a step: the command goes on sleeping, or its time is over and it gives its result.
  GoesOn : Sleep → ℕ → NodeEvent Json → Subnode Json → Type 0
  GoesOn z k e s =
      ((m : ℕ) × Asleep z m (node_step q J what e s))
      ⊎ ((e ≡ look)
          × (ltb_ℤ (pos k) z.duration ≡ false)
          × (node_step q J what e s
              ≡ finish_goal q J what z.goal_id (some (slept q J what z))
                  (record s { sleeping = none })))

  abbrev wake : Sleep → Subnode Json → Subnode Json
  wake z s = finish_goal q J what z.goal_id (some (slept q J what z)) (record s { sleeping = none })

  abbrev look_on : Sleep → ℕ → Bool → Subnode Json → Subnode Json
  look_on z k flag s =
      if flag
      then finish_goal q J what z.goal_id
          (some (message q J what false "Sleep interrupted by emergency stop"))
          (record s { sleeping = none })
      else record s { sleeping = some (record z { elapsed = k + 1 }) }

  look_up-Asleep :
      (z : Sleep) (k : ℕ) (s : Subnode Json) (b : Bool)
      → Asleep z k s
      → ltb_ℤ (pos k) z.duration ≡ b
      → ((m : ℕ) × Asleep z m (look_up q J what (record z { elapsed = k }) s))
        ⊎ ((ltb_ℤ (pos k) z.duration ≡ false)
            × (look_up q J what (record z { elapsed = k }) s
                ≡ finish_goal q J what z.goal_id
                    (some (slept q J what z))
                    (record s { sleeping = none })))
  unfolding look_up Asleep
  look_up-Asleep z k s true (h, f) e = inl (
    k + 1,
    subst (Asleep z (k + 1))
        (sym (
          ap (λ (b : Bool). if b then look_on z k s.estop_flag s else wake z s) e
          ∙ ap (λ (b : Bool). look_on z k b s) f))
        (refl, f),
  )
  look_up-Asleep z k s false (h, f) e =
      inr (e, ap (λ (b : Bool). if b then look_on z k s.estop_flag s else wake z s) e)

  step-Asleep :
      (z : Sleep) (k : ℕ) (e : NodeEvent Json) (s : Subnode Json) → Asleep z k s → GoesOn z k e s
  unfolding Asleep GoesOn node_step receive_goal start_free
  step-Asleep z k (arrive id goal) s (h, f) = inl (
    k,
    accept_goal-Asleep z k id (read_goal q J what goal) (record s { estop_flag = false }) (h, refl),
  )
  step-Asleep z k (start n device) s (h, f) =
      let same : node_step q J what (start n device) s ≡ s =
        ap (λ o. start_free q J what o n device s) h in
      inl (k, subst (Asleep z k) (sym same) (h, f))
  step-Asleep z k look s (h, f) =
      let same = ap (λ o. look_if q J what o s) h in
      elim (look_up-Asleep z k s (ltb_ℤ (pos k) z.duration) (h, f) refl) [
        | inl (m, p) ↦ inl (m, subst (Asleep z m) (sym same) p)
        | inr (e, p) ↦ inr (refl, e, same ∙ p)
      ]

  -- A sleep command that has begun with the flag of the emergency stop down: after any events, with
  -- emergency stops among them, it still sleeps and the flag is down, or the events have a look, before
  -- which it still slept and its time was over, at which it gives its result of having slept.
  pub sleep-undisturbed :
      (z : Sleep) (es : List (NodeEvent Json)) (k : ℕ) (s : Subnode Json)
      → s.sleeping ≡ some (record z { elapsed = k })
      → s.estop_flag ≡ false
      → ((m : ℕ) × ((run_node q J what es s).sleeping ≡ some (record z { elapsed = m }))
          × ((run_node q J what es s).estop_flag ≡ false))
        ⊎ ((m : ℕ) × (before after : List (NodeEvent Json)) × (es ≡ before ++ (look ∷ after))
            × (ltb_ℤ (pos m) z.duration ≡ false)
            × ((run_node q J what before s).sleeping ≡ some (record z { elapsed = m }))
            × (run_node q J what es s
                ≡ run_node q J what after (
                    finish_goal q J what z.goal_id
                      (some (slept q J what z))
                      (record (run_node q J what before s) { sleeping = none }))))
  unfolding run_node Asleep GoesOn
  sleep-undisturbed z [] k s h f = inl (k, h, f)
  sleep-undisturbed z (e ∷ es) k s h f = elim (step-Asleep z k e s (h, f)) [
    | inl (m, p) ↦ elim (sleep-undisturbed z es m (node_step q J what e s) p.0 p.1) [
      | inl r ↦ inl r
      | inr (n, before, after, i, j, l, u) ↦
          inr (n, e ∷ before, after, ap (λ xs. e ∷ xs) i, j, l, u)
    ]
    | inr (i, j, p) ↦ inr (k, [], es, ap (λ x. x ∷ es) i, j, h, ap (run_node q J what es) p)
  ]
