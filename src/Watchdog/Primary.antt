-- ===== src/Watchdog/Primary.antt =====
-- Which agent is the primary one: AgentWatchdog keeps it twice, as primaryAgent_ and as the isPrimary
-- flags of the registered agents. All its functions are the events of one step.
use text.Mathlib.Text.{◌==◌}
use xreal_bsp_rgb_tool.Prelude.{
  ℕ, ◌≡◌, refl, sym, ◌∙◌, Bool, true, false, not, ◌&&◌, List, [], ◌∷◌, none, some, String,
  if◌then◌else◌, arith, eq_iff, eq_refl, Option-cases, inl, inr, Bool-cases, if_both,
}
use xreal_bsp_rgb_tool.Prelude.Int.{ℤ}
use xreal_bsp_rgb_tool.Prelude.Maps.{lookup, insert, erase, contains, lookup-insert, lookup-erase}
use xreal_bsp_rgb_tool.Watchdog.{
  AgentStatus, Watchdog, flag_primary, store, update_found, notify_status_update,
  register_primary_agent, update_primary_agent_init_device_params, unregister_primary_agent,
  register_script_agents, erase_script_agent, erase_script_agents, unregister_script_agents,
  mark_agent_initializing, mark_agent_healthy, mark_agent_disconnected, set_agent_device_config,
}
use xreal_bsp_rgb_tool.Watchdog.Check.{CheckOutcome, Hooks, check_all_agents}
use xreal_bsp_rgb_tool.Watchdog.Flags.{
  flagged_in, flagged, SameFlags, SameFlags-refl, store-SameFlags, by_lookup, notify-SameFlags,
  check_all_agents-SameFlags,
}

-- The calls that reach the watchdog, with the time of the call and the callbacks' answers.
pub data Event (P : Type 0) : Type 0 where
  register_primary : String → P → Event P
  update_params : String → P → Event P
  unregister_primary : Event P
  register_scripts unregister_scripts : List String → Event P
  mark_initializing mark_disconnected : String → String → Event P
  mark_healthy : String → Bool → ℕ → Event P
  set_device_config : String → List (ℤ × String) → Bool → Event P
  check_round : ℕ → CheckOutcome → Event P

module _ {P : Type 0} where
  unfoldable pub empty_watchdog : Watchdog P
  empty_watchdog = record { registered_agents = []; primary_agent = ""; effects = [] }

  unfoldable pub step : Hooks P → Watchdog P → Event P → Watchdog P
  step h w (register_primary name p) = register_primary_agent name p w
  step h w (update_params name p) = update_primary_agent_init_device_params name p w
  step h w unregister_primary = unregister_primary_agent w
  step h w (register_scripts names) = register_script_agents names w
  step h w (unregister_scripts names) = unregister_script_agents names w
  step h w (mark_initializing name m) = mark_agent_initializing name m w
  step h w (mark_disconnected name m) = mark_agent_disconnected name m w
  step h w (mark_healthy name t now) = mark_agent_healthy name t now w
  step h w (set_device_config name ds s) = set_agent_device_config name ds s w
  step h w (check_round now o) = check_all_agents h now o w

  unfoldable pub run : Hooks P → Watchdog P → List (Event P) → Watchdog P
  unfolding step
  run h w [] = w
  run h w (e ∷ es) = run h (step h w e) es

  -- At most the agent that primaryAgent_ names has the flag; if it names one, that one is registered
  -- and has it.
  pub record OnePrimary (w : Watchdog P) : Type 0 where
    pub only : (k : String) → flagged w k ≡ true → (k == w.primary_agent) ≡ true
    pub present : (w.primary_agent == "") ≡ false → flagged w w.primary_agent ≡ true

  SameFlags-OnePrimary : (w v : Watchdog P) → SameFlags w v → OnePrimary w → OnePrimary v
  SameFlags-OnePrimary w v same inv = record {
    only = λ k h. ground (arith, inv.only k, same.flags k, same.primary);
    present = λ h. ground (arith, inv.present, same.flags v.primary_agent, same.primary);
  }

  lookup-flag_primary :
      (name k : String) (m : List (String × AgentStatus P))
      → flagged_in (flag_primary name m) k ≡ (contains k m && (k == name))
  unfolding flag_primary
  lookup-flag_primary name k [] = refl
  lookup-flag_primary name k ((j, s) ∷ m) = ground (arith, eq_iff j k, lookup-flag_primary name k m)

  -- After the insertion under a name, that name's flag is the inserted one's.
  flagged_in-insert :
      (name k : String) (s : AgentStatus P) (m : List (String × AgentStatus P))
      → flagged_in (insert name s m) k ≡ (if name == k then s.is_primary else flagged_in m k)
  flagged_in-insert name k s m = ground (arith, lookup-insert name k s m)

  flagged_in-erase :
      (name k : String) (m : List (String × AgentStatus P))
      → flagged_in (erase name m) k ≡ (if name == k then false else flagged_in m k)
  flagged_in-erase name k m = ground (arith, lookup-erase name k m)

  register_primary_agent-OnePrimary :
      (name : String) (p : P) (w : Watchdog P) → OnePrimary (register_primary_agent name p w)
  unfolding register_primary_agent
  register_primary_agent-OnePrimary name p w = record {
    only = λ k h. ground (
      arith,
      eq_iff name k,
      eq_iff k name,
      lookup-flag_primary name k w.registered_agents,
      sym (flagged_in-insert name k _ (flag_primary name w.registered_agents)) ∙ h,
    );
    present = λ h.
        flagged_in-insert name name _ (flag_primary name w.registered_agents)
        ∙ ground (arith, eq_refl name);
  }

  unregistered-OnePrimary :
      (w : Watchdog P)
      → OnePrimary w
      → OnePrimary (
          notify_status_update (record w {
            registered_agents = erase w.primary_agent w.registered_agents;
            primary_agent = "";
          }))
  unregistered-OnePrimary w v = record {
    only = λ k h. ground (
      arith,
      v.only k,
      flagged_in-erase w.primary_agent k w.registered_agents,
      eq_iff k w.primary_agent,
      eq_iff w.primary_agent k,
    );
    present = λ h. ground arith;
  }

  unregister_primary_agent-OnePrimary :
      (w : Watchdog P) → OnePrimary w → OnePrimary (unregister_primary_agent w)
  unfolding unregister_primary_agent
  unregister_primary_agent-OnePrimary w v =
      if_both OnePrimary (w.primary_agent == "") v (unregistered-OnePrimary w v)

  erased-OnePrimary :
      (name : String) (s : AgentStatus P) (w : Watchdog P)
      → lookup name w.registered_agents ≡ some s
      → s.is_primary ≡ false
      → OnePrimary w
      → OnePrimary (record w { registered_agents = erase name w.registered_agents })
  erased-OnePrimary name s w e f v = record {
    only = λ k h. ground (arith, v.only k, flagged_in-erase name k w.registered_agents);
    present = λ h. ground (
      arith,
      v.present,
      eq_iff name w.primary_agent,
      flagged_in-erase name w.primary_agent w.registered_agents,
    );
  }

  erase_script_agent-OnePrimary :
      (name : String) (r : Watchdog P × Bool)
      → OnePrimary r.0
      → OnePrimary (erase_script_agent name r).0
  unfolding erase_script_agent
  erase_script_agent-OnePrimary name (w, b) v =
      elim (Option-cases (lookup name w.registered_agents)) [
        | inl e ↦ rw (e, erase_script_agent) v
        | inr (s, e) ↦ elim (Bool-cases s.is_primary) [
          | inl f ↦ rw (e, f, erase_script_agent) v
          | inr f ↦ rw (e, f, erase_script_agent) (erased-OnePrimary name s w e f v)
        ]
      ]

  erase_script_agents-OnePrimary :
      (names : List String) (r : Watchdog P × Bool)
      → OnePrimary r.0
      → OnePrimary (erase_script_agents names r).0
  unfolding erase_script_agents
  erase_script_agents-OnePrimary [] r v = v
  erase_script_agents-OnePrimary (name ∷ names) r v =
      erase_script_agents-OnePrimary names (erase_script_agent name r)
        (erase_script_agent-OnePrimary name r v)

  notified-OnePrimary : (w : Watchdog P) → OnePrimary w → OnePrimary (notify_status_update w)
  notified-OnePrimary w v = record { only = v.only; present = v.present }

  unregister_script_agents-OnePrimary :
      (names : List String) (w : Watchdog P)
      → OnePrimary w
      → OnePrimary (unregister_script_agents names w)
  unfolding unregister_script_agents
  unregister_script_agents-OnePrimary names w v =
      let i = erase_script_agents-OnePrimary names (w, false) v in
      if_both OnePrimary (erase_script_agents names (w, false)).1 (notified-OnePrimary _ i) i

  update_found-SameFlags :
      (name : String) (f : AgentStatus P → AgentStatus P) (w : Watchdog P)
      → ((s : AgentStatus P) → (f s).is_primary ≡ s.is_primary)
      → SameFlags w (update_found name f w (lookup name w.registered_agents))
  update_found-SameFlags name f w g =
      by_lookup w name (update_found name f w) (SameFlags-refl w)
        (λ s e. notify-SameFlags w _ (store-SameFlags name s (f s) w e (g s)))

  update_params-SameFlags :
      (name : String) (p : P) (w : Watchdog P)
      → SameFlags w (update_primary_agent_init_device_params name p w)
  unfolding update_primary_agent_init_device_params
  update_params-SameFlags name p w =
      by_lookup w name
        (λ o. elim o [
          | none ↦ w
          | some s ↦
              if not s.is_primary
              then w
              else notify_status_update (store name (record s { init_device_params = p }) w)
        ])
        (SameFlags-refl w)
        (λ s e.
          if_both (SameFlags w) (not s.is_primary) (SameFlags-refl w)
            (notify-SameFlags w _ (store-SameFlags name s _ w e refl)))

  pub step-OnePrimary :
      (h : Hooks P) (w : Watchdog P) (e : Event P) → OnePrimary w → OnePrimary (step h w e)
  unfolding step register_script_agents mark_agent_initializing mark_agent_disconnected
      mark_agent_healthy set_agent_device_config
  step-OnePrimary h w (register_primary name p) v = register_primary_agent-OnePrimary name p w
  step-OnePrimary h w (update_params name p) v =
      SameFlags-OnePrimary w _ (update_params-SameFlags name p w) v
  step-OnePrimary h w unregister_primary v = unregister_primary_agent-OnePrimary w v
  step-OnePrimary h w (register_scripts names) v = v
  step-OnePrimary h w (unregister_scripts names) v = unregister_script_agents-OnePrimary names w v
  step-OnePrimary h w (mark_initializing name m) v =
      SameFlags-OnePrimary w _ (update_found-SameFlags name _ w (λ s. refl)) v
  step-OnePrimary h w (mark_disconnected name m) v =
      SameFlags-OnePrimary w _ (update_found-SameFlags name _ w (λ s. refl)) v
  step-OnePrimary h w (mark_healthy name t now) v =
      SameFlags-OnePrimary w _ (update_found-SameFlags name _ w (λ s. refl)) v
  step-OnePrimary h w (set_device_config name ds b) v =
      SameFlags-OnePrimary w _
        (by_lookup w name
          (λ o. elim o [
            | none ↦ w
            | some s ↦
                store name (record s { supported_devices = ds; suppress_disconnect_dialog = b }) w
          ])
          (SameFlags-refl w) (λ s e. store-SameFlags name s _ w e refl))
        v
  step-OnePrimary h w (check_round now o) v =
      SameFlags-OnePrimary w _ (check_all_agents-SameFlags h now o w) v

  run-OnePrimary :
      (h : Hooks P) (w : Watchdog P) (es : List (Event P)) → OnePrimary w → OnePrimary (run h w es)
  unfolding run
  run-OnePrimary h w [] v = v
  run-OnePrimary h w (e ∷ es) v = run-OnePrimary h (step h w e) es (step-OnePrimary h w e v)

  -- After any calls on a new watchdog, in any order and with any answers of the callbacks: a registered
  -- agent that carries the primary flag is the one that primaryAgent_ names, and if primaryAgent_ is not
  -- empty, the agent that it names is registered and carries the flag.
  pub run-empty-OnePrimary :
      (h : Hooks P) (es : List (Event P)) → OnePrimary (run h empty_watchdog es)
  unfolding empty_watchdog
  run-empty-OnePrimary h es = run-OnePrimary h empty_watchdog es (ground arith)
