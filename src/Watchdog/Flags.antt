-- ===== src/Watchdog/Flags.antt =====
-- The isPrimary flags of AgentWatchdog's registered agents, and what leaves them as they are.
use text.Mathlib.Text.{◌==◌}
use xreal_bsp_rgb_tool.Prelude.{
  ℕ, ◌≡◌, refl, sym, subst, ◌∙◌, Bool, true, false, not, ◌&&◌, List, Option, none, some, String,
  if◌then◌else◌, arith, eq_iff, Option-cases, inl, inr, if_both,
}
use xreal_bsp_rgb_tool.Prelude.Maps.{lookup, contains, lookup-insert}
use xreal_bsp_rgb_tool.Watchdog.{
  Health, healthy, disconnected, initializing, AgentStatus, Effect, Watchdog, emit, store,
  notify_status_update,
}
use xreal_bsp_rgb_tool.Watchdog.Check.{
  CheckOutcome, DeviceReport, replied, threw, Hooks, InitFlag, InitReply, read, unreadable,
  call_init, after_init, note_call, store_init, conclude_success, init_device, check_succeeded,
  handle_check_success, check_failed, handle_check_failure, note_check, finish_check,
  is_initializing, run_check, check_agent, check_all_agents,
}

module _ {P : Type 0} where
  abbrev pub flagged_in : List (String × AgentStatus P) → String → Bool
  flagged_in m k = elim (lookup k m) [ none ↦ false | some s ↦ s.is_primary ]

  -- Whether an agent of the name is registered and carries the flag.
  abbrev pub flagged : Watchdog P → String → Bool
  flagged w k = flagged_in w.registered_agents k

  -- The same flags, and the same primary agent.
  pub record SameFlags (w v : Watchdog P) : Type 0 where
    pub flags : (k : String) → flagged v k ≡ flagged w k
    pub primary : v.primary_agent ≡ w.primary_agent

  pub SameFlags-trans : (w v u : Watchdog P) → SameFlags w v → SameFlags v u → SameFlags w u
  SameFlags-trans w v u a b = record {
    flags = λ k. b.flags k ∙ a.flags k;
    primary = b.primary ∙ a.primary;
  }

  pub flagged-store :
      (name : String) (s : AgentStatus P) (w : Watchdog P) (k : String)
      → flagged (store name s w) k ≡ (if name == k then s.is_primary else flagged w k)
  flagged-store name s w k = ground (arith, lookup-insert name k s w.registered_agents)

  pub store-SameFlags :
      (name : String) (s t : AgentStatus P) (w : Watchdog P)
      → lookup name w.registered_agents ≡ some s
      → t.is_primary ≡ s.is_primary
      → SameFlags w (store name t w)
  store-SameFlags name s t w e h = record {
    flags = λ k. ground (arith, flagged-store name t w k, eq_iff name k);
    primary = refl;
  }

  pub SameFlags-refl : (w : Watchdog P) → SameFlags w w
  SameFlags-refl w = record { flags = λ k. refl; primary = refl }

  -- What is done under the iterator that `find` gives.
  pub by_lookup :
      (w : Watchdog P) (name : String) (f : Option (AgentStatus P) → Watchdog P)
      → SameFlags w (f none)
      → ((s : AgentStatus P) → lookup name w.registered_agents ≡ some s → SameFlags w (f (some s)))
      → SameFlags w (f (lookup name w.registered_agents))
  by_lookup w name f n g = elim (Option-cases (lookup name w.registered_agents)) [
    | inl e ↦ subst (λ o. SameFlags w (f o)) (sym e) n
    | inr (s, e) ↦ subst (λ o. SameFlags w (f o)) (sym e) (g s e)
  ]

  pub notify-SameFlags : (w v : Watchdog P) → SameFlags w v → SameFlags w (notify_status_update v)
  notify-SameFlags w v k = record { flags = k.flags; primary = k.primary }

  emit-SameFlags : (e : Effect P) (w : Watchdog P) → SameFlags w (emit e w)
  unfolding emit
  emit-SameFlags e w = record { flags = λ k. refl; primary = refl }

  note_call-SameFlags :
      (h : Hooks P) (name : String) (p : P) (w : Watchdog P) → SameFlags w (note_call h name p w)
  unfolding note_call
  note_call-SameFlags h name p w = elim (Option-cases h.init_device) [
    | inl e ↦ rw (e, note_call) (SameFlags-refl w)
    | inr (f, e) ↦ rw (e, note_call) (emit-SameFlags _ w)
  ]

  after_init-is_primary :
      (ok : Bool) (r : InitReply) (now : ℕ) (s : AgentStatus P)
      → (after_init ok r now s).is_primary ≡ s.is_primary
  unfolding after_init
  after_init-is_primary ok r now s = ground arith

  store_init-SameFlags :
      (flag : InitFlag) (r : InitReply) (now : ℕ) (name : String) (s : AgentStatus P)
      (w : Watchdog P)
      → lookup name w.registered_agents ≡ some s
      → SameFlags w (store_init flag r now name s w).0
  unfolding store_init
  store_init-SameFlags (read ok) r now name s w e =
      notify-SameFlags w _ (store-SameFlags name s _ w e (after_init-is_primary ok r now s))
  store_init-SameFlags (unreadable x) r now name s w e = SameFlags-refl w

  init_device-SameFlags :
      (h : Hooks P) (name : String) (p : P) (now : ℕ) (w : Watchdog P)
      → SameFlags w (init_device h name p now w).0
  unfolding init_device
  init_device-SameFlags h name p now w =
      let v = note_call h name p w in
      let r = call_init h name p in
      let f : Option (AgentStatus P) → Watchdog P × Option String =
        λ o. elim o [ none ↦ (v, none) | some s ↦ store_init r.success r now name s v ] in
      SameFlags-trans w v _ (note_call-SameFlags h name p w) (
        by_lookup v name (λ o. (f o).0) (SameFlags-refl v)
          (λ s e. store_init-SameFlags r.success r now name s v e))

  check_succeeded-SameFlags :
      (h : Hooks P) (name : String) (now : ℕ) (w : Watchdog P) (s : AgentStatus P) (x : Health)
      → lookup name w.registered_agents ≡ some s
      → SameFlags w (check_succeeded h name now w s x).0
  unfolding check_succeeded
  check_succeeded-SameFlags h name now w s healthy e = store-SameFlags name s _ w e refl
  check_succeeded-SameFlags h name now w s initializing e = store-SameFlags name s _ w e refl
  check_succeeded-SameFlags h name now w s disconnected e =
      if_both (λ (x : Watchdog P × Option String). SameFlags w x.0) s.is_primary
        (SameFlags-trans w _ _ (notify-SameFlags w _ (store-SameFlags name s _ w e refl))
          (init_device-SameFlags h name s.init_device_params now _))
        (store-SameFlags name s _ w e refl)

  handle_check_success-SameFlags :
      (h : Hooks P) (name : String) (now : ℕ) (w : Watchdog P)
      → SameFlags w (handle_check_success h name now w).0
  unfolding handle_check_success
  handle_check_success-SameFlags h name now w =
      let f : Option (AgentStatus P) → Watchdog P × Option String =
        λ o. elim o [ none ↦ (w, none) | some s ↦ check_succeeded h name now w s s.state ] in
      by_lookup w name (λ o. (f o).0) (SameFlags-refl w)
        (λ s e. check_succeeded-SameFlags h name now w s s.state e)

  check_failed-SameFlags :
      (name error : String) (w : Watchdog P) (s : AgentStatus P) (x : Health)
      → lookup name w.registered_agents ≡ some s
      → SameFlags w (check_failed name error w s x)
  unfolding check_failed
  check_failed-SameFlags name error w s healthy e =
      if_both (SameFlags w) s.suppress_disconnect_dialog (store-SameFlags name s _ w e refl) (
        SameFlags-trans w _ _
          (SameFlags-trans w _ _ (store-SameFlags name s _ w e refl) (emit-SameFlags _ _))
          (emit-SameFlags _ _))
  check_failed-SameFlags name error w s disconnected e = store-SameFlags name s _ w e refl
  check_failed-SameFlags name error w s initializing e = store-SameFlags name s _ w e refl

  handle_check_failure-SameFlags :
      (name error : String) (w : Watchdog P) → SameFlags w (handle_check_failure name error w)
  unfolding handle_check_failure
  handle_check_failure-SameFlags name error w =
      by_lookup w name (λ o. elim o [ none ↦ w | some s ↦ check_failed name error w s s.state ])
        (SameFlags-refl w) (λ s e. check_failed-SameFlags name error w s s.state e)

  note_check-is_primary :
      (h : Hooks P) (now : ℕ) (ok : Bool) (error : String) (d : Option DeviceReport)
      (s : AgentStatus P)
      → (note_check h now ok error d s).is_primary ≡ s.is_primary
  unfolding note_check
  note_check-is_primary h now true error none s = ground arith
  note_check-is_primary h now true error (some d) s = ground arith
  note_check-is_primary h now false error d s = ground arith

  finish_check-SameFlags :
      (h : Hooks P) (name : String) (now : ℕ) (ok : Bool) (error : String) (d : Option DeviceReport)
      (w : Watchdog P)
      → SameFlags w (finish_check h name now ok error d w)
  finish_check-SameFlags h name now ok error d w =
      by_lookup w name
        (λ o. elim o [
          | none ↦ notify_status_update w
          | some s ↦ notify_status_update (store name (note_check h now ok error d s) w)
        ])
        (notify-SameFlags w w (SameFlags-refl w))
        (λ s e.
          notify-SameFlags w _
            (store-SameFlags name s _ w e (note_check-is_primary h now ok error d s)))

  conclude_success-SameFlags :
      (h : Hooks P) (name : String) (now : ℕ) (d : Option DeviceReport) (w : Watchdog P)
      (x : Watchdog P × Option String)
      → SameFlags w x.0
      → SameFlags w (conclude_success h name now d x)
  unfolding conclude_success
  conclude_success-SameFlags h name now d w (v, none) k =
      SameFlags-trans w v _ k (finish_check-SameFlags h name now true "" d v)
  conclude_success-SameFlags h name now d w (v, some e) k = SameFlags-trans w v _ k (
      SameFlags-trans v _ _ (handle_check_failure-SameFlags name e v)
        (finish_check-SameFlags h name now false e d _))

  run_check-SameFlags :
      (h : Hooks P) (name : String) (now : ℕ) (o : CheckOutcome) (w : Watchdog P)
      → SameFlags w (run_check h name now o w)
  unfolding run_check
  run_check-SameFlags h name now (threw e) w =
      SameFlags-trans w _ _ (handle_check_failure-SameFlags name e w)
        (finish_check-SameFlags h name now false e none _)
  run_check-SameFlags h name now (replied r) w =
      if_both (SameFlags w) r.success
        (conclude_success-SameFlags h name now r.devices w _
          (handle_check_success-SameFlags h name now w))
        (SameFlags-trans w _ _ (handle_check_failure-SameFlags name r.error w)
          (finish_check-SameFlags h name now false r.error r.devices _))

  check_agent-SameFlags :
      (h : Hooks P) (name : String) (now : ℕ) (o : CheckOutcome) (w : Watchdog P)
      → SameFlags w (check_agent h name now o w)
  unfolding check_agent
  check_agent-SameFlags h name now o w =
      by_lookup w name
        (λ x. elim x [
          | none ↦ w
          | some s ↦ if is_initializing s.state then w else run_check h name now o w
        ])
        (SameFlags-refl w)
        (λ s e.
          if_both (SameFlags w) (is_initializing s.state) (SameFlags-refl w)
            (run_check-SameFlags h name now o w))

  -- A round of the health check changes no flag and not the primary agent.
  pub check_all_agents-SameFlags :
      (h : Hooks P) (now : ℕ) (o : CheckOutcome) (w : Watchdog P)
      → SameFlags w (check_all_agents h now o w)
  unfolding check_all_agents
  check_all_agents-SameFlags h now o w =
      if_both (SameFlags w)
        (not (w.primary_agent == "") && contains w.primary_agent w.registered_agents)
        (check_agent-SameFlags h w.primary_agent now o w) (SameFlags-refl w)
