-- ===== src/Watchdog/Outcome.antt =====
-- The steps of checkAgent of src/backend/agent_watchdog.cpp against the reference: each function that
-- looks the agent up is told by the status that it finds.
use xreal_bsp_rgb_tool.Prelude.{
  ℕ, ◌≡◌, refl, sym, ap, subst, ◌∙◌, ◌++◌, Bool, false, List, ◌∷◌, Option, some, String, arith,
  eq_refl,
}
use xreal_bsp_rgb_tool.Prelude.Maps.{lookup, insert, lookup-insert}
use xreal_bsp_rgb_tool.Watchdog.{
  Health, healthy, disconnected, initializing, AgentStatus, Effect, status_update, Watchdog, emit,
  store, notify_status_update,
}
use xreal_bsp_rgb_tool.Watchdog.Check.{
  DeviceReport, Hooks, check_succeeded, handle_check_success, check_failed, handle_check_failure,
  is_initializing, note_devices, note_check, finish_check,
}
use xreal_bsp_rgb_tool.Watchdog.Reference.{failed_status, failure_effects}

module _ {P : Type 0} where
  pub lookup-store :
      (name : String) (s : AgentStatus P) (w : Watchdog P)
      → lookup name (store name s w).registered_agents ≡ some s
  lookup-store name s w =
      ground (arith, lookup-insert name name s w.registered_agents, eq_refl name)

  -- The status that a failing check leaves, before the last block of checkAgent.
  abbrev pub after_failure : String → AgentStatus P → AgentStatus P
  after_failure error s = record s { last_error = error; state = disconnected }

  check_failed-status :
      (name error : String) (w : Watchdog P) (s : AgentStatus P) (x : Health)
      → s.state ≡ x
      → is_initializing x ≡ false
      → (check_failed name error w s x).registered_agents
        ≡ insert name (after_failure error s) w.registered_agents
  unfolding check_failed emit is_initializing
  check_failed-status name error w s healthy e f = ground arith
  check_failed-status name error w s disconnected e f = ground arith
  check_failed-status name error w s initializing e f = ground arith

  check_failed-effects :
      (name error : String) (w : Watchdog P) (s : AgentStatus P) (x : Health)
      → s.state ≡ x
      → (check_failed name error w s x).effects ≡ failure_effects name error s ++ w.effects
  unfolding check_failed emit failure_effects
  check_failed-effects name error w s healthy e = ground arith
  check_failed-effects name error w s disconnected e = ground arith
  check_failed-effects name error w s initializing e = ground arith

  pub handle_check_failure-lookup :
      (name error : String) (w : Watchdog P) (s : AgentStatus P)
      → lookup name w.registered_agents ≡ some s
      → handle_check_failure name error w ≡ check_failed name error w s s.state
  unfolding handle_check_failure
  handle_check_failure-lookup name error w s e = rw (e, handle_check_failure) refl

  pub handle_check_success-lookup :
      (h : Hooks P) (name : String) (now : ℕ) (w : Watchdog P) (s : AgentStatus P)
      → lookup name w.registered_agents ≡ some s
      → handle_check_success h name now w ≡ check_succeeded h name now w s s.state
  unfolding handle_check_success
  handle_check_success-lookup h name now w s e = rw (e, handle_check_success) refl

  finish_check-lookup :
      (h : Hooks P) (name : String) (now : ℕ) (ok : Bool) (error : String) (d : Option DeviceReport)
      (v : Watchdog P) (t : AgentStatus P)
      → lookup name v.registered_agents ≡ some t
      → finish_check h name now ok error d v
        ≡ notify_status_update (store name (note_check h now ok error d t) v)
  finish_check-lookup h name now ok error d v t e = rw (e, finish_check) refl

  -- The status of `name` is `t` in `v`, and `v` has sent `es`, newest first, since `w`.
  pub record Reaches (w v : Watchdog P) (name : String) (t : AgentStatus P) (es : List (Effect P))
      : Type 0 where
    pub status : lookup name v.registered_agents ≡ some t
    pub sent : v.effects ≡ es ++ w.effects

  pub finish_check-Reaches :
      (h : Hooks P) (name : String) (now : ℕ) (ok : Bool) (error : String) (d : Option DeviceReport)
      (w v : Watchdog P) (t : AgentStatus P) (es : List (Effect P))
      → Reaches w v name t es
      → Reaches w
          (finish_check h name now ok error d v)
          name
          (note_check h now ok error d t)
          (status_update ∷ es)
  finish_check-Reaches h name now ok error d w v t es r =
      subst (λ u. Reaches w u name (note_check h now ok error d t) (status_update ∷ es))
        (sym (finish_check-lookup h name now ok error d v t r.status))
        (record {
          status = lookup-store name (note_check h now ok error d t) v;
          sent = ap (◌∷◌ status_update) r.sent;
        })

  handle_check_failure-Reaches :
      (name error : String) (w : Watchdog P) (s : AgentStatus P)
      → lookup name w.registered_agents ≡ some s
      → is_initializing s.state ≡ false
      → Reaches w
          (handle_check_failure name error w)
          name
          (after_failure error s)
          (failure_effects name error s)
  handle_check_failure-Reaches name error w s e f =
      subst (λ u. Reaches w u name (after_failure error s) (failure_effects name error s))
        (sym (handle_check_failure-lookup name error w s e))
        (record {
          status =
              ap (lookup name) (check_failed-status name error w s s.state refl f)
              ∙ lookup-store name (after_failure error s) w;
          sent = check_failed-effects name error w s s.state refl;
        })

  note_failed :
      (h : Hooks P) (now : ℕ) (e : String) (d : Option DeviceReport) (s : AgentStatus P)
      → note_check h now false e d (after_failure e s) ≡ failed_status now e s
  unfolding failed_status note_check note_devices is_initializing
  note_failed h now e d s = ground arith

  -- A check that fails.
  pub failed-Reaches :
      (h : Hooks P) (name : String) (now : ℕ) (error : String) (d : Option DeviceReport)
      (w : Watchdog P) (s : AgentStatus P)
      → lookup name w.registered_agents ≡ some s
      → is_initializing s.state ≡ false
      → Reaches w
          (finish_check h name now false error d (handle_check_failure name error w))
          name
          (failed_status now error s)
          (status_update ∷ failure_effects name error s)
  failed-Reaches h name now error d w s e f =
      subst
        (λ t.
          Reaches w (finish_check h name now false error d (handle_check_failure name error w)) name
            t (status_update ∷ failure_effects name error s))
        (note_failed h now error d s)
        (finish_check-Reaches h name now false error d w _ _ _
          (handle_check_failure-Reaches name error w s e f))
