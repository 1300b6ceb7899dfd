-- ===== src/Watchdog/Resume.antt =====
-- initDevice of src/backend/agent_watchdog.cpp inside a check, by the answer of its callback.
use xreal_bsp_rgb_tool.Prelude.{
  ℕ, ◌≡◌, refl, sym, ap, subst, ◌∙◌, true, false, List, [], ◌∷◌, Option, none, some, String, arith,
  Option-cases, inl, inr,
}
use xreal_bsp_rgb_tool.Prelude.Maps.{lookup}
use xreal_bsp_rgb_tool.Watchdog.{
  healthy, initializing, AgentStatus, Effect, status_update, init_device_call, Watchdog, emit,
}
use xreal_bsp_rgb_tool.Watchdog.Check.{
  DeviceReport, Hooks, InitFlag, InitReply, read, unreadable, init_error, call_init, after_init,
  store_init, note_call, init_device, check_failed, handle_check_failure, is_initializing,
  note_devices, shown_name, note_check, conclude_success,
}
use xreal_bsp_rgb_tool.Watchdog.Reference.{
  refusal, init_of_flag, init_of_answer, init_outcome, with_device, passed_status, resumed_status,
  init_call,
}
use xreal_bsp_rgb_tool.Watchdog.Outcome.{
  lookup-store, Reaches, finish_check-Reaches, handle_check_failure-lookup,
}

init_error-refusal : (r : InitReply) → init_error r ≡ refusal r.message r.error
unfolding init_error refusal
init_error-refusal r = ground arith

module _ {P : Type 0} where
  -- Of an agent that is initializing a failure changes the error alone.
  handle_check_failure-initializing :
      (name error : String) (w v : Watchdog P) (t : AgentStatus P) (es : List (Effect P))
      → t.state ≡ initializing
      → Reaches w v name t es
      → Reaches w (handle_check_failure name error v) name (record t { last_error = error }) es
  unfolding check_failed
  handle_check_failure-initializing name error w v t es i r =
      subst (λ u. Reaches w u name (record t { last_error = error }) es)
        (sym (
          handle_check_failure-lookup name error v t r.status ∙ ap (check_failed name error v t) i))
        (record { status = lookup-store name (record t { last_error = error }) v; sent = r.sent })

  pub init_device-lookup :
      (h : Hooks P) (name : String) (p : P) (now : ℕ) (s : AgentStatus P) (w : Watchdog P)
      → lookup name (note_call h name p w).registered_agents ≡ some s
      → init_device h name p now w
        ≡ store_init
            (call_init h name p).success
            (call_init h name p)
            now
            name
            s
            (note_call h name p w)
  unfolding init_device
  init_device-lookup h name p now s w e = rw (e, init_device) refl

  pub note_call-Reaches :
      (h : Hooks P) (name : String) (w v : Watchdog P) (t : AgentStatus P)
      → Reaches w v name t (status_update ∷ [])
      → Reaches w
          (note_call h name t.init_device_params v)
          name
          t
          (init_call h name t (status_update ∷ []))
  unfolding note_call init_call emit
  note_call-Reaches h name w v t r = elim (Option-cases h.init_device) [
    | inl n ↦ rw (n, note_call, init_call) r
    | inr (f, e) ↦
        rw (e, note_call, init_call)
          (record {
            status = r.status;
            sent = ap (◌∷◌ (init_device_call name t.init_device_params)) r.sent;
          })
  ]

  -- The device's initialization, and the last block of checkAgent.
  unfoldable pub after_flag :
      Hooks P → ℕ → Option DeviceReport → InitFlag → InitReply → AgentStatus P → AgentStatus P
  after_flag h now d (read ok) r t = note_check h now true "" d (after_init ok r now t)
  after_flag h now d (unreadable e) r t = note_check h now false e d (record t { last_error = e })

  unfoldable pub flag_effects : InitFlag → List (Effect P) → List (Effect P)
  flag_effects (read ok) es = status_update ∷ es
  flag_effects (unreadable e) es = es

  pub store_init-Reaches :
      (h : Hooks P) (name : String) (now : ℕ) (d : Option DeviceReport) (flag : InitFlag)
      (r : InitReply) (w v : Watchdog P) (t : AgentStatus P) (es : List (Effect P))
      → t.state ≡ initializing
      → Reaches w v name t es
      → Reaches w
          (conclude_success h name now d (store_init flag r now name t v))
          name
          (after_flag h now d flag r t)
          (status_update ∷ flag_effects flag es)
  unfolding store_init conclude_success after_flag flag_effects
  store_init-Reaches h name now d (read ok) r w v t es i x =
      finish_check-Reaches h name now true "" d w _ _ _ (record {
        status = lookup-store name (after_init ok r now t) v;
        sent = ap (◌∷◌ status_update) x.sent;
      })
  store_init-Reaches h name now d (unreadable e) r w v t es i x =
      finish_check-Reaches h name now false e d w _ _ _
        (handle_check_failure-initializing name e w v t es i x)

  pub call_init-outcome :
      (h : Hooks P) (name : String) (p : P)
      → let r = call_init h name p in
        init_of_flag r.success r.message r.error ≡ init_outcome h name p
  unfolding call_init init_outcome init_of_answer init_of_flag refusal
  call_init-outcome h name p = elim (Option-cases h.init_device) [
    | inl n ↦ rw (n, call_init, init_outcome) refl
    | inr (f, e) ↦ elim (Option-cases (f name p)) [
      | inl n ↦ rw (e, call_init, init_outcome) (rw (n, init_of_answer) refl)
      | inr (r, g) ↦ rw (e, call_init, init_outcome) (rw (g, init_of_answer) refl)
    ]
  ]

  pub after_flag-resumed :
      (h : Hooks P) (now : ℕ) (d : Option DeviceReport) (flag : InitFlag) (r : InitReply)
      (s : AgentStatus P)
      → after_flag h now d flag r (record s { last_error = ""; state = initializing })
        ≡ resumed_status h now d (init_of_flag flag r.message r.error) s
  unfolding after_flag init_of_flag resumed_status passed_status with_device note_check note_devices
      after_init is_initializing shown_name
  after_flag-resumed h now none (read true) r s = ground arith
  after_flag-resumed h now (some d) (read true) r s = refl
  after_flag-resumed h now none (read false) r s = ground (arith, init_error-refusal r)
  after_flag-resumed h now (some d) (read false) r s = ground (arith, init_error-refusal r)
  after_flag-resumed h now d (unreadable e) r s = ground arith

  pub note_passed :
      (h : Hooks P) (now : ℕ) (d : Option DeviceReport) (s : AgentStatus P)
      → note_check h now true "" d (record s { last_error = ""; state = healthy })
        ≡ passed_status h now d healthy "" s
  unfolding passed_status with_device note_check note_devices is_initializing
  note_passed h now none s = ground arith
  note_passed h now (some d) s = ground arith
