-- ===== src/Watchdog/Rounds.antt =====
-- One run of checkAgent of src/backend/agent_watchdog.cpp behind its test, against the reference.
use xreal_bsp_rgb_tool.Prelude.{
  ℕ, ◌≡◌, refl, sym, subst, Bool, true, false, List, [], ◌∷◌, Option, none, some, String,
  if◌then◌else◌, arith, Bool-cases, inl, inr,
}
use xreal_bsp_rgb_tool.Prelude.Maps.{lookup}
use xreal_bsp_rgb_tool.Watchdog.{
  Health, healthy, disconnected, initializing, AgentStatus, Effect, status_update, Watchdog, store,
  notify_status_update,
}
use xreal_bsp_rgb_tool.Watchdog.Check.{
  CheckOutcome, DeviceReport, replied, threw, Hooks, InitFlag, read, unreadable, call_init,
  store_init, note_call, init_device, check_succeeded, is_initializing, finish_check,
  conclude_success, run_check,
}
use xreal_bsp_rgb_tool.Watchdog.Reference.{
  Init, broken, init_of_flag, init_outcome, passed_status, resumed_status, resumes, failure,
  checked, init_call, success_effects, check_effects,
}
use xreal_bsp_rgb_tool.Watchdog.Outcome.{
  lookup-store, Reaches, finish_check-Reaches, handle_check_success-lookup, failed-Reaches,
}
use xreal_bsp_rgb_tool.Watchdog.Resume.{
  note_call-Reaches, flag_effects, store_init-Reaches, call_init-outcome, after_flag-resumed,
  note_passed, init_device-lookup,
}

module _ {P : Type 0} where
  abbrev end_effects : Init → List (Effect P) → List (Effect P)
  end_effects o es = elim o [ broken e ↦ es | _ ↦ status_update ∷ es ]

  flag_effects-end :
      (flag : InitFlag) (m e : Option String) (es : List (Effect P))
      → flag_effects flag es ≡ end_effects (init_of_flag flag m e) es
  unfolding flag_effects init_of_flag
  flag_effects-end (read true) m e es = refl
  flag_effects-end (read false) m e es = refl
  flag_effects-end (unreadable x) m e es = refl

  -- A disconnected primary agent behind a positive answer.
  resumed-Reaches :
      (h : Hooks P) (name : String) (now : ℕ) (d : Option DeviceReport) (w : Watchdog P)
      (s : AgentStatus P)
      → let t = record s { last_error = ""; state = initializing } in
        let o = init_outcome h name s.init_device_params in
        Reaches w
          (conclude_success h name now d
            (init_device h name s.init_device_params now (notify_status_update (store name t w))))
          name
          (resumed_status h now d o s)
          (status_update ∷ end_effects o (init_call h name s (status_update ∷ [])))
  unfolding init_call
  resumed-Reaches h name now d w s =
      let p = s.init_device_params in
      let t = record s { last_error = ""; state = initializing } in
      let v = notify_status_update (store name t w) in
      let r = call_init h name p in
      let called = init_call h name s (status_update ∷ []) in
      let n =
        note_call-Reaches h name w v t (record { status = lookup-store name t w; sent = refl }) in
      subst
        (λ x.
          Reaches w (conclude_success h name now d x) name
            (resumed_status h now d (init_outcome h name p) s)
            (status_update ∷ end_effects (init_outcome h name p) called))
        (sym (init_device-lookup h name p now t v n.status))
        (subst
          (λ o.
            Reaches w
              (conclude_success h name now d
                (store_init r.success r now name t (note_call h name p v)))
              name (resumed_status h now d o s) (status_update ∷ end_effects o called))
          (call_init-outcome h name p)
          (subst
            (λ es.
              Reaches w
                (conclude_success h name now d
                  (store_init r.success r now name t (note_call h name p v)))
                name (resumed_status h now d (init_of_flag r.success r.message r.error) s)
                (status_update ∷ es))
            (flag_effects-end r.success r.message r.error called)
            (subst
              (λ u.
                Reaches w
                  (conclude_success h name now d
                    (store_init r.success r now name t (note_call h name p v)))
                  name u (status_update ∷ flag_effects r.success called))
              (after_flag-resumed h now d r.success r s)
              (store_init-Reaches h name now d r.success r w (note_call h name p v) t called refl
                n))))

  -- Any other agent behind a positive answer.
  plain-Reaches :
      (h : Hooks P) (name : String) (now : ℕ) (d : Option DeviceReport) (w : Watchdog P)
      (s : AgentStatus P)
      → Reaches w
          (finish_check h name now true "" d
            (store name (record s { last_error = ""; state = healthy }) w))
          name
          (passed_status h now d healthy "" s)
          (status_update ∷ [])
  plain-Reaches h name now d w s =
      let t = record s { last_error = ""; state = healthy } in
      subst
        (λ u.
          Reaches w (finish_check h name now true "" d (store name t w)) name u
            (status_update ∷ []))
        (note_passed h now d s)
        (finish_check-Reaches h name now true "" d w (store name t w) t []
          (record { status = lookup-store name t w; sent = refl }))

  -- Behind a positive answer, by whether the agent is resumed.
  abbrev Passed :
      Hooks P
      → String
      → ℕ
      → Option DeviceReport
      → Watchdog P
      → AgentStatus P
      → Watchdog P
      → Bool
      → Type 0
  Passed h name now d w s v b =
      let o = init_outcome h name s.init_device_params in
      Reaches w v name
        (if b then resumed_status h now d o s else passed_status h now d healthy "" s)
        (status_update
          ∷ (if b then end_effects o (init_call h name s (status_update ∷ [])) else []))

  resumes-healthy : (s : AgentStatus P) → s.state ≡ healthy → resumes s ≡ false
  unfolding resumes
  resumes-healthy s i = ground (arith, i)

  resumes-disconnected : (s : AgentStatus P) → s.state ≡ disconnected → resumes s ≡ s.is_primary
  unfolding resumes
  resumes-disconnected s i = ground (arith, i)

  check_succeeded-Passed :
      (h : Hooks P) (name : String) (now : ℕ) (d : Option DeviceReport) (w : Watchdog P)
      (s : AgentStatus P) (x : Health)
      → s.state ≡ x
      → is_initializing x ≡ false
      → Passed h name now d w s
          (conclude_success h name now d (check_succeeded h name now w s x))
          (resumes s)
  unfolding conclude_success check_succeeded resumes is_initializing
  check_succeeded-Passed h name now d w s healthy i f =
      subst
        (Passed h name now d w s
          (conclude_success h name now d (check_succeeded h name now w s healthy)))
        (sym (resumes-healthy s i)) (plain-Reaches h name now d w s)
  check_succeeded-Passed h name now d w s initializing i f = absurd (ground (arith, f))
  check_succeeded-Passed h name now d w s disconnected i f =
      subst
        (Passed h name now d w s
          (conclude_success h name now d (check_succeeded h name now w s disconnected)))
        (sym (resumes-disconnected s i)) (by_primary s.is_primary)
    where
      by_primary :
          (b : Bool)
          → Passed h name now d w s
              (conclude_success h name now d (
                if b
                then init_device h name s.init_device_params now (
                    notify_status_update
                      (store name (record s { last_error = ""; state = initializing }) w))
                else (store name (record s { last_error = ""; state = healthy }) w, none)))
              b
      by_primary true = resumed-Reaches h name now d w s
      by_primary false = plain-Reaches h name now d w s

  pub run_check-Reaches :
      (h : Hooks P) (name : String) (now : ℕ) (o : CheckOutcome) (w : Watchdog P)
      (s : AgentStatus P)
      → lookup name w.registered_agents ≡ some s
      → is_initializing s.state ≡ false
      → Reaches w
          (run_check h name now o w)
          name
          (checked h name now o s)
          (check_effects h name o s)
  unfolding run_check checked check_effects failure success_effects
  run_check-Reaches h name now (threw x) w s e f = failed-Reaches h name now x none w s e f
  run_check-Reaches h name now (replied r) w s e f = elim (Bool-cases r.success) [
    | inl y ↦
        rw (y, run_check, checked, check_effects, failure)
          (subst
            (λ v.
              Passed h name now r.devices w s (conclude_success h name now r.devices v) (resumes s))
            (sym (handle_check_success-lookup h name now w s e))
            (check_succeeded-Passed h name now r.devices w s s.state refl f))
    | inr n ↦
        rw (n, run_check, checked, check_effects, failure)
          (failed-Reaches h name now r.error r.devices w s e f)
  ]
