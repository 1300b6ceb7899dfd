-- ===== src/Watchdog/Recovery.antt =====
-- How a health check moves an agent: what fails, what recovers, and what it stops.
use xreal_bsp_rgb_tool.Prelude.{
  ℕ, ◌≡◌, refl, ap, ◌∙◌, Bool, true, false, [], ◌∷◌, ◌++◌, Option, some, String, if◌then◌else◌,
  arith,
}
use xreal_bsp_rgb_tool.Prelude.Maps.{lookup}
use xreal_bsp_rgb_tool.Watchdog.{
  healthy, disconnected, AgentStatus, status_update, init_device_call, Watchdog,
}
use xreal_bsp_rgb_tool.Watchdog.Check.{
  CheckOutcome, CheckReply, DeviceReport, replied, threw, Hooks, InitReply, read, is_initializing,
  check_agent, run_check,
}
use xreal_bsp_rgb_tool.Watchdog.Reference.{
  Init, done, refused, broken, is_broken, is_stuck, init_outcome, init_of_answer, init_of_flag,
  failed_status, passed_status, resumed_status, resumes, with_device, failure, checked, init_call,
  success_effects, check_effects,
}
use xreal_bsp_rgb_tool.Watchdog.Outcome.{Reaches}
use xreal_bsp_rgb_tool.Watchdog.Rounds.{run_check-Reaches}

answer_outcome : Bool → InitReply → Init
unfolding init_of_flag
answer_outcome ok answer = init_of_flag (read ok) answer.message answer.error

module _ {P : Type 0} where
  pub check_agent-Reaches :
      (h : Hooks P) (name : String) (now : ℕ) (o : CheckOutcome) (w : Watchdog P)
      (s : AgentStatus P)
      → lookup name w.registered_agents ≡ some s
      → is_initializing s.state ≡ false
      → Reaches w
          (check_agent h name now o w)
          name
          (checked h name now o s)
          (check_effects h name o s)
  unfolding check_agent
  check_agent-Reaches h name now o w s e f =
      rw (e, check_agent) (rw f (run_check-Reaches h name now o w s e f))

  passed_status-state :
      (h : Hooks P) (now : ℕ) (d : Option DeviceReport) (s : AgentStatus P)
      → (passed_status h now d healthy "" s).state ≡ healthy
  unfolding passed_status with_device
  passed_status-state h now d s = ground arith

  resumed_status-initializing :
      (h : Hooks P) (now : ℕ) (d : Option DeviceReport) (o : Init) (s : AgentStatus P)
      → is_initializing (resumed_status h now d o s).state ≡ is_broken o
  unfolding resumed_status is_initializing is_broken passed_status with_device
  resumed_status-initializing h now d done s = ground arith
  resumed_status-initializing h now d (refused m) s = ground arith
  resumed_status-initializing h now d (broken e) s = ground arith

  checked-initializing :
      (h : Hooks P) (name : String) (now : ℕ) (o : CheckOutcome) (s : AgentStatus P)
      → is_initializing (checked h name now o s).state ≡ is_stuck h name o s
  unfolding checked is_stuck is_initializing failed_status
  checked-initializing h name now (threw e) s = refl
  checked-initializing h name now (replied r) s = ground (
    arith,
    resumed_status-initializing h now r.devices (init_outcome h name s.init_device_params) s,
    passed_status-state h now r.devices s,
  )

  next_check :
      (h : Hooks P) (name : String) (now : ℕ) (o : CheckOutcome) (w : Watchdog P)
      (s : AgentStatus P)
      → lookup name w.registered_agents ≡ some s
      → check_agent h name now o w
        ≡ (if is_initializing s.state then w else run_check h name now o w)
  unfolding check_agent
  next_check h name now o w s e = rw (e, check_agent) refl

  -- An agent that is not initializing comes out of a check as initializing exactly if the check passes, the
  -- agent is a disconnected primary one and reading the answer of init_device throws; from then on every
  -- check of it leaves the watchdog as it is, whatever would be answered, and otherwise the next check runs.
  pub check_agent_settles :
      (h : Hooks P) (name : String) (now later : ℕ) (o o2 : CheckOutcome) (w : Watchdog P)
      (s : AgentStatus P)
      → lookup name w.registered_agents ≡ some s
      → is_initializing s.state ≡ false
      → let v = check_agent h name now o w in
        (t : AgentStatus P) × (lookup name v.registered_agents ≡ some t)
        × (is_initializing t.state ≡ is_stuck h name o s)
        × (check_agent h name later o2 v
            ≡ (if is_stuck h name o s then v else run_check h name later o2 v))
  check_agent_settles h name now later o o2 w s e f =
      let v = check_agent h name now o w in
      let r = check_agent-Reaches h name now o w s e f in
      (
        checked h name now o s,
        r.status,
        checked-initializing h name now o s,
        next_check h name later o2 v (checked h name now o s) r.status
            ∙ ap (λ b. if b then v else run_check h name later o2 v)
                (checked-initializing h name now o s),
      )

  init_answered :
      (h : Hooks P) (name : String) (s : AgentStatus P) (f : String → P → Option InitReply)
      (answer : InitReply) (ok : Bool)
      → h.init_device ≡ some f
      → f name s.init_device_params ≡ some answer
      → answer.success ≡ read ok
      → init_outcome h name s.init_device_params ≡ answer_outcome ok answer
  unfolding init_outcome init_of_answer answer_outcome
  init_answered h name s f answer ok c a b =
      rw (c, init_outcome)
        (ap init_of_answer a ∙ ap (λ x. init_of_flag x answer.message answer.error) b)

  reconnected :
      (h : Hooks P) (name : String) (now : ℕ) (r : CheckReply) (s : AgentStatus P)
      (f : String → P → Option InitReply) (answer : InitReply) (ok : Bool)
      → s.state ≡ disconnected
      → s.is_primary ≡ true
      → r.success ≡ true
      → h.init_device ≡ some f
      → init_outcome h name s.init_device_params ≡ answer_outcome ok answer
      → ((checked h name now (replied r) s).state ≡ (if ok then healthy else disconnected))
        × ((checked h name now (replied r) s).consecutive_failures ≡ 0)
        × (check_effects h name (replied r) s
            ≡ status_update
              ∷ status_update
              ∷ init_device_call name s.init_device_params
              ∷ status_update
              ∷ [])
  unfolding checked resumes resumed_status passed_status with_device answer_outcome init_of_flag
      check_effects success_effects init_call failure
  reconnected h name now r s f answer true d p y c o =
      (ground (arith, d, p, y, o), ground (arith, d, p, y, o), ground (arith, d, p, y, o, c))
  reconnected h name now r s f answer false d p y c o =
      (ground (arith, d, p, y, o), ground (arith, d, p, y, o), ground (arith, d, p, y, o, c))

  -- A disconnected primary agent whose check succeeds again, where a callback for init_device is set and
  -- answers with a Boolean success: the callback is called once, with the parameters registered for the
  -- agent, and the agent is healthy exactly if that success is true, and else disconnected, with no
  -- failures in either case.
  pub check_agent_reconnects :
      (h : Hooks P) (name : String) (now : ℕ) (r : CheckReply) (w : Watchdog P) (s : AgentStatus P)
      (f : String → P → Option InitReply) (answer : InitReply) (ok : Bool)
      → lookup name w.registered_agents ≡ some s
      → s.state ≡ disconnected
      → s.is_primary ≡ true
      → r.success ≡ true
      → h.init_device ≡ some f
      → f name s.init_device_params ≡ some answer
      → answer.success ≡ read ok
      → (t : AgentStatus P) × (lookup name (check_agent h name now (replied r) w).registered_agents
          ≡ some t)
        × (t.state ≡ (if ok then healthy else disconnected))
        × (t.consecutive_failures ≡ 0)
        × ((check_agent h name now (replied r) w).effects
            ≡ status_update
              ∷ status_update
              ∷ init_device_call name s.init_device_params
              ∷ status_update
              ∷ w.effects)
  unfolding is_initializing
  check_agent_reconnects h name now r w s f answer ok e d p y c a b =
      let v = check_agent-Reaches h name now (replied r) w s e (ground arith) in
      let o = init_answered h name s f answer ok c a b in
      let g = reconnected h name now r s f answer ok d p y c o in
      (
        checked h name now (replied r) s,
        v.status,
        g.0,
        g.1,
        v.sent ∙ ap (λ es. es ++ w.effects) g.2,
      )
