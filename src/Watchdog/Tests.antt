-- ===== src/Watchdog/Tests.antt =====
-- Concrete agents and checks, and the theorems of the watchdog applied to them.
use xreal_bsp_rgb_tool.Prelude.{ℕ, ◌≡◌, refl, true, false, List, [], ◌∷◌, none, some}
use xreal_bsp_rgb_tool.Prelude.Int.{negsuc}
use xreal_bsp_rgb_tool.Prelude.Maps.{lookup}
use xreal_bsp_rgb_tool.Watchdog.{
  Health, healthy, disconnected, AgentStatus, Watchdog, status_update, init_device_call,
}
use xreal_bsp_rgb_tool.Watchdog.Check.{
  Hooks, InitReply, read, unreadable, CheckReply, replied, threw, check_agent, is_initializing,
}
use xreal_bsp_rgb_tool.Watchdog.Summary.{AgreeOrUnplugged, summaries_agree}
use xreal_bsp_rgb_tool.Watchdog.Primary.{
  Event, register_primary, unregister_scripts, check_round, run, empty_watchdog, OnePrimary,
  run-empty-OnePrimary,
}
use xreal_bsp_rgb_tool.Watchdog.Reference.{
  is_stuck, is_broken, resumes, init_outcome, init_of_answer, init_of_flag,
}
use xreal_bsp_rgb_tool.Watchdog.Recovery.{check_agent_settles, check_agent_reconnects}

abbrev initialized : InitReply
initialized = record { success = read true; message = none; error = none }

abbrev hooks : Hooks ℕ
hooks = record { init_device = some (λ name params. some initialized); number = λ z. "0" }

-- The answer of init_device is a text, no object.
abbrev text_hooks : Hooks ℕ
text_hooks = record {
  init_device = some (λ name params. some (record {
    success = unreadable "cannot use value() with string";
    message = none;
    error = none;
  }));
  number = λ z. "0";
}

abbrev glasses_status : Health → AgentStatus ℕ
glasses_status x = record {
  agent_name = "glasses_bsp_node";
  is_primary = true;
  state = x;
  consecutive_failures = 0;
  last_check_time = 0;
  last_error = "";
  init_device_params = 5;
  last_init_time = 0;
  product_id = negsuc 0;
  product_display_id = "";
  product_name = "";
  fsn = "";
  connected_product_ids = [];
  supported_devices = [];
  suppress_disconnect_dialog = false;
}

abbrev watching : Health → Watchdog ℕ
watching x = record {
  registered_agents = ("glasses_bsp_node", glasses_status x) ∷ [];
  primary_agent = "glasses_bsp_node";
  effects = [];
}

abbrev passed : CheckReply
passed = record { success = true; error = ""; devices = none }

disconnected_settled : is_initializing (glasses_status disconnected).state ≡ false
unfolding is_initializing
disconnected_settled = refl

-- The agent stays initializing for good.
check_agent_settles_example :
    let v = check_agent text_hooks "glasses_bsp_node" 9 (replied passed) (watching disconnected) in
    (t : AgentStatus ℕ) × (lookup "glasses_bsp_node" v.registered_agents ≡ some t)
    × (is_initializing t.state ≡ true)
    × (check_agent text_hooks "glasses_bsp_node" 19 (replied passed) v ≡ v)
unfolding is_stuck is_broken resumes init_outcome init_of_answer init_of_flag
check_agent_settles_example =
    check_agent_settles text_hooks "glasses_bsp_node" 9 19 (replied passed) (replied passed)
      (watching disconnected) (glasses_status disconnected) refl disconnected_settled

check_agent_reconnects_example :
    (t : AgentStatus ℕ) × (lookup "glasses_bsp_node"
        (check_agent hooks "glasses_bsp_node" 9
          (replied passed)
          (watching disconnected)).registered_agents
      ≡ some t)
    × (t.state ≡ healthy)
    × (t.consecutive_failures ≡ 0)
    × ((check_agent hooks "glasses_bsp_node" 9 (replied passed) (watching disconnected)).effects
        ≡ status_update
          ∷ status_update
          ∷ init_device_call "glasses_bsp_node" 5
          ∷ status_update
          ∷ [])
check_agent_reconnects_example =
    check_agent_reconnects hooks "glasses_bsp_node" 9 passed (watching disconnected)
      (glasses_status disconnected) (λ name params. some initialized) initialized true refl refl
      refl refl refl refl refl

abbrev two_agents : List (Event ℕ)
two_agents =
    register_primary "glasses_bsp_node" 5
    ∷ register_primary "imu_node" 6
    ∷ check_round 3 (threw "timeout")
    ∷ unregister_scripts ("glasses_bsp_node" ∷ [])
    ∷ []

run-empty-OnePrimary_example : OnePrimary (run hooks empty_watchdog two_agents)
run-empty-OnePrimary_example = run-empty-OnePrimary hooks two_agents

summaries_agree_example : AgreeOrUnplugged (watching disconnected)
summaries_agree_example = summaries_agree (watching disconnected)
