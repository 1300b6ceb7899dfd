-- ===== src/Manager/Kept.antt =====
-- What every action of a command leaves in order: the queues and the waiting results, which it does not
-- touch, and the watchdog's primary agent.
pub mod Handlers
pub mod Command
pub mod Run
use Prim.Native.String.{◌++◌}
use text.Mathlib.Text.{◌==◌}
use xreal_bsp_rgb_tool.Prelude.{
  ℕ, ◌≡◌, refl, ◌∙◌, Bool, true, false, not, ◌&&◌, ◌||◌, List, [], ◌∷◌, Option, none, some, String,
  if_both, Option-cases, inl, inr,
}
use xreal_bsp_rgb_tool.Platform.{Text, JsonLib}
use xreal_bsp_rgb_tool.Watchdog.Check.{Hooks}
use xreal_bsp_rgb_tool.Watchdog.Primary.{
  Event, register_primary, update_params, unregister_primary, mark_initializing, mark_disconnected,
  mark_healthy, set_device_config, step, OnePrimary, step-OnePrimary,
}
use xreal_bsp_rgb_tool.Manager.Fields.{Fields, value_text, value_flag, value_json, with_error}
use xreal_bsp_rgb_tool.Manager.Agents.{
  AgentClass, is_primary_agent, get_agent, get_agent_config, initialize_agent,
}
use xreal_bsp_rgb_tool.Manager.Process.{Process}
use xreal_bsp_rgb_tool.Manager.Actions.{
  primary_bsp_agent, Outside, Handled, init_agent, handle_watchdog_init_params, handle_release,
  handle_stop_all, handle_stop_agents, handle_emergency_stop, handle_shutdown, leave_primary,
  leave_first_primary, register_watch, watch_agent, init_result, configure_devices, auto_start,
  supported_devices,
}

-- What the senders and the waiting callers share with the loop.
pub record Post (J : JsonLib) : Type 0 where
  pub urgent : List (Fields J)
  pub normal : List (Fields J)
  pub results : List (String × Fields J)
  pub counter : ℕ

unfoldable pub post : {J : JsonLib} {A : Type 0} → Process J A → Post J
post p = record {
  urgent = p.urgent_command_queue;
  normal = p.command_queue;
  results = p.sync_results;
  counter = p.request_counter;
}

abbrev pub hooks : {P : Type 0} → Hooks P
hooks = record { init_device = none; number = λ z. "" }

module _ {J : JsonLib} {A : Type 0} where
  -- From one process to the next, and the next one's watchdog has one primary agent if the first has.
  pub record Kept (p r : Process J A) : Type 0 where
    pub same_post : post r ≡ post p
    pub watched : OnePrimary p.watchdog → OnePrimary r.watchdog

  pub Kept-refl : (p : Process J A) → Kept p p
  Kept-refl p = record { same_post = refl; watched = λ v. v }

  pub Kept-trans : (p r s : Process J A) → Kept p r → Kept r s → Kept p s
  Kept-trans p r s k l = record {
    same_post = l.same_post ∙ k.same_post;
    watched = λ v. l.watched (k.watched v);
  }

  -- A call of the watchdog.
  pub Kept-step :
      (e : Event J.Json) (p r : Process J A)
      → post r ≡ post p
      → r.watchdog ≡ step hooks p.watchdog e
      → Kept p r
  Kept-step e p r k l = record {
    same_post = k;
    watched = λ v. rw l (step-OnePrimary hooks p.watchdog e v);
  }

  -- A change of neither.
  pub Kept-same : (p r : Process J A) → post r ≡ post p → r.watchdog ≡ p.watchdog → Kept p r
  Kept-same p r k l = record { same_post = k; watched = λ v. rw l v }
