-- ===== src/Manager/Kept/Command.antt =====
-- What a command for an agent leaves in order.
use Prim.Native.String.{◌++◌}
use text.Mathlib.Text.{◌==◌}
use xreal_bsp_rgb_tool.Prelude.{
  refl, Bool, true, false, ◌&&◌, ◌||◌, Option, none, some, String, if_both, Option-cases, inl, inr,
}
use xreal_bsp_rgb_tool.Platform.{Text, JsonLib}
use xreal_bsp_rgb_tool.Watchdog.Primary.{mark_initializing, mark_disconnected, mark_healthy, step}
use xreal_bsp_rgb_tool.Manager.Fields.{Fields, with_error}
use xreal_bsp_rgb_tool.Manager.Agents.{AgentClass, is_primary_agent, get_agent}
use xreal_bsp_rgb_tool.Manager.Process.{Process}
use xreal_bsp_rgb_tool.Manager.Actions.{Outside, Handled}
use xreal_bsp_rgb_tool.Manager.Command.{
  send_agent_command, command_agent, note_command, announce_init, decode_command, Outcome,
  call_agent, settle, announce, keep_called,
}
use xreal_bsp_rgb_tool.Manager.Kept.{Kept, Kept-refl, Kept-trans, Kept-step, Kept-same, post}

module _ (q : Text) (J : JsonLib) {A : Type 0} (C : AgentClass J.Json A)
    (o : Outside (Fields J)) where
  pub note_command-Kept :
      (name command : String) (params : J.Json) (r : Outcome J) (p : Process J A)
      → Kept p (note_command q J C o name command params r p)
  unfolding note_command post step
  note_command-Kept name command params r p =
      if_both (Kept p) (command == "init_device")
        (if_both (Kept p) r.success (Kept-step (mark_healthy name true o.now) p _ refl refl)
          (Kept-step (mark_disconnected name r.message) p _ refl refl))
        (if_both (Kept p) (command == "start_device" || command == "restart_device")
          (if_both (Kept p) (r.success || q.contains_insensitive r.message "Already started")
            (Kept-step (mark_healthy name false o.now) p _ refl refl) (Kept-refl p))
          (if_both (Kept p) ((command == "stop_device" || command == "release_device") && r.success)
            (Kept-step (mark_disconnected name (command ++ " completed")) p _ refl refl)
            (Kept-refl p)))

  pub announce_init-Kept :
      (name command : String) (p : Process J A) → Kept p (announce_init q J C o name command p)
  unfolding announce_init post step
  announce_init-Kept name command p =
      if_both (Kept p) (command == "init_device")
        (Kept-step (mark_initializing name "Explicit init_device in progress") p _ refl refl)
        (Kept-refl p)

  pub keep_called-Kept :
      (name : String) (agent : A) (p : Process J A) → Kept p (keep_called q J C o name agent p)
  unfolding keep_called post
  keep_called-Kept name agent p = Kept-same p _ refl refl

  pub announce-Kept :
      (primary : Bool) (name command : String) (p : Process J A)
      → Kept p (announce q J C o primary name command p)
  unfolding announce
  announce-Kept primary name command p =
      if_both (Kept p) primary (announce_init-Kept name command p) (Kept-refl p)

  pub settle-Kept :
      (primary : Bool) (name command : String) (params : J.Json) (r : Outcome J) (p : Process J A)
      → Kept p (settle q J C o primary name command params r p)
  unfolding settle
  settle-Kept primary name command params r p =
      if_both (Kept p) primary (note_command-Kept name command params r p) (Kept-refl p)

  pub command_agent-Kept :
      (name command : String) (params : J.Json) (agent : A) (p : Process J A)
      → Kept p (command_agent q J C o name command params agent p).0
  unfolding command_agent
  command_agent-Kept name command params agent p =
      let primary = is_primary_agent J C o.agent_error name p.agents in
      let r = call_agent q J C o name primary command params agent in
      let a = announce q J C o primary name command p in
      let k = keep_called q J C o name r.0 a in
      Kept-trans p k (settle q J C o primary name command params r.1 k)
        (Kept-trans p a k (announce-Kept primary name command p) (keep_called-Kept name r.0 a))
        (settle-Kept primary name command params r.1 k)

  pub get_agent-Kept :
      (name command : String) (params : J.Json) (p : Process J A) (agent : Option A)
      → Kept p
          (elim agent as (λ x. Handled q J C o) [
            | none ↦ (p, some (with_error J (name ++ " not initialized")))
            | some a ↦ command_agent q J C o name command params a p
          ]).0
  get_agent-Kept name command params p none = Kept-refl p
  get_agent-Kept name command params p (some a) = command_agent-Kept name command params a p

  pub send_agent_command-Kept :
      (c : Fields J) (p : Process J A) → Kept p (send_agent_command q J C o c p).0
  unfolding send_agent_command
  send_agent_command-Kept c p = elim (Option-cases (decode_command q J C o c)) [
    | inl e ↦ rw (e, send_agent_command) (Kept-refl p)
    | inr ((name, command, params), e) ↦
        rw (e, send_agent_command)
          (if_both (λ (r : Handled q J C o). Kept p r.0) (command == "") (Kept-refl p)
            (get_agent-Kept name command params p (get_agent J C o.agent_error name p.agents)))
  ]
