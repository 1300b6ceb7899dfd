-- ===== src/Watchdog/Summary.antt =====
-- The text of the watchdog's state: once in notifyStatusUpdate, which sends it, and once in
-- getStatusSummary, which the top bar asks for. Texts are kept as data, a label with its arguments.
use text.Mathlib.Text.{◌==◌}
use xreal_bsp_rgb_tool.Prelude.{
  ℕ, suc, ◌≡◌, refl, true, not, ◌&&◌, List, [], ◌∷◌, Option, none, some, String, if◌then◌else◌, ltb,
  length, arith, Option-cases, Bool-cases, inl, inr, ◌⊎◌,
}
use xreal_bsp_rgb_tool.Prelude.Int.{ℤ, positive}
use xreal_bsp_rgb_tool.Prelude.Maps.{lookup}
use xreal_bsp_rgb_tool.Watchdog.{Health, healthy, disconnected, initializing, AgentStatus, Watchdog}

-- glassesDeviceLabel
pub data Label : Type 0 where
  id_and_name : String → String → Label
  id_only name_only : String → Label
  numbered : ℤ → Label
  glasses : Label

pub data Summary : Type 0 where
  unmonitored : Summary
  connected initializing_device waiting_reconnect disconnected_device : Label → Summary
  agents_initializing all_fine : ℕ → Summary
  some_disconnected : ℕ → ℕ → ℕ → Summary

module _ {P : Type 0} where
  unfoldable pub glasses_device_label : AgentStatus P → Label
  glasses_device_label s =
      if not (s.product_display_id == "") && not (s.product_name == "")
      then id_and_name s.product_display_id s.product_name
      else if not (s.product_display_id == "")
      then id_only s.product_display_id
      else if not (s.product_name == "")
      then name_only s.product_name
      else if positive s.product_id
      then numbered s.product_id
      else glasses

  -- The three counters of both loops.
  abbrev pub count_healthy : List (String × AgentStatus P) → ℕ
  count_healthy [] = 0
  count_healthy ((k, s) ∷ m) = elim s.state [
    | healthy ↦ suc (count_healthy m)
    | _ ↦ count_healthy m
  ]

  abbrev pub count_disconnected : List (String × AgentStatus P) → ℕ
  count_disconnected [] = 0
  count_disconnected ((k, s) ∷ m) = elim s.state [
    | disconnected ↦ suc (count_disconnected m)
    | _ ↦ count_disconnected m
  ]

  abbrev pub count_initializing : List (String × AgentStatus P) → ℕ
  count_initializing [] = 0
  count_initializing ((k, s) ∷ m) = elim s.state [
    | initializing ↦ suc (count_initializing m)
    | _ ↦ count_initializing m
  ]

  unfoldable pub summary_of_counts : List (String × AgentStatus P) → Summary
  summary_of_counts m =
      if ltb 0 (count_initializing m)
      then agents_initializing (length m)
      else if ltb 0 (count_disconnected m)
      then some_disconnected (length m) (count_healthy m) (count_disconnected m)
      else all_fine (length m)

  sent_for : AgentStatus P → Health → Summary
  sent_for s healthy = connected (glasses_device_label s)
  sent_for s initializing = initializing_device (glasses_device_label s)
  sent_for s disconnected =
      if s.suppress_disconnect_dialog
      then waiting_reconnect (glasses_device_label s)
      else disconnected_device (glasses_device_label s)

  -- The summary that notifyStatusUpdate sends.
  unfoldable pub sent_summary : Watchdog P → Summary
  unfolding sent_for
  sent_summary w = elim (lookup w.primary_agent w.registered_agents) [
    | some s ↦ sent_for s s.state
    | none ↦ elim w.registered_agents [ [] ↦ unmonitored | a ∷ m ↦ summary_of_counts (a ∷ m) ]
  ]

  shown_for : AgentStatus P → Health → Summary
  shown_for s healthy = connected (glasses_device_label s)
  shown_for s initializing = initializing_device (glasses_device_label s)
  shown_for s disconnected = disconnected_device (glasses_device_label s)

  shown_for_primary : Watchdog P → Option (AgentStatus P) → Summary
  unfolding shown_for
  shown_for_primary w (some s) = shown_for s s.state
  shown_for_primary w none = summary_of_counts w.registered_agents

  shown_for_agents : Watchdog P → List (String × AgentStatus P) → Summary
  unfolding shown_for_primary
  shown_for_agents w [] = unmonitored
  shown_for_agents w (a ∷ m) = shown_for_primary w (lookup w.primary_agent w.registered_agents)

  -- getStatusSummary
  unfoldable pub get_status_summary : Watchdog P → Summary
  unfolding shown_for_agents
  get_status_summary w = shown_for_agents w w.registered_agents

  -- The primary agent is hot-plugged and its device is gone.
  pub record Unplugged (w : Watchdog P) (s : AgentStatus P) : Type 0 where
    pub found : lookup w.primary_agent w.registered_agents ≡ some s
    pub gone : s.state ≡ disconnected
    pub hot_plug : s.suppress_disconnect_dialog ≡ true

  -- Both give one text, or the signal says that the tool waits and the bar that the device is gone.
  abbrev pub AgreeOrUnplugged : Watchdog P → Type 0
  AgreeOrUnplugged w =
      (sent_summary w ≡ get_status_summary w)
      ⊎ ((s : AgentStatus P) × Unplugged w s
          × (sent_summary w ≡ waiting_reconnect (glasses_device_label s))
          × (get_status_summary w ≡ disconnected_device (glasses_device_label s)))

  agree_missing :
      (w : Watchdog P) (m : List (String × AgentStatus P))
      → w.registered_agents ≡ m
      → lookup w.primary_agent w.registered_agents ≡ none
      → sent_summary w ≡ get_status_summary w
  unfolding sent_summary get_status_summary
  agree_missing w [] em e = ground arith
  agree_missing w (a ∷ m) em e = ground arith

  agree_found :
      (w : Watchdog P) (s : AgentStatus P) (m : List (String × AgentStatus P)) (h : Health)
      → w.registered_agents ≡ m
      → s.state ≡ h
      → lookup w.primary_agent w.registered_agents ≡ some s
      → AgreeOrUnplugged w
  unfolding sent_summary get_status_summary
  agree_found w s [] h em eh e = ground arith
  agree_found w s (a ∷ m) healthy em eh e = inl (ground arith)
  agree_found w s (a ∷ m) initializing em eh e = inl (ground arith)
  agree_found w s (a ∷ m) disconnected em eh e = elim (Bool-cases s.suppress_disconnect_dialog) [
    | inl hot ↦ inr (s, record { found = e; gone = eh; hot_plug = hot }, ground arith, ground arith)
    | inr cold ↦ inl (ground arith)
  ]

  -- The summary that the status signal carries is the one that the top bar asks for, unless the primary
  -- agent is registered, disconnected and hot-plugged: then the signal says that the tool waits for the
  -- device to come back, and the bar that the device is disconnected.
  pub summaries_agree : (w : Watchdog P) → AgreeOrUnplugged w
  summaries_agree w = elim (Option-cases (lookup w.primary_agent w.registered_agents)) [
    | inl e ↦ inl (agree_missing w w.registered_agents refl e)
    | inr (s, e) ↦ agree_found w s w.registered_agents s.state refl refl e
  ]
