-- ===== src/Subnode/Publishing.antt =====
-- The publishers of a node with their rate limiters, its feedback, and the announcement of its data
-- (src/subnodes/base_subnode.cpp). The constructors and the publishing of the message system answer by
-- arguments or are not seen.
use text.Mathlib.Text.{◌==◌}
use xreal_bsp_rgb_tool.Prelude.{
  ℕ, Bool, true, false, not, ◌&&◌, List, [], ◌∷◌, Option, none, some, String, if◌then◌else◌,
}
use xreal_bsp_rgb_tool.Prelude.{◌==◌ as same_ℕ}
use xreal_bsp_rgb_tool.Prelude.Int.{ℤ}
use xreal_bsp_rgb_tool.Prelude.Tables.{put, has, emplace}
use xreal_bsp_rgb_tool.Platform.{JsonLib}
use xreal_bsp_rgb_tool.Limiter.{RateLimiter, check}
use xreal_bsp_rgb_tool.Registry.{DataRegistryClient, send_registration}
use xreal_bsp_rgb_tool.Subnode.{Subnode}

-- `agentTopics_[port] = topic`.
unfoldable pub set_topic : ℕ → String → List (ℕ × String) → List (ℕ × String)
set_topic port topic [] = (port, topic) ∷ []
set_topic port topic ((p, t) ∷ rest) =
    if same_ℕ p port then (port, topic) ∷ rest else (p, t) ∷ set_topic port topic rest

module _ {Json : Type 0} where
  -- Whether the server publishes it without an exception is not seen.
  unfoldable pub send_feedback : ℕ → Json → Subnode Json → Subnode Json
  send_feedback id f s =
      if s.is_shutting_down
      then s
      else if s.action_server
      then record s { feedbacks = (id, f) ∷ s.feedbacks }
      else s

  -- createPublisher with the limiter of its frequency; `throws` is whether the constructor does.
  unfoldable pub create_publisher :
      ℕ → String → RateLimiter → Bool → Bool → Subnode Json → Subnode Json × Bool
  unfolding set_topic
  create_publisher port topic limiter to_agent throws s =
      if has port s.publishers then (s, false) else if throws then (s, false) else (
        record s {
          publishers = put port topic s.publishers;
          rate_limiters = emplace port limiter s.rate_limiters;
          agent_topics =
              if to_agent && not (topic == "")
              then set_topic port topic s.agent_topics
              else s.agent_topics;
        },
        true,
      )

module _ (J : JsonLib) (float_ns : J.Json → Option ℤ) where
  open J use {Json}

  unfoldable pub publish_if : Bool → ℕ → Json → Subnode Json → Subnode Json
  publish_if b port message s =
      if b then record s { published = (port, message) ∷ s.published } else s

  unfoldable pub publish_checked :
      ℕ → Json → Subnode Json → Option (RateLimiter × Bool) → Option (Subnode Json)
  unfolding publish_if
  publish_checked port message s none = none
  publish_checked port message s (some (limiter, pass)) =
      some (
        publish_if pass port message
          (record s { rate_limiters = put port limiter s.rate_limiters }))

  -- publish; none where the limiter throws, which is outside its try block, or overflows. What the publisher throws is
  -- caught and not seen here.
  unfoldable pub publish_data : ℤ → ℕ → Json → Subnode Json → Option (Subnode Json)
  unfolding publish_if publish_checked check
  publish_data now port message s =
      if s.is_shutting_down
      then some s
      else if not (has port s.publishers)
      then some s
      else elim (s.rate_limiters port) [
        | none ↦ some (publish_if true port message s)
        | some limiter ↦ publish_checked port message s (check J float_ns now message limiter)
      ]

module _ (J : JsonLib) where
  open J use {Json}

  unfoldable pub register_by :
      Option DataRegistryClient → String → String → ℤ → Subnode Json → Subnode Json × Bool
  unfolding send_registration
  register_by none name type port s = (s, false)
  register_by (some c) name type port s =
      let (d, r) =
        send_registration J
          (record { data_name = name; data_type = type; port = port; node_name = s.name }) c in
      (record s { registry_client = some d }, r.success)

  unfoldable pub register_custom_data : String → String → ℤ → Subnode Json → Subnode Json × Bool
  unfolding register_by
  register_custom_data name type port s = register_by s.registry_client name type port s
