-- ===== src/Agent/Feed.antt =====
-- The topics of an agent against the list of the messages that came.
use text.Mathlib.Text.{◌==◌}
use xreal_bsp_rgb_tool.Prelude.{
  ℕ, suc, ◌+◌, ◌≡◌, refl, ap, ◌∙◌, Bool, true, false, List, [], ◌∷◌, some, String, if◌then◌else◌,
  arith, length, eq_iff, if_both,
}
use xreal_bsp_rgb_tool.Prelude.{◌==◌ as same_ℕ}
use xreal_bsp_rgb_tool.Prelude.Maps.{lookup, insert, lookup-insert}
use xreal_bsp_rgb_tool.Prelude.Tables.{has, put}
use xreal_bsp_rgb_tool.Platform.{JsonLib}
use xreal_bsp_rgb_tool.Agent.Base.{BaseAgent}
use xreal_bsp_rgb_tool.Agent.Topics.{
  create_subscriber, message_content, on_topic_data, newest, get_topic_data, get_topic_data_by_name,
  newest_of, get_topic_receive_count, counted, on_all_topic_data,
}

-- The messages of one port, in their order.
unfoldable pub sent_to : ℕ → List (ℕ × String) → List String
sent_to port [] = []
sent_to port ((p, raw) ∷ rest) =
    if same_ℕ p port then raw ∷ sent_to port rest else sent_to port rest

module _ (J : JsonLib) where
  open J use {Json}

  -- The message_content of the last text, or a former value.
  unfoldable pub last_content : Json → List String → Json
  last_content old [] = old
  last_content old (raw ∷ rest) = last_content (message_content J raw) rest

  one_message :
      (port p : ℕ) (raw : String) (a : BaseAgent Json)
      → get_topic_data J port (on_topic_data J p raw a)
        ≡ (if same_ℕ p port then message_content J raw else get_topic_data J port a)
  unfolding get_topic_data on_topic_data newest
  one_message port p raw a = ground arith

  one_count :
      (port p : ℕ) (raw : String) (a : BaseAgent Json)
      → get_topic_receive_count J port (on_topic_data J p raw a) ≡ (
          if same_ℕ p port
          then suc (get_topic_receive_count J port a)
          else get_topic_receive_count J port a)
  unfolding get_topic_receive_count on_topic_data counted
  one_count port p raw a = ground arith

  last_if :
      (b : Bool) (old : Json) (raw : String) (rest : List String)
      → last_content (if b then message_content J raw else old) rest
        ≡ last_content old (if b then raw ∷ rest else rest)
  unfolding last_content
  last_if true old raw rest = refl
  last_if false old raw rest = refl

  count_if :
      (b : Bool) (n : ℕ) (raw : String) (rest : List String)
      → (if b then suc n else n) + length rest ≡ n + length (if b then raw ∷ rest else rest)
  count_if true n raw rest = omega arith
  count_if false n raw rest = refl

  -- Behind any messages of any ports: getTopicData gives the message_content of the port's last message, or
  -- what it gave before, and getTopicReceiveCount has grown by the number of the port's messages.
  pub on_all_topic_data-sent_to :
      (port : ℕ) (messages : List (ℕ × String)) (a : BaseAgent Json)
      → (get_topic_data J port (on_all_topic_data J messages a)
          ≡ last_content (get_topic_data J port a) (sent_to port messages))
        × (get_topic_receive_count J port (on_all_topic_data J messages a)
            ≡ get_topic_receive_count J port a + length (sent_to port messages))
  unfolding on_all_topic_data last_content sent_to
  on_all_topic_data-sent_to port [] a = (refl, omega arith)
  on_all_topic_data-sent_to port ((p, raw) ∷ rest) a =
      let (h, k) = on_all_topic_data-sent_to port rest (on_topic_data J p raw a) in
      (
        h
            ∙ ap (λ o. last_content o (sent_to port rest)) (one_message port p raw a)
            ∙ last_if (same_ℕ p port) (get_topic_data J port a) raw (sent_to port rest),
        k
            ∙ ap (λ n. n + length (sent_to port rest)) (one_count port p raw a)
            ∙ count_if (same_ℕ p port) (get_topic_receive_count J port a) raw (sent_to port rest),
      )

  kept_names :
      (messages : List (ℕ × String)) (a : BaseAgent Json)
      → (on_all_topic_data J messages a).topic_to_port ≡ a.topic_to_port
  unfolding on_all_topic_data on_topic_data
  kept_names [] a = refl
  kept_names ((p, raw) ∷ rest) a = kept_names rest (on_topic_data J p raw a)

  subscribed_data :
      (port : ℕ) (topic : String) (a : BaseAgent Json)
      → get_topic_data J port (create_subscriber J port topic false a) ≡ get_topic_data J port a
  unfolding create_subscriber get_topic_data
  subscribed_data port topic a =
      if_both (λ (b : BaseAgent Json). newest J (b.topic_data port) ≡ newest J (a.topic_data port))
        (has port a.subscribers) refl refl

  subscribed_name :
      (port : ℕ) (topic : String) (a : BaseAgent Json)
      → has port a.subscribers ≡ false
      → (topic == "") ≡ false
      → lookup topic (create_subscriber J port topic false a).topic_to_port ≡ some port
  unfolding create_subscriber
  subscribed_name port topic a h k =
      ap
        (λ (b : Bool).
          lookup topic
            (if b then a else record a {
              subscribers = put port topic a.subscribers;
              topic_to_port =
                  if topic == "" then a.topic_to_port else insert topic port a.topic_to_port;
            }).topic_to_port)
        h
      ∙ ap
          (λ (b : Bool).
            lookup topic (if b then a.topic_to_port else insert topic port a.topic_to_port))
          k
      ∙ lookup-insert topic topic port a.topic_to_port
      ∙ ground (arith, eq_iff topic topic)

  -- A topic that is subscribed on a port without a subscriber, under a name that is not empty: behind any
  -- messages getTopicDataByName gives the message_content of the port's last message, or what the port had before.
  pub create_subscriber-by_name :
      (port : ℕ) (topic : String) (messages : List (ℕ × String)) (a : BaseAgent Json)
      → has port a.subscribers ≡ false
      → (topic == "") ≡ false
      → get_topic_data_by_name J topic
          (on_all_topic_data J messages (create_subscriber J port topic false a))
        ≡ last_content (get_topic_data J port a) (sent_to port messages)
  unfolding get_topic_data_by_name newest_of get_topic_data
  create_subscriber-by_name port topic messages a h k =
      let b = create_subscriber J port topic false a in
      let c = on_all_topic_data J messages b in
      ap (λ n. newest_of J (lookup topic n) c) (kept_names messages b)
      ∙ ap (λ o. newest_of J o c) (subscribed_name port topic a h k)
      ∙ (on_all_topic_data-sent_to port messages b).0
      ∙ ap (λ o. last_content o (sent_to port messages)) (subscribed_data port topic a)
