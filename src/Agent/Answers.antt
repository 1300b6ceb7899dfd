-- ===== src/Agent/Answers.antt =====
-- What the messages of a connection leave in an agent's storage under one goal.
use text.Mathlib.Text.{◌==◌}
use xreal_bsp_rgb_tool.Prelude.{
  ℕ, ◌≡◌, refl, sym, ap, subst, ◌∙◌, ◌≢◌, Bool, true, false, List, [], ◌∷◌, Option, none, some,
  String, if◌then◌else◌, arith, eq_iff, Bool-cases, inl, inr,
}
use xreal_bsp_rgb_tool.Platform.{Text, JsonLib}
use xreal_bsp_rgb_tool.Manager.Fields.{◌>>=◌, Fields, value_text, value_json}
use xreal_bsp_rgb_tool.Agent.Storage.{ResultEntry, get_result}
use xreal_bsp_rgb_tool.Agent.Remote.{
  Linked, find_goal, give_result, give_feedback, message_of, handle_message, handle_feedback,
  handle_result, listen, listen_all, settled,
}
use xreal_bsp_rgb_tool.Agent.Goals.{
  located, Open, give_feedback-held, give_feedback-client, give_result-other, give_result-own,
  put_goal,
}

module _ (q : Text) (J : JsonLib) (what : String → String) where
  open J use {Json, as_object, parse}

  unfoldable pub result_for : String → Fields J → Option (ResultEntry Json)
  unfolding value_text value_json
  result_for remote message = do
    name ← value_text J "goal_id" "" message
    status ← value_text J "status" "" message
    (if name == remote
        then some
            (record { result = value_json J "result" message; success = status == "SUCCEEDED" })
        else none)

  unfoldable pub carried_in : String → Json → Option (ResultEntry Json)
  unfolding value_text result_for
  carried_in remote j = do
    message ← as_object j
    kind ← value_text J "type" "" message
    (if kind == "feedback"
        then none
        else if kind == "result"
        then result_for remote message
        else none)

  -- The result that a message carries for the goal of a remote name, if it is one.
  unfoldable pub carried : String → List String → Option (ResultEntry Json)
  unfolding carried_in message_of
  carried remote parts = do j ← message_of q J what parts; carried_in remote j

  unfoldable pub newer :
      Option (ResultEntry Json) → Option (ResultEntry Json) → Option (ResultEntry Json)
  newer none old = old
  newer (some e) old = some e

  -- The newest result of the goal behind the messages.
  unfoldable pub newest_result :
      String → List (List String) → Option (ResultEntry Json) → Option (ResultEntry Json)
  unfolding carried newer
  newest_result remote [] old = old
  newest_result remote (m ∷ ms) old = newest_result remote ms (newer (carried remote m) old)

  -- What a step leaves of an open goal, whose new result is `e`.
  Leaves : ℕ → String → Option (ResultEntry Json) → Linked Json → Linked Json → Type 0
  Leaves id remote e x y = Open id remote y.0 × (get_result id y.1 ≡ newer e (get_result id x.1))

  module _ (id : ℕ) (remote : String) (x : Linked Json) (w : Open id remote x.0) where
    -- A step that may throw, beside what it brings.
    Agrees : Option (ResultEntry Json) → Option (Linked Json) → Type 0
    unfolding settled
    Agrees e y = Leaves id remote e x (settled x y)

    unchanged : Leaves id remote none x x
    unfolding Leaves newer
    unchanged = (w, refl)

    bound :
        {X : Type 0} (o : Option X) (g : X → Option (ResultEntry Json))
        (f : X → Option (Linked Json))
        → ((a : X) → Agrees (g a) (f a))
        → Agrees (o >>= g) (o >>= f)
    unfolding Agrees settled
    bound none g f h = unchanged
    bound (some a) g f h = h a

    branched :
        (b : Bool) (d e : Option (ResultEntry Json)) (y z : Option (Linked Json))
        → Agrees d y
        → Agrees e z
        → Agrees (if b then d else e) (if b then y else z)
    branched true d e y z h k = h
    branched false d e y z h k = k

    feedback-Agrees :
        (name : String) (j : Json) → Agrees none (some (give_feedback j (find_goal name x.0) x))
    unfolding Agrees settled Leaves newer
    feedback-Agrees name j = (
      subst (Open id remote) (sym (give_feedback-client j (find_goal name x.0) x)) w,
      give_feedback-held id j (find_goal name x.0) x,
    )

    abbrev entry : Json → Bool → ResultEntry Json
    entry j b = record { result = j; success = b }

    own-Agrees :
        (name : String) (j : Json) (b : Bool)
        → name ≡ remote
        → Agrees (some (entry j b)) (some (give_result j b (find_goal name x.0) x))
    unfolding Agrees settled Leaves newer
    own-Agrees name j b h =
        subst (λ n. Agrees (some (entry j b)) (some (give_result j b (find_goal n x.0) x))) (sym h)
          (
            put_goal id remote j b remote x w (find_goal remote x.0) (located remote x.0),
            give_result-own id j b remote x w,
          )

    other-Agrees :
        (name : String) (j : Json) (b : Bool)
        → name ≢ remote
        → Agrees none (some (give_result j b (find_goal name x.0) x))
    unfolding Agrees settled Leaves newer
    other-Agrees name j b h = (
      put_goal id remote j b name x w (find_goal name x.0) (located name x.0),
      give_result-other id j b name x (λ k. h (w.only name k)) (find_goal name x.0)
          (located name x.0),
    )

    result-Agrees :
        (name : String) (j : Json) (b : Bool)
        → Agrees
            (if name == remote then some (entry j b) else none)
            (some (give_result j b (find_goal name x.0) x))
    result-Agrees name j b = elim (Bool-cases (name == remote)) [
      | inl h ↦
          subst
            (λ t.
              Agrees (if t then some (entry j b) else none)
                (some (give_result j b (find_goal name x.0) x)))
            (sym h) (own-Agrees name j b (ground (arith, h, eq_iff name remote)))
      | inr h ↦
          subst
            (λ t.
              Agrees (if t then some (entry j b) else none)
                (some (give_result j b (find_goal name x.0) x)))
            (sym h) (other-Agrees name j b (ground (arith, h, eq_iff name remote)))
    ]

    handle_result-Agrees :
        (message : Fields J) → Agrees (result_for remote message) (handle_result q J what message x)
    unfolding result_for handle_result
    handle_result-Agrees message = bound (value_text J "goal_id" "" message) _ _ (λ name.
        bound (value_text J "status" "" message) _ _
          (λ status. result-Agrees name (value_json J "result" message) (status == "SUCCEEDED")))

    bound_none :
        {X : Type 0} (o : Option X) (f : X → Option (Linked Json))
        → ((a : X) → Agrees none (f a))
        → Agrees none (o >>= f)
    unfolding Agrees settled
    bound_none none f h = unchanged
    bound_none (some a) f h = h a

    handle_feedback-Agrees : (message : Fields J) → Agrees none (handle_feedback q J what message x)
    unfolding handle_feedback
    handle_feedback-Agrees message =
        bound_none (value_text J "goal_id" "" message) _
          (λ name. feedback-Agrees name (value_json J "feedback" message))

    listen-Leaves : (m : List String) → Leaves id remote (carried remote m) x (listen q J what m x)
    unfolding carried carried_in listen handle_message Agrees Leaves
    listen-Leaves m = bound (message_of q J what m) _ _ (λ j. bound (as_object j) _ _ (λ message.
        bound (value_text J "type" "" message) _ _ (λ kind.
          branched (kind == "feedback") _ _ _ _ (handle_feedback-Agrees message)
            (branched (kind == "result") _ _ _ _ (handle_result-Agrees message) unchanged))))

  pub listen_all-Leaves :
      (id : ℕ) (remote : String) (ms : List (List String)) (x : Linked Json)
      → Open id remote x.0
      → Open id remote (listen_all q J what ms x).0
        × (get_result id (listen_all q J what ms x).1 ≡ newest_result remote ms (get_result id x.1))
  unfolding listen_all newest_result Leaves
  listen_all-Leaves id remote [] x w = (w, refl)
  listen_all-Leaves id remote (m ∷ ms) x w =
      let (v, h) = listen-Leaves id remote x w m in
      let (u, k) = listen_all-Leaves id remote ms (listen q J what m x) v in
      (u, k ∙ ap (newest_result remote ms) h)
