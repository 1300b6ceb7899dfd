-- ===== src/Agent/Listening.antt =====
-- What the listener of a remote client keeps.
use text.Mathlib.Text.{◌==◌}
use xreal_bsp_rgb_tool.Prelude.{
  ℕ, ◌≡◌, sym, ap, ◌∙◌, Bool, true, false, List, [], ◌∷◌, Option, none, some, String, if◌then◌else◌,
  arith, Bool-cases, inl, inr,
}
use xreal_bsp_rgb_tool.Prelude.{◌==◌ as same_ℕ}
use xreal_bsp_rgb_tool.Prelude.Tables.{put, remove, blank}
use xreal_bsp_rgb_tool.Platform.{Text, JsonLib}
use xreal_bsp_rgb_tool.Manager.Fields.{◌>>=◌, value_text, value_json}
use xreal_bsp_rgb_tool.Agent.Remote.{
  PendingGoal, no_callbacks, Linked, find_goal, give_result, give_feedback, message_of,
  handle_message, handle_feedback, handle_result, listen, listen_all, settled,
}

module _ {Json : Type 0} where
  -- No goal has callbacks.
  unfoldable pub Quiet : (ℕ → Option (PendingGoal Json)) → Type 0
  Quiet t = (l : ℕ) (g : PendingGoal Json) → t l ≡ some g → g.callbacks ≡ no_callbacks

  pub put-Quiet :
      (k : ℕ) (v : PendingGoal Json) (t : ℕ → Option (PendingGoal Json))
      → v.callbacks ≡ no_callbacks
      → Quiet t
      → Quiet (put k v t)
  unfolding Quiet
  put-Quiet k v t h w l g e = elim (Bool-cases (same_ℕ k l)) [
    | inl y ↦
        let z : v ≡ g = ground (arith, y, e) in
        ap (λ (p : PendingGoal Json). p.callbacks) (sym z) ∙ h
    | inr n ↦ w l g (ground (arith, n, e))
  ]

  pub remove-Quiet : (k : ℕ) (t : ℕ → Option (PendingGoal Json)) → Quiet t → Quiet (remove k t)
  unfolding Quiet
  remove-Quiet k t w l g e = w l g (ground (arith, e))

module _ (Json : Type 0) where
  pub blank-Quiet : Quiet {Json = Json} blank
  unfolding Quiet
  blank-Quiet l g e = absurd (ground (arith, e))

module _ (q : Text) (J : JsonLib) (what : String → String) where
  open J use {Json, as_object}

  module _ (P : Linked Json → Type 0)
      (feedback : (f : Json) (r : String) (x : Linked Json)
        → P x
        → P (give_feedback f (find_goal r x.0) x))
      (result : (j : Json) (b : Bool) (r : String) (x : Linked Json)
        → P x
        → P (give_result j b (find_goal r x.0) x)) where
    then_P :
        {X : Type 0} (o : Option X) (f : X → Option (Linked Json)) (x : Linked Json)
        → P x
        → ((a : X) → P (settled x (f a)))
        → P (settled x (o >>= f))
    unfolding settled
    then_P none f x p h = p
    then_P (some a) f x p h = h a

    either_P :
        (b : Bool) (y z : Option (Linked Json)) (x : Linked Json)
        → P (settled x y)
        → P (settled x z)
        → P (settled x (if b then y else z))
    either_P true y z x h k = h
    either_P false y z x h k = k

    listen_P : (m : List String) (x : Linked Json) → P x → P (listen q J what m x)
    unfolding listen handle_message handle_feedback handle_result settled
    listen_P m x p = then_P (message_of q J what m) _ x p (λ j. then_P (as_object j) _ x p (λ f.
        then_P (value_text J "type" "" f) _ x p (λ kind.
          either_P (kind == "feedback") _ _ x
            (then_P (value_text J "goal_id" "" f) _ x p
              (λ r. feedback (value_json J "feedback" f) r x p))
            (either_P (kind == "result") _ _ x
              (then_P (value_text J "goal_id" "" f) _ x p (λ r.
                then_P (value_text J "status" "" f) _ x p
                  (λ s. result (value_json J "result" f) (s == "SUCCEEDED") r x p)))
              p))))

    pub listen_all_P :
        (ms : List (List String)) (x : Linked Json) → P x → P (listen_all q J what ms x)
    unfolding listen_all
    listen_all_P [] x p = p
    listen_all_P (m ∷ ms) x p = listen_all_P ms (listen q J what m x) (listen_P m x p)
