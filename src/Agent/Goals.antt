-- ===== src/Agent/Goals.antt =====
-- A goal of the remote client that waits for its result, and what one message does to it.
use xreal_bsp_rgb_tool.Prelude.{
  ℕ, ◌≡◌, refl, sym, ap, subst, ◌∙◌, ◌≢◌, Bool, true, Option, none, some, String, arith, Bool-cases,
  Option-cases, inl, inr,
}
use xreal_bsp_rgb_tool.Prelude.{◌==◌ as same_ℕ}
use xreal_bsp_rgb_tool.Prelude.Maps.{lookup}
use xreal_bsp_rgb_tool.Manager.Fields.{◌>>=◌}
use xreal_bsp_rgb_tool.Agent.Storage.{
  CmdStorage, get_result, joined, called, add_feedback, set_result, feedback_call, result_call,
}
use xreal_bsp_rgb_tool.Agent.Remote.{
  RemoteClient, PendingGoal, Callbacks, storing, no_callbacks, Linked, find_goal, call_back,
  give_result, give_feedback,
}

module _ {Json : Type 0} where
  -- The goal that has a local id, and callbacks that fill the storage, under one remote name only.
  pub record Open (id : ℕ) (remote : String) (c : RemoteClient Json) : Type 0 where
    pub goal : PendingGoal Json
    pub pending : c.pending_by_local_id id ≡ some goal
    pub fills : goal.callbacks ≡ storing
    pub named : lookup remote c.local_id_by_remote_id ≡ some id
    pub only : (r : String) → lookup r c.local_id_by_remote_id ≡ some id → r ≡ remote

  step : String → RemoteClient Json → Option ℕ → Option (ℕ × PendingGoal Json)
  step r c o = o >>= λ id. c.pending_by_local_id id >>= λ p. some (id, p)

  found :
      (r : String) (c : RemoteClient Json) (l : ℕ) (g : PendingGoal Json)
      → lookup r c.local_id_by_remote_id ≡ some l
      → c.pending_by_local_id l ≡ some g
      → find_goal r c ≡ some (l, g)
  unfolding find_goal step
  found r c l g h k =
      ap (step r c) h ∙ ap (λ (o : Option (PendingGoal Json)). o >>= λ p. some (l, p)) k

  -- What find_goal gives is an entry under the name.
  unfoldable pub Located : String → RemoteClient Json → Option (ℕ × PendingGoal Json) → Type 0
  Located r c none = Unit
  Located r c (some (l, g)) =
      (lookup r c.local_id_by_remote_id ≡ some l) × (c.pending_by_local_id l ≡ some g)

  pub located : (r : String) (c : RemoteClient Json) → Located r c (find_goal r c)
  unfolding find_goal Located step
  located r c = elim (Option-cases (lookup r c.local_id_by_remote_id)) [
    | inl h ↦ subst (Located r c) (sym (ap (step r c) h)) tt
    | inr (l, h) ↦ elim (Option-cases (c.pending_by_local_id l)) [
      | inl k ↦
          subst (Located r c)
            (sym
              (ap (step r c) h ∙ ap (λ (o : Option (PendingGoal Json)). o >>= λ p. some (l, p)) k))
            tt
      | inr (g, k) ↦ subst (Located r c) (sym (found r c l g h k)) (h, k)
    ]
  ]

  call_back-feedback :
      (cb : Callbacks) (id l : ℕ) (f : Json) (s : CmdStorage Json)
      → get_result id (call_back cb (feedback_call l f) s) ≡ get_result id s
  unfolding call_back called add_feedback get_result
  call_back-feedback storing id l f s = refl
  call_back-feedback no_callbacks id l f s = refl

  call_back-other :
      (cb : Callbacks) (id l : ℕ) (r : Json) (b : Bool) (s : CmdStorage Json)
      → l ≢ id
      → get_result id (call_back cb (result_call l r b) s) ≡ get_result id s
  unfolding call_back called set_result get_result
  call_back-other storing id l r b s h = ground (arith, h)
  call_back-other no_callbacks id l r b s h = refl

  pub give_feedback-held :
      (id : ℕ) (f : Json) (o : Option (ℕ × PendingGoal Json)) (x : Linked Json)
      → get_result id (give_feedback f o x).1 ≡ get_result id x.1
  unfolding give_feedback
  give_feedback-held id f none x = refl
  give_feedback-held id f (some (l, g)) (c, s) = call_back-feedback g.callbacks id l f s

  pub give_feedback-client :
      (f : Json) (o : Option (ℕ × PendingGoal Json)) (x : Linked Json)
      → (give_feedback f o x).0 ≡ x.0
  unfolding give_feedback
  give_feedback-client f none x = refl
  give_feedback-client f (some (l, g)) (c, s) = refl

  pub give_result-other :
      (id : ℕ) (j : Json) (b : Bool) (r : String) (x : Linked Json)
      → lookup r x.0.local_id_by_remote_id ≢ some id
      → (o : Option (ℕ × PendingGoal Json)) → Located r x.0 o
      → get_result id (give_result j b o x).1 ≡ get_result id x.1
  unfolding give_result Located
  give_result-other id j b r x h none k = refl
  give_result-other id j b r (c, s) h (some (l, g)) (k, m) =
      call_back-other g.callbacks id l j b s (λ e. h (k ∙ ap some e))

  call_back-own :
      (cb : Callbacks) (id : ℕ) (r : Json) (b : Bool) (s : CmdStorage Json)
      → cb ≡ storing
      → get_result id (call_back cb (result_call id r b) s)
        ≡ some (record { result = r; success = b })
  unfolding call_back called set_result get_result joined
  call_back-own storing id r b s h = ground arith
  call_back-own no_callbacks id r b s h = absurd (ground (arith, h))

  pub give_result-own :
      (id : ℕ) (j : Json) (b : Bool) (remote : String) (x : Linked Json)
      → Open id remote x.0
      → get_result id (give_result j b (find_goal remote x.0) x).1
        ≡ some (record { result = j; success = b })
  unfolding give_result
  give_result-own id j b remote (c, s) o =
      ap (λ y. get_result id (give_result j b y (c, s)).1)
        (found remote c id o.goal o.named o.pending)
      ∙ call_back-own o.goal.callbacks id j b s o.fills

  pub put_goal :
      (id : ℕ) (remote : String) (j : Json) (b : Bool) (r : String) (x : Linked Json)
      → Open id remote x.0
      → (o : Option (ℕ × PendingGoal Json)) → Located r x.0 o
      → Open id remote (give_result j b o x).0
  unfolding give_result Located
  put_goal id remote j b r x w none k = w
  put_goal id remote j b r (c, s) w (some (l, g)) (k, m) = elim (Bool-cases (same_ℕ l id)) [
    | inl e ↦
        let e' : l ≡ id = ground (arith, e) in
        let same : g ≡ w.goal = cc (m, w.pending, e') in
        record {
          goal = record g { result = j; success = b; result_received = true };
          pending = ground (arith, e);
          fills = ap (λ (y : PendingGoal Json). y.callbacks) same ∙ w.fills;
          named = w.named;
          only = w.only;
        }
    | inr e ↦ record {
      goal = w.goal;
      pending = ground (arith, e, w.pending);
      fills = w.fills;
      named = w.named;
      only = w.only;
    }
  ]
