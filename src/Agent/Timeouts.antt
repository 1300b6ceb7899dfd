-- ===== src/Agent/Timeouts.antt =====
-- The end of the wait for a reply.
use xreal_bsp_rgb_tool.Prelude.{
  ℕ, zero, suc, ◌+◌, ◌*◌, ◌≤◌, ◌<◌, ◌≡◌, refl, sym, subst, Bool, true, false, List, [], ◌∷◌, Option,
  none, some, if_both, String, if◌then◌else◌, arith, leb, length,
}
use xreal_bsp_rgb_tool.Platform.{Text, JsonLib}
use xreal_bsp_rgb_tool.Manager.Agents.{CmdReply}
use xreal_bsp_rgb_tool.Agent.Storage.{ResultEntry, get_result}
use xreal_bsp_rgb_tool.Agent.Remote.{gave, threw, Outcome}
use xreal_bsp_rgb_tool.Agent.Base.{
  BaseAgent, goal_of, Delivery, Round, is_cmd_done, reserve, take_in, poll, cmd_result, verdict,
  cmd_sent, send_by, cmd, has_client,
}

module _ (q : Text) (J : JsonLib) (what : String → String) where
  open J use {Json}

  -- The clock of each round is at least 100 above the one before.
  abbrev pub Paced : ℕ → List (Round Json) → Type 0
  Paced t [] = Unit
  Paced t (r ∷ rounds) = (t ≤ r.elapsed) × Paced (r.elapsed + 100) rounds

  Replies : BaseAgent Json × Option (CmdReply Json) → Type 0
  Replies x = (r : CmdReply Json) × (x.1 ≡ some r)

  look_ends :
      (done over : Bool) (a : BaseAgent Json) (now late : CmdReply Json)
      (later : BaseAgent Json × Option (CmdReply Json))
      → (done ≡ false → over ≡ false → Replies later)
      → Replies (if done then (a, some now) else if over then (a, some late) else later)
  unfolding Replies
  look_ends true over a now late later h = (now, refl)
  look_ends false true a now late later h = (late, refl)
  look_ends false false a now late later h = h refl refl

  poll-ends :
      (judge : Option (ResultEntry Json) → CmdReply Json) (late : CmdReply Json) (id limit t k : ℕ)
      (rounds : List (Round Json)) (a : BaseAgent Json)
      → Paced t rounds
      → limit ≤ t + 100 * k
      → k < length rounds
      → Replies (poll q J what judge late id limit rounds a)
  unfolding poll
  poll-ends judge late id limit t k [] a p l h = absurd (omega arith)
  poll-ends judge late id limit t zero (r ∷ rounds) a (p, ps) l h =
      look_ends (is_cmd_done id a.cmd_storage) (leb limit r.elapsed) a
        (judge (get_result id a.cmd_storage)) late _ (λ x y. absurd (ground (arith, y, p, l)))
  poll-ends judge late id limit t (suc k) (r ∷ rounds) a (p, ps) l h =
      look_ends (is_cmd_done id a.cmd_storage) (leb limit r.elapsed) a
        (judge (get_result id a.cmd_storage)) late _
        (λ x y.
          poll-ends judge late id limit (r.elapsed + 100) k rounds
            (take_in q J what a.legacy_remote_action_client r a) ps (omega arith) (omega arith))

  sent-ends :
      (limit k : ℕ) (wait : Bool) (rounds : List (Round Json)) (x : BaseAgent Json × Outcome ℕ)
      → Paced 0 rounds
      → limit ≤ 100 * k
      → k < length rounds
      → Replies (cmd_sent q J what wait limit rounds x)
  unfolding cmd_sent Replies
  sent-ends limit k wait rounds (a, threw e) p l h = (_, refl)
  sent-ends limit k false rounds (a, gave id) p l h = (_, refl)
  sent-ends limit k true rounds (a, gave id) p l h =
      poll-ends (verdict q J what) (cmd_result q J what false "Timeout" J.null) id limit 0 k rounds
        (record a { cmd_storage = reserve id a.cmd_storage }) p (omega arith) h

  -- cmd of an agent that has one of the two clients, connected or not: where each of its rounds takes 100
  -- milliseconds at least and there are more of them than a hundredth of the limit, rounded up, it gives
  -- a reply.
  pub cmd-ends :
      (pid limit k : ℕ) (name : String) (params : Json) (wait : Bool) (d : Delivery Json)
      (rounds : List (Round Json)) (a : BaseAgent Json)
      → has_client a ≡ true
      → Paced 0 rounds
      → limit ≤ 100 * k
      → k < length rounds
      → (r : CmdReply Json) × ((cmd q J what pid name params wait limit d rounds a).1 ≡ some r)
  unfolding cmd Replies
  cmd-ends pid limit k name params wait d rounds a c p l h =
      let x =
        send_by q J what pid a.legacy_remote_action_client (goal_of q J what name params) d a in
      if_both Replies a.is_connected
        (subst
          (λ (b : Bool). Replies (if b then cmd_sent q J what wait limit rounds x else (a, none)))
          (sym c) (sent-ends limit k wait rounds x p l h))
        (_, refl)
