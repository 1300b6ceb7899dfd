-- ===== src/Manager/Answers.antt =====
-- What processCommand answers, and to whom.
use text.Mathlib.Text.{◌==◌}
use xreal_bsp_rgb_tool.Prelude.{
  ◌≡◌, refl, ap, ◌∙◌, false, Option, none, some, String, if◌then◌else◌, if_both, Bool-cases, inl,
  inr, eq_refl,
}
use xreal_bsp_rgb_tool.Prelude.Maps.{lookup, insert, erase, lookup-insert, lookup-erase}
use xreal_bsp_rgb_tool.Platform.{Text, JsonLib}
use xreal_bsp_rgb_tool.Watchdog.Primary.{OnePrimary}
use xreal_bsp_rgb_tool.Manager.Fields.{Fields, value_text}
use xreal_bsp_rgb_tool.Manager.Agents.{AgentClass}
use xreal_bsp_rgb_tool.Manager.Process.{Process, end_sync}
use xreal_bsp_rgb_tool.Manager.Actions.{Outside}
use xreal_bsp_rgb_tool.Manager.Dispatch.{
  run_action, process_command, publish_result, set_text, repeated_agent, repeated_name, result_of,
}
use xreal_bsp_rgb_tool.Manager.Kept.{post}
use xreal_bsp_rgb_tool.Manager.Kept.Run.{run_action-Kept}

module _ (q : Text) (J : JsonLib) {A : Type 0} (C : AgentClass J.Json A)
    (o : Outside (Fields J)) where
  -- The fields of a result that has no id yet.
  unfoldable pub named_result :
      String → Option String → Option String → Fields J → Option (Fields J) → Fields J
  named_result action agent command c r = set_text q J C o "cmd_name" command (
      set_text q J C o "agent_name" agent
        (insert "action" (J.of_text action) (result_of q J C o c r)))

  lookup-set_text :
      (key other : String) (s : Option String) (fields : Fields J)
      → (key == other) ≡ false
      → lookup other (set_text q J C o key s fields) ≡ lookup other fields
  unfolding set_text
  lookup-set_text key other none fields h = refl
  lookup-set_text key other (some s) fields h =
      lookup-insert key other (J.of_text s) fields ∙ rw h refl

  action-named_result :
      (action : String) (agent command : Option String) (c : Fields J) (r : Option (Fields J))
      → lookup "action" (named_result action agent command c r) ≡ some (J.of_text action)
  unfolding named_result
  action-named_result action agent command c r =
      lookup-set_text "cmd_name" "action" command _ refl
      ∙ lookup-set_text "agent_name" "action" agent _ refl
      ∙ lookup-insert "action" "action" (J.of_text action) (result_of q J C o c r)

  publish_result-waiting :
      (id : String) (result : Fields J) (p : Process J A)
      → (id == "") ≡ false
      → lookup id (publish_result q J C o id result p).sync_results
        ≡ some (insert "request_id" (J.of_text id) result)
  unfolding publish_result
  publish_result-waiting id result p h =
      rw h (lookup-insert id id _ p.sync_results ∙ rw (eq_refl id) refl)

  publish_result-others :
      (id other : String) (result : Fields J) (p : Process J A)
      → (id == "") ≡ false
      → lookup other (publish_result q J C o id result p).sync_results ≡ (
          if id == other
          then some (insert "request_id" (J.of_text id) result)
          else lookup other p.sync_results)
  unfolding publish_result
  publish_result-others id other result p h = rw h (lookup-insert id other _ p.sync_results)

  taken :
      (id : String) (result : Fields J) (p : Process J A)
      → lookup id p.sync_results ≡ some result
      → end_sync q J id p ≡ (result, record p { sync_results = erase id p.sync_results })
  unfolding end_sync
  taken id result p h = rw (h, end_sync) refl

  others :
      (id other : String) (result : Fields J) (s p : Process J A)
      → (id == "") ≡ false
      → s.sync_results ≡ p.sync_results
      → (if id == other
          then none
          else lookup other (publish_result q J C o id result s).sync_results)
        ≡ (if id == other then none else lookup other p.sync_results)
  others id other result s p e k = elim (Bool-cases (id == other)) [
    | inl h ↦ rw h refl
    | inr h ↦ rw h (publish_result-others id other result s e ∙ rw h (ap (lookup other) k))
  ]

  pub processed :
      (c : Fields J) (p : Process J A) (action id : String) (agent command : Option String)
      → value_text J "action" "" c ≡ some action
      → value_text J "request_id" "" c ≡ some id
      → repeated_agent q J C o c ≡ some agent
      → repeated_name q J C o c ≡ some command
      → process_command q J C o c p
        ≡ some (
            publish_result q J C o id
              (named_result action agent command c (run_action q J C o action c p).1)
              (run_action q J C o action c p).0)
  unfolding process_command named_result
  processed c p action id agent command h k l m = rw (h, k, l, m, process_command) refl

  -- processCommand of a command with a readable action, id, agent and agent's command, whose id is not
  -- empty, returns, and who waits for that id then takes a result with the id and the action of the
  -- command; taking it removes it, and the results that wait under other ids stay.
  pub end_sync-process_command :
      (c : Fields J) (p : Process J A) (action id other : String) (agent command : Option String)
      → value_text J "action" "" c ≡ some action
      → value_text J "request_id" "" c ≡ some id
      → repeated_agent q J C o c ≡ some agent
      → repeated_name q J C o c ≡ some command
      → (id == "") ≡ false
      → (r : Process J A) × (process_command q J C o c p ≡ some r)
        × (lookup "request_id" (end_sync q J id r).0 ≡ some (J.of_text id))
        × (lookup "action" (end_sync q J id r).0 ≡ some (J.of_text action))
        × (lookup other (end_sync q J id r).1.sync_results
            ≡ (if id == other then none else lookup other p.sync_results))
  unfolding post
  end_sync-process_command c p action id other agent command h k l m e =
      let done = run_action q J C o action c p in
      let result = named_result action agent command c done.1 in
      let r = publish_result q J C o id result done.0 in
      let w = publish_result-waiting id result done.0 e in
      (
        r,
        processed c p action id agent command h k l m,
        ap (λ x. lookup "request_id" x.0) (taken id _ r w)
            ∙ lookup-insert "request_id" "request_id" (J.of_text id) result,
        ap (λ x. lookup "action" x.0) (taken id _ r w)
            ∙ lookup-insert "request_id" "action" (J.of_text id) result
            ∙ action-named_result action agent command c done.1,
        ap (λ x. lookup other x.1.sync_results) (taken id _ r w)
            ∙ lookup-erase id other r.sync_results
            ∙ others id other result done.0 p e
                (ap (λ x. x.results) (run_action-Kept q J C o action c p).same_post),
      )

  pub publish_result-OnePrimary :
      (id : String) (result : Fields J) (p : Process J A)
      → OnePrimary p.watchdog
      → OnePrimary (publish_result q J C o id result p).watchdog
  unfolding publish_result
  publish_result-OnePrimary id result p v =
      if_both (λ (r : Process J A). OnePrimary r.watchdog) (id == "") v v
