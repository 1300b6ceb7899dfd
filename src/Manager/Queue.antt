-- ===== src/Manager/Queue.antt =====
-- The order in which the commands leave the two queues, and the end of processLoop.
use xreal_bsp_rgb_tool.Prelude.{
  ℕ, zero, suc, ◌+◌, ◌≤◌, ◌≡◌, refl, sym, ap, ap₂, ◌∙◌, Bool, true, false, List, [], ◌∷◌, ◌++◌,
  none, some, length, arith,
}
use mathlib.Core.List.{append_assoc, append-nil}
use xreal_bsp_rgb_tool.Platform.{Text, JsonLib}
use xreal_bsp_rgb_tool.Manager.Fields.{Fields}
use xreal_bsp_rgb_tool.Manager.Process.{Process, send_command, take_from, take_command}

-- The urgent ones of some commands that are sent, or the others.
unfoldable pub chosen {ℓ} : {F : Type ℓ} → Bool → List (F × Bool) → List (F)
chosen wanted [] = []
chosen true ((c, true) ∷ sends) = c ∷ chosen true sends
chosen true ((c, false) ∷ sends) = chosen true sends
chosen false ((c, true) ∷ sends) = chosen false sends
chosen false ((c, false) ∷ sends) = c ∷ chosen false sends

length-chosen {ℓ} :
    {F : Type ℓ} (sends : List (F × Bool))
    → length (chosen true sends) + length (chosen false sends) ≡ length sends
unfolding chosen
length-chosen [] = refl
length-chosen ((c, true) ∷ sends) = omega (arith, length-chosen sends)
length-chosen ((c, false) ∷ sends) = omega (arith, length-chosen sends)

module _ (q : Text) (J : JsonLib) {A : Type 0} where
  -- The commands that the loop takes one after the other, with fuel.
  unfoldable pub take_all : ℕ → Process J A → List (Fields J)
  take_all zero p = []
  take_all (suc fuel) p = elim (take_command q J p) [
    | none ↦ []
    | some (c, rest) ↦ c ∷ take_all fuel rest
  ]

  -- Commands that are sent, each with whether it is urgent.
  unfoldable pub send_all : List (Fields J × Bool) → Process J A → Process J A
  send_all [] p = p
  send_all ((c, urgent) ∷ sends) p = send_all sends (send_command q J c urgent p)

  taken :
      (urgent normal : List (Fields J)) (p : Process J A)
      → p.urgent_command_queue ≡ urgent
      → p.command_queue ≡ normal
      → take_command q J p ≡ take_from q J urgent normal p
  unfolding take_command
  taken urgent normal p h k = ap₂ (λ xs ys. take_from q J xs ys p) h k

  take_all-queues :
      (fuel : ℕ) (urgent normal : List (Fields J)) (p : Process J A)
      → p.urgent_command_queue ≡ urgent
      → p.command_queue ≡ normal
      → length urgent + length normal ≤ fuel
      → take_all fuel p ≡ urgent ++ normal
  unfolding take_all take_from
  take_all-queues zero [] [] p h k l = refl
  take_all-queues zero (c ∷ cs) normal p h k l = absurd (omega arith)
  take_all-queues zero [] (c ∷ cs) p h k l = absurd (omega arith)
  take_all-queues (suc fuel) [] [] p h k l = rw (taken [] [] p h k, take_all) refl
  take_all-queues (suc fuel) (c ∷ cs) normal p h k l =
      rw (taken (c ∷ cs) normal p h k, take_all)
        (ap (◌∷◌ c) (
          take_all-queues fuel cs normal (record p { urgent_command_queue = cs }) refl k
            (omega (arith, l))))
  take_all-queues (suc fuel) [] (c ∷ cs) p h k l =
      rw (taken [] (c ∷ cs) p h k, take_all)
        (ap (◌∷◌ c)
          (take_all-queues fuel [] cs (record p { command_queue = cs }) h refl (omega (arith, l))))

  send_all-queues :
      (sends : List (Fields J × Bool)) (p : Process J A)
      → ((send_all sends p).urgent_command_queue ≡ p.urgent_command_queue ++ chosen true sends)
        × ((send_all sends p).command_queue ≡ p.command_queue ++ chosen false sends)
  unfolding send_all send_command chosen
  send_all-queues [] p = (sym (append-nil _), sym (append-nil _))
  send_all-queues ((c, true) ∷ sends) p =
      let i = send_all-queues sends (send_command q J c true p) in
      (i.0 ∙ append_assoc p.urgent_command_queue (c ∷ []) (chosen true sends), i.1)
  send_all-queues ((c, false) ∷ sends) p =
      let i = send_all-queues sends (send_command q J c false p) in
      (i.0, i.1 ∙ append_assoc p.command_queue (c ∷ []) (chosen false sends))

  -- The commands that are sent to empty queues, taken with a fuel of at least their number: first the
  -- urgent ones and then the others, each in the order in which they were sent.
  pub take_all-send_all :
      (sends : List (Fields J × Bool)) (fuel : ℕ) (p : Process J A)
      → p.urgent_command_queue ≡ []
      → p.command_queue ≡ []
      → length sends ≤ fuel
      → take_all fuel (send_all sends p) ≡ chosen true sends ++ chosen false sends
  take_all-send_all sends fuel p h k l =
      let i = send_all-queues sends p in
      take_all-queues fuel (chosen true sends) (chosen false sends) (send_all sends p)
        (i.0 ∙ ap (λ xs. xs ++ chosen true sends) h) (i.1 ∙ ap (λ xs. xs ++ chosen false sends) k)
        (omega (arith, l, length-chosen sends))
