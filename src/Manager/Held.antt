-- ===== src/Manager/Held.antt =====
-- Which agents the manager holds, after initialisations, releases and stops.
use text.Mathlib.Text.{◌==◌}
use xreal_bsp_rgb_tool.Prelude.{
  ◌≡◌, refl, Bool, true, false, not, ◌&&◌, ◌||◌, List, [], ◌∷◌, Option, none, some, String,
  if◌then◌else◌, Bool-cases, Option-cases, inl, inr, arith, eq_iff, eq_refl,
}
use xreal_bsp_rgb_tool.Prelude.Maps.{lookup, contains, erase, insert}
use xreal_bsp_rgb_tool.Platform.{JsonLib}
use xreal_bsp_rgb_tool.Manager.Agents.{
  AgentClass, AgentManager, agent_classes, names_of, is_member, initialize_agent, release_agent,
  keep_agent, release_each, release_all, note,
}

contains-lookup {ℓ} :
    {V : Type ℓ} (key : String) (m : List (String × V))
    → contains key m ≡ elim (lookup key m) [ none ↦ false | some v ↦ true ]
contains-lookup key [] = refl
contains-lookup key ((k, v) ∷ m) = elim (Bool-cases (k == key)) [
  | inl e ↦ rw e refl
  | inr e ↦ rw e (contains-lookup key m)
]

pub contains-insert {ℓ} :
    {V : Type ℓ} (key other : String) (new : V) (m : List (String × V))
    → contains other (insert key new m) ≡ (key == other || contains other m)
contains-insert key other new [] = ground arith
contains-insert key other new ((k, v) ∷ m) =
    ground (contains-insert key other new m, eq_iff k other, eq_iff k key, eq_iff key other, arith)

pub contains-erase {ℓ} :
    {V : Type ℓ} (key other : String) (m : List (String × V))
    → contains other (erase key m) ≡ (if key == other then false else contains other m)
contains-erase key other [] = ground arith
contains-erase key other ((k, v) ∷ m) =
    ground (contains-erase key other m, eq_iff k other, eq_iff k key, eq_iff key other, arith)

-- A name that is equal to one that the map has is one that it has.
contains_same {ℓ} :
    {V : Type ℓ} (name other : String) (m : List (String × V))
    → contains name m ≡ true
    → contains other m ≡ (contains other m || (name == other && true))
contains_same name other m h = ground (eq_iff name other, h, arith)

not_contained {ℓ} :
    {V : Type ℓ} (key : String) (m : List (String × V))
    → lookup key m ≡ none
    → contains key m ≡ false
not_contained key m e = rw (contains-lookup key m) (rw e refl)

contained {ℓ} :
    {V : Type ℓ} (key : String) (v : V) (m : List (String × V))
    → lookup key m ≡ some v
    → contains key m ≡ true
contained key v m e = rw (contains-lookup key m) (rw e refl)

contains_other {ℓ} :
    {V : Type ℓ} (name other : String) (m : List (String × V))
    → contains name m ≡ false
    → contains other m ≡ (contains other m && not (name == other && true))
contains_other name other m h = ground (eq_iff name other, h, arith)

member-names {ℓ} :
    {V : Type ℓ} (key : String) (m : List (String × V))
    → is_member key (names_of m) ≡ contains key m
unfolding is_member names_of
member-names key [] = refl
member-names key ((k, v) ∷ m) = ground (member-names key m, arith)

module _ (J : JsonLib) {A : Type 0} (C : AgentClass J.Json A) (what : String → String) where
  keep_agent-held :
      (name other : String) (r : Option (A × Bool × String)) (m : AgentManager J.Json A)
      → contains name m.connected_agents ≡ false
      → (contains name (keep_agent J C what name r m).0.connected_agents
          ≡ (keep_agent J C what name r m).1)
        × (contains other (keep_agent J C what name r m).0.connected_agents ≡ (
            contains other m.connected_agents
            || (name == other && (keep_agent J C what name r m).1)))
  unfolding keep_agent
  keep_agent-held name other none m h = (h, ground arith)
  keep_agent-held name other (some (agent, true, message)) m h = (
    rw (contains-insert name name agent m.connected_agents) (ground (arith, eq_refl name)),
    rw (contains-insert name other agent m.connected_agents) (ground arith),
  )
  keep_agent-held name other (some (agent, false, message)) m h = (h, ground arith)

  -- initializeAgent, on every branch: it succeeds exactly if the agent is connected afterwards, and of
  -- the other agents none is connected or disconnected.
  pub initialize_agent-held :
      (name other : String) (m : AgentManager J.Json A)
      → (contains name (initialize_agent J C what name m).0.connected_agents
          ≡ (initialize_agent J C what name m).1)
        × (contains other (initialize_agent J C what name m).0.connected_agents ≡ (
            contains other m.connected_agents
            || (name == other && (initialize_agent J C what name m).1)))
  unfolding initialize_agent
  initialize_agent-held name other m = elim (Bool-cases (contains name m.connected_agents)) [
    | inl h ↦ rw h (h, contains_same name other m.connected_agents h)
    | inr h ↦ elim (Bool-cases (contains name agent_classes)) [
      | inl k ↦ rw (h, k) (keep_agent-held name other _ m h)
      | inr k ↦ rw (h, k) (h, ground arith)
    ]
  ]

  pub release_agent-held :
      (name other : String) (m : AgentManager J.Json A)
      → (contains name (release_agent J C what name m).0.connected_agents
          ≡ not (release_agent J C what name m).1)
        × (contains other (release_agent J C what name m).0.connected_agents ≡ (
            contains other m.connected_agents
            && not (name == other && (release_agent J C what name m).1)))
  unfolding release_agent
  release_agent-held name other m = elim (Option-cases (lookup name m.connected_agents)) [
    | inl e ↦
        let h = not_contained name m.connected_agents e in
        rw (e, release_agent) (h, contains_other name other m.connected_agents h)
    | inr (agent, e) ↦ elim (Option-cases (C.disconnect agent)) [
      | inl k ↦
          let h = contained name agent m.connected_agents e in
          rw (e, release_agent) (rw (k, release_agent) (h, ground arith))
      | inr (gone, k) ↦
          rw (e, release_agent)
            (rw (k, release_agent)
              (
                rw (contains-erase name name m.connected_agents) (ground (arith, eq_refl name)),
                rw (contains-erase name other m.connected_agents) (ground arith),
              ))
    ]
  ]

  note_fails :
      (b : Bool) (name : String) (t : List String × List String)
      → (note J C what b name t).1 ≡ []
      → (b ≡ true) × (t.1 ≡ [])
  unfolding note
  note_fails true name t h = (refl, h)
  note_fails false name t h = ground (arith, h)

  release_each-held :
      (names : List String) (other : String) (m : AgentManager J.Json A)
      → (release_each J C what names m).1.1 ≡ []
      → contains other (release_each J C what names m).0.connected_agents
        ≡ (contains other m.connected_agents && not (is_member other names))
  unfolding release_each is_member
  release_each-held [] other m h = ground arith
  release_each-held (name ∷ names) other m h =
      let r = release_agent J C what name m in
      let k = note_fails r.1 name (release_each J C what names r.0).1 h in
      let i = release_each-held names other r.0 k.1 in
      let j = (release_agent-held name other m).1 in ground (arith, i, j, k.0)

  -- releaseAll that reports no failed agent leaves none connected.
  pub release_all-none :
      (other : String) (m : AgentManager J.Json A)
      → (release_all J C what m).1.1 ≡ []
      → contains other (release_all J C what m).0.connected_agents ≡ false
  unfolding release_all
  release_all-none other m h =
      let i = release_each-held (names_of m.connected_agents) other m h in
      ground (arith, i, member-names other m.connected_agents)
