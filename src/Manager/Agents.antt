-- ===== src/Manager/Agents.antt =====
-- AgentManager: the agents by name, connected ones and configured ones. An agent is of any type with the
-- operations of BaseAgent that the manager calls. The order in which an unordered_map is walked is that
-- of the list.
use Prim.Native.String.{◌++◌}
use text.Mathlib.Text.{◌==◌}
use xreal_bsp_rgb_tool.Prelude.{
  ℕ, Bool, true, false, not, ◌||◌, List, [], ◌∷◌, Option, none, some, String, if◌then◌else◌,
}
use xreal_bsp_rgb_tool.Prelude.Int.{ℤ, pos}
use xreal_bsp_rgb_tool.Prelude.Maps.{lookup, contains, erase, insert}
use xreal_bsp_rgb_tool.Platform.{JsonLib}
use xreal_bsp_rgb_tool.Manager.Fields.{◌>>=◌, Fields, value_text, value_int, done}

-- What a custom parameter can be; one of another type is left out.
pub data CustomValue : Type 0 where
  custom_text : String → CustomValue
  custom_int : ℤ → CustomValue
  custom_flag : Bool → CustomValue

-- The arguments of the two constructors of agents.
pub data AgentSetup : Type 0 where
  localhost_agent : String → String → AgentSetup
  base_agent : String → String → String → ℤ → ℤ → String → List (String × CustomValue) → AgentSetup

pub record CmdReply (Json : Type 0) : Type 0 where
  pub success : Bool
  pub message : String
  pub result : Json
  pub feedback : Json
  pub status_value : ℤ

-- BaseAgent. `connect` gives its success and message, and like `disconnect` nothing where it throws;
-- `cmd` has the command, the parameters, whether it waits, and the time it may take in seconds.
pub record AgentClass (Json A : Type 0) : Type 0 where
  pub make_agent : AgentSetup → A
  pub connect : A → Option (A × Bool × String)
  pub disconnect : A → Option A
  pub is_connected : A → Bool
  pub cmd : String → Json → Bool → ℕ → A → A × CmdReply Json

-- The constructor's agentClasses_.
abbrev pub agent_classes : List (String × String)
agent_classes = ("glasses_bsp_node", "BaseAgent") ∷ ("localhost", "LocalhostAgent") ∷ []

-- `status_changes` are the signals agentStatusChanged, newest first.
pub record AgentManager (Json A : Type 0) : Type 0 where
  pub agent_configs : List (String × List (String × Json))
  pub connected_agents : List (String × A)
  pub primary_agents : List String
  pub status_changes : List (String × Bool)

unfoldable pub names_of {ℓ} : {V : Type ℓ} → List (String × V) → List String
names_of [] = []
names_of ((k, v) ∷ rest) = k ∷ names_of rest

unfoldable pub is_member : String → List String → Bool
is_member s [] = false
is_member s (x ∷ xs) = x == s || is_member s xs

module _ (J : JsonLib) {A : Type 0} (C : AgentClass J.Json A) (what : String → String) where
  open J use {Json, as_string, as_int, as_bool, as_object, of_fields, of_texts, of_text}

  abbrev Manager : Type 0
  Manager = AgentManager Json A

  custom_value : Json → Option CustomValue
  custom_value v = elim (as_string v) [
    | some s ↦ some (custom_text s)
    | none ↦ elim (as_int v) [
      | some n ↦ some (custom_int n)
      | none ↦ elim (as_bool v) [ some b ↦ some (custom_flag b) | none ↦ none ]
    ]
  ]

  custom_values : Fields J → List (String × CustomValue)
  unfolding custom_value
  custom_values [] = []
  custom_values ((k, v) ∷ rest) = elim (custom_value v) [
    | none ↦ custom_values rest
    | some c ↦ (k, c) ∷ custom_values rest
  ]

  custom_params : Fields J → List (String × CustomValue)
  unfolding custom_values
  custom_params config = elim (lookup "custom_params" config) [
    | none ↦ []
    | some v ↦ elim (as_object v) [ none ↦ [] | some fields ↦ custom_values fields ]
  ]

  localhost_setup : String → Fields J → Option AgentSetup
  unfolding value_text
  localhost_setup name config = do
    n ← value_text J "name" name config
    dir ← value_text J "scripts_dir" "./scripts" config
    some (localhost_agent n dir)

  base_setup : String → Fields J → Option AgentSetup
  unfolding value_text value_int custom_params
  base_setup name config = do
    n ← value_text J "name" name config
    path ← value_text J "subnode_path" "" config
    host ← value_text J "subnode_host" "127.0.0.1" config
    goal ← value_int J "goal_port" (pos 5690) config
    feedback ← value_int J "feedback_port" (pos 5691) config
    root ← value_text J "root_path" "./output" config
    some (base_agent n path host goal feedback root (custom_params config))

  -- createAgent, nothing where it throws: an agent without a configuration has the JSON null, of which
  -- `value` throws.
  create_agent : String → Manager → Option A
  unfolding localhost_setup base_setup
  create_agent name m = do
    config ← lookup name m.agent_configs
    setup ←
        (if (elim (lookup name agent_classes) [ none ↦ "BaseAgent" | some c ↦ c ])
            == "LocalhostAgent"
          then localhost_setup name config
          else base_setup name config)
    some (C.make_agent setup)

  abbrev about_agent : Bool → String → String → Fields J
  about_agent b message name =
      done J b (("message", of_text message) ∷ ("agent_name", of_text name) ∷ [])

  -- An agent that is connected belongs to the manager; one that is not is deleted.
  unfoldable pub keep_agent :
      String → Option (A × Bool × String) → Manager → Manager × Bool × String
  keep_agent name none m = (m, false, what name)
  keep_agent name (some (agent, true, message)) m = (
    record m {
      connected_agents = insert name agent m.connected_agents;
      status_changes = (name, true) ∷ m.status_changes;
    },
    true,
    message,
  )
  keep_agent name (some (agent, false, message)) m = (m, false, message)

  -- initializeAgent: the manager, the success and the message.
  unfoldable pub initialize_agent : String → Manager → Manager × Bool × String
  unfolding create_agent keep_agent
  initialize_agent name m =
      if contains name m.connected_agents
      then (m, true, name ++ " already initialized")
      else if not (contains name agent_classes)
      then (m, false, "Unknown agent: " ++ name)
      else keep_agent name (elim (create_agent name m) [ none ↦ none | some a ↦ C.connect a ]) m

  -- releaseAgent: the manager, the success and the message.
  unfoldable pub release_agent : String → Manager → Manager × Bool × String
  release_agent name m = elim (lookup name m.connected_agents) [
    | none ↦ (m, true, name ++ " not initialized")
    | some agent ↦ elim (C.disconnect agent) [
      | none ↦ (m, false, what name)
      | some gone ↦ (
        record m {
          connected_agents = erase name m.connected_agents;
          status_changes = (name, false) ∷ m.status_changes;
        },
        true,
        "Released",
      )
    ]
  ]

  -- The names that went well and those that did not, in order.
  abbrev pub Tally : Type 0
  Tally = List String × List String

  unfoldable pub note : Bool → String → Tally → Tally
  note true name (well, ill) = (name ∷ well, ill)
  note false name (well, ill) = (well, name ∷ ill)

  unfoldable pub release_each : List String → Manager → Manager × Tally
  unfolding release_agent note
  release_each [] m = (m, ([], []))
  release_each (name ∷ names) m =
      let r = release_agent name m in
      let rest = release_each names r.0 in (rest.0, note r.1 name rest.1)

  unfoldable pub release_all : Manager → Manager × Tally
  unfolding release_each names_of
  release_all m = release_each (names_of m.connected_agents) m

  -- The stop of one agent, with a time limit of 5 seconds.
  unfoldable pub estop_agent : A → A × Bool
  estop_agent agent = let r = C.cmd "estop" J.null false 5 agent in (r.0, r.1.success)

  unfoldable pub stop_connected : List (String × A) → List (String × A) × Tally
  unfolding estop_agent note
  stop_connected [] = ([], ([], []))
  stop_connected ((name, agent) ∷ agents) =
      let rest = stop_connected agents in
      if C.is_connected agent
      then (let r = estop_agent agent in ((name, r.0) ∷ rest.0, note r.1 name rest.1))
      else ((name, agent) ∷ rest.0, rest.1)

  unfoldable pub stop_all_agents : Manager → Manager × Tally
  unfolding stop_connected
  stop_all_agents m =
      let r = stop_connected m.connected_agents in (record m { connected_agents = r.0 }, r.1)

  unfoldable pub stop_named : String → Option A → Manager → Manager × Option Bool
  unfolding estop_agent
  stop_named name none m = (m, none)
  stop_named name (some agent) m =
      if C.is_connected agent
      then (let r = estop_agent agent in
          (record m { connected_agents = insert name r.0 m.connected_agents }, some r.1))
      else (m, none)

  unfoldable pub stop_agents : List String → Manager → Manager × Tally
  unfolding stop_named note
  stop_agents [] m = (m, ([], []))
  stop_agents (name ∷ names) m =
      let r = stop_named name (lookup name m.connected_agents) m in
      let rest = stop_agents names r.0 in
      (rest.0, elim r.1 [ none ↦ rest.1 | some b ↦ note b name rest.1 ])

  -- The JSON of stopAllAgents, stopAgents and releaseAll; `well` is "stopped" or "released".
  unfoldable pub tally_fields : String → Tally → Fields J
  tally_fields well (good, bad) =
      done J (elim bad [ [] ↦ true | x ∷ xs ↦ false ])
        ((well, of_texts good) ∷ ("failed", of_texts bad) ∷ [])

  -- getAgent, isPrimaryAgent, getInitDeviceParams, setAgentConfig.
  unfoldable pub get_agent : String → Manager → Option A
  get_agent name m = lookup name m.connected_agents

  unfoldable pub is_primary_agent : String → Manager → Bool
  unfolding is_member
  is_primary_agent name m = is_member name m.primary_agents

  unfoldable pub get_agent_config : String → Manager → Fields J
  get_agent_config name m = elim (lookup name m.agent_configs) [ none ↦ [] | some c ↦ c ]

  unfoldable pub get_init_device_params : String → Manager → Json
  unfolding get_agent_config
  get_init_device_params name m = elim (lookup "init_device_params" (get_agent_config name m)) [
    | none ↦ of_fields []
    | some v ↦ elim (as_object v) [ none ↦ of_fields [] | some fields ↦ v ]
  ]

  unfoldable pub set_agent_config : String → Fields J → Manager → Manager
  set_agent_config name config m =
      if contains name m.connected_agents
      then m
      else record m { agent_configs = insert name config m.agent_configs }
