-- ===== src/Agent/Storage.antt =====
-- CmdStorage of src/flowagent/agents/base_agent.cpp: the feedback and the result of every goal. Its lock
-- makes each function one step.
use xreal_bsp_rgb_tool.Prelude.{ℕ, Bool, true, false, List, [], ◌∷◌, ◌++◌, Option, none, some}
use xreal_bsp_rgb_tool.Prelude.Tables.{Table, blank, put, remove, has, emplace}

pub record ResultEntry (Json : Type 0) : Type 0 where
  pub result : Json
  pub success : Bool

-- A goal that waits has an entry in `results` with nothing in it.
pub record CmdStorage (Json : Type 0) : Type 0 where
  pub feedbacks : Table (List Json)
  pub results : Table (Option (ResultEntry Json))

-- What the two callbacks that an agent gives to sendGoal are called with.
pub data Callback (Json : Type 0) : Type 0 where
  feedback_call : ℕ → Json → Callback Json
  result_call : ℕ → Json → Bool → Callback Json

-- The value that an entry of a map holds, and a missing one stands for.
unfoldable pub joined {ℓ} : {X : Type ℓ} → Option (Option X) → Option X
joined none = none
joined (some x) = x

unfoldable pub is_some {ℓ} : {X : Type ℓ} → Option X → Bool
is_some none = false
is_some (some x) = true

unfoldable pub listed {ℓ} : {X : Type ℓ} → Option (List X) → List X
listed none = []
listed (some xs) = xs

module _ {Json : Type 0} where
  abbrev pub no_goals : CmdStorage Json
  no_goals = record { feedbacks = blank; results = blank }

  unfoldable pub init_goal : ℕ → CmdStorage Json → CmdStorage Json
  init_goal id s = record {
    feedbacks = emplace id [] s.feedbacks;
    results = emplace id none s.results;
  }

  unfoldable pub add_feedback : ℕ → Json → CmdStorage Json → CmdStorage Json
  unfolding listed
  add_feedback id feedback s = record s {
    feedbacks = put id (listed (s.feedbacks id) ++ (feedback ∷ [])) s.feedbacks;
  }

  unfoldable pub set_result : ℕ → Json → Bool → CmdStorage Json → CmdStorage Json
  set_result id r b s = record s {
    results = put id (some (record { result = r; success = b })) s.results;
  }

  unfoldable pub get_result : ℕ → CmdStorage Json → Option (ResultEntry Json)
  unfolding joined
  get_result id s = joined (s.results id)

  unfoldable pub get_feedbacks : ℕ → CmdStorage Json → List Json
  unfolding listed
  get_feedbacks id s = listed (s.feedbacks id)

  unfoldable pub has_goal : ℕ → CmdStorage Json → Bool
  has_goal id s = has id s.results

  unfoldable pub clear_goal : ℕ → CmdStorage Json → CmdStorage Json
  clear_goal id s = record { feedbacks = remove id s.feedbacks; results = remove id s.results }

  unfoldable pub reset_storage : CmdStorage Json → CmdStorage Json
  reset_storage s = no_goals

  -- The callbacks of BaseAgent::cmd.
  unfoldable pub called : Callback Json → CmdStorage Json → CmdStorage Json
  unfolding add_feedback set_result
  called (feedback_call id f) s = add_feedback id f s
  called (result_call id r b) s = set_result id r b s

  unfoldable pub called_all : List (Callback Json) → CmdStorage Json → CmdStorage Json
  unfolding called
  called_all [] s = s
  called_all (c ∷ cs) s = called_all cs (called c s)
