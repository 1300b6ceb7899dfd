-- ===== src/Script/Tests.antt =====
-- Concrete scripts, output and dialogs, and the theorems of the script executor applied to them.
use text.Mathlib.Text.{◌==◌}
use xreal_bsp_rgb_tool.Prelude.{
  ℕ, ◌≡◌, refl, true, false, List, [], ◌∷◌, ◌++◌, Option, none, some, String, if◌then◌else◌, length,
  arith,
}
use xreal_bsp_rgb_tool.Prelude.Int.{pos}
use xreal_bsp_rgb_tool.Prelude.Maps.{lookup}
use xreal_bsp_rgb_tool.Script.Runs.{succeeds, error_left}
use xreal_bsp_rgb_tool.Script.Lifecycle.{timed_out_start}
use xreal_bsp_rgb_tool.Script.Reach.{execute_command-late}
use xreal_bsp_rgb_tool.Platform.{Text, JsonLib}
use xreal_bsp_rgb_tool.Script.Lines.{drain, process_chunks}
use xreal_bsp_rgb_tool.Script.Chunks.{
  lines_of, deliver_all, drain-lines_of, NoLine, flatten, process_chunks-lines_of,
}
use xreal_bsp_rgb_tool.Script.History.{Settings}
use xreal_bsp_rgb_tool.Script.Dialog.{Device, accepted}
use xreal_bsp_rgb_tool.Script.Executor.{ScriptExecutor, is_active}
use xreal_bsp_rgb_tool.Script.Lifecycle.{FileAnswer, started, Finish, execute_command, process_ends}
use xreal_bsp_rgb_tool.Script.Frame.{frame}
use xreal_bsp_rgb_tool.Script.Stream.{read_outputs, read_outputs-flatten}
use xreal_bsp_rgb_tool.Script.Sound.{completions_of, Sound, may_die}
use xreal_bsp_rgb_tool.Script.Reach.{
  Reachable, created, executed, ended, new_executor, reachable-Sound,
}

-- Documents without arrays: an object holds texts.
pub data Document : Type 0 where
  leaf : String → Document
  object : List (String × String) → Document

field : String → Document → Option Document
field key (leaf s) = none
field key (object fields) = elim (lookup key fields) [ none ↦ none | some s ↦ some (leaf s) ]

text_of : Document → Option String
text_of (leaf s) = some s
text_of (object fields) = none

abbrev plain_text : Text
plain_text = record {
  trimmed = λ s. s;
  contains_insensitive = λ s t. s == t;
  number = λ z. "3";
  to_int = λ s. pos 0;
}

abbrev documents : JsonLib
documents = record {
  Json = Document;
  find = field;
  as_string = text_of;
  as_bool = λ d. none;
  as_int = λ d. none;
  as_array = λ d. none;
  get_int = λ d. none;
  as_object = λ d. none;
  as_float_text = λ d. none;
  parse =
      λ s. if s == "ask" then some (object (("type", "dialog") ∷ ("kind", "input") ∷ [])) else none;
  dump = λ d. "{}";
  is_empty = λ d. false;
  null = object [];
  of_text = leaf;
  of_bool = λ b. leaf (if b then "true" else "false");
  of_int = λ z. leaf "0";
  of_texts = λ ss. leaf "[]";
  of_fields = λ fs. object [];
  value_bool = λ d key b. some b;
}

-- The line "a" asks, any other one is printed.
abbrev decode : List ℕ → String
decode bytes = elim bytes [
  | [] ↦ ""
  | b ∷ bs ↦ elim bs [ [] ↦ "__RECORDLAB_EVENT__ ask" | c ∷ cs ↦ "hello" ]
]

abbrev glasses : Device
glasses = record {
  runtime_agent_name = "glasses_bsp_node";
  runtime_glasses_fsn = "F1";
  runtime_glasses_product_label = "3-One";
}

abbrev remembered : Settings
remembered = ("key", "b" ∷ "" ∷ "a" ∷ "b" ∷ []) ∷ []

abbrev newcomer : ScriptExecutor
newcomer =
    new_executor plain_text documents decode (λ s. s) (λ s. s) glasses remembered
      (accepted ("4" ∷ []) ∷ [])

abbrev script_file : FileAnswer
script_file = record { exists_file = true; suffix = "py"; content = some (65 ∷ 10 ∷ 66 ∷ []) }

abbrev begun : ScriptExecutor
begun =
    execute_command plain_text documents decode (λ s. s) (λ s. s) script_file none started "a.py"
      newcomer

abbrev crash : Finish
crash = record { exit_code = pos 3; normal_exit = true }

begun-Reachable : Reachable plain_text documents decode (λ s. s) (λ s. s) begun 1
unfolding may_die completions_of
begun-Reachable =
    executed script_file none started "a.py" newcomer 0
      (created glasses remembered (accepted ("4" ∷ []) ∷ [])) refl

begun_active : is_active begun.session.process ≡ true
unfolding execute_command
begun_active = refl

-- A message in two lines, cut in the middle of the first one.
abbrev pieces : List (List ℕ)
pieces = (104 ∷ []) ∷ (105 ∷ 10 ∷ 97 ∷ []) ∷ (10 ∷ 98 ∷ []) ∷ []

abbrev whole : List (List ℕ)
whole = (104 ∷ 105 ∷ 10 ∷ 97 ∷ 10 ∷ 98 ∷ []) ∷ []

no_line : NoLine []
unfolding lines_of
no_line = refl

same_bytes : flatten pieces ≡ flatten whole
unfolding flatten
same_bytes = refl

drain-lines_of_example :
    drain (λ (line : List ℕ) (s : ℕ). length line) 5 (104 ∷ 105 ∷ 10 ∷ 98 ∷ []) 0 ≡ (
      deliver_all
          (λ (line : List ℕ) (s : ℕ). length line)
          (lines_of (104 ∷ 105 ∷ 10 ∷ 98 ∷ [])).0
          0,
      (lines_of (104 ∷ 105 ∷ 10 ∷ 98 ∷ [])).1,
    )
drain-lines_of_example =
    drain-lines_of (λ (line : List ℕ) (s : ℕ). length line) 5 (104 ∷ 105 ∷ 10 ∷ 98 ∷ []) 0
      (omega arith)

process_chunks-lines_of_example :
    process_chunks (λ (line : List ℕ) (s : ℕ). length line) pieces [] 0 ≡ (
      deliver_all (λ (line : List ℕ) (s : ℕ). length line) (lines_of ([] ++ flatten pieces)).0 0,
      (lines_of ([] ++ flatten pieces)).1,
    )
process_chunks-lines_of_example =
    process_chunks-lines_of (λ (line : List ℕ) (s : ℕ). length line) pieces [] 0 no_line

read_outputs-flatten_example :
    read_outputs plain_text documents decode (λ s. s) (λ s. s) pieces begun
    ≡ read_outputs plain_text documents decode (λ s. s) (λ s. s) whole begun
unfolding execute_command new_executor
read_outputs-flatten_example =
    read_outputs-flatten plain_text documents decode (λ s. s) (λ s. s) pieces whole begun no_line
      same_bytes

reachable-Sound_example :
    Sound (frame (process_ends plain_text documents decode (λ s. s) (λ s. s) crash begun).session) 1
reachable-Sound_example =
    reachable-Sound plain_text documents decode (λ s. s) (λ s. s)
      (process_ends plain_text documents decode (λ s. s) (λ s. s) crash begun) 1
      (ended crash begun 1 begun-Reachable begun_active)

abbrev good_end : Finish
good_end = record { exit_code = pos 0; normal_exit = true }

execute_command-late_example :
    (frame
      (process_ends plain_text documents decode
        (λ s. s)
        (λ s. s)
        good_end
        (execute_command plain_text documents decode
          (λ s. s)
          (λ s. s)
          script_file
          none
          timed_out_start
          "a.py"
          newcomer)).session).reports
    ≡ (true, "Failed to start process for a.py")
      ∷ (false, "Failed to start process for a.py")
      ∷ (frame newcomer.session).reports
unfolding succeeds error_left
execute_command-late_example =
    execute_command-late plain_text documents decode (λ s. s) (λ s. s) good_end script_file "a.py"
      newcomer
