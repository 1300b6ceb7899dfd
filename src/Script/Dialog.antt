-- ===== src/Script/Dialog.antt =====
-- The dialogs that a script asks for: what handleDialogEvent shows, and what it makes of the answer.
use Prim.Native.Char.{code}
use Prim.Native.String.{String, ◌++◌}
use text.Mathlib.Text.{◌==◌}
use xreal_bsp_rgb_tool.Prelude.{
  Bool, true, false, not, ◌&&◌, List, [], ◌∷◌, Option, none, some, if◌then◌else◌, leb,
  ◌==◌ as nat_eq,
}
use mathlib.Core.List.{◌++◌ as list_append}
use xreal_bsp_rgb_tool.Prelude.Maps.{insert}
use xreal_bsp_rgb_tool.Platform.{Text, JsonLib}
use xreal_bsp_rgb_tool.Script.History.{Settings, has, load_dialog_history, save_dialog_history}

-- `label.indexOf('-')`, with what stands before and behind.
split_dash : String → Option (String × String)
split_dash String.[] = none
split_dash (String.◌∷◌ c s) =
    if nat_eq (code c) 45 then some (String.[], s) else elim (split_dash s) [
      | none ↦ none
      | some (before, behind) ↦ some (String.◌∷◌ c before, behind)
    ]

all_digits : String → Bool
all_digits String.[] = true
all_digits (String.◌∷◌ c s) = leb 48 (code c) && leb (code c) 57 && all_digits s

-- The regular expression ^\d+$ of a trimmed text.
digits_only : String → Bool
unfolding all_digits
digits_only s = not (s == "") && all_digits s

display_or_dash : Text → String → String
display_or_dash q value = let text = q.trimmed value in if text == "" then "--" else text

-- productIdAndName of a trimmed label.
label_parts : Text → String → Option (String × String) → String × String
unfolding display_or_dash digits_only
label_parts q label none = if digits_only label then (label, "--") else ("--", label)
label_parts q label (some (before, behind)) =
    if before == ""
    then (if digits_only label then (label, "--") else ("--", label))
    else (display_or_dash q (q.trimmed before), display_or_dash q (q.trimmed behind))

-- productIdAndName
unfoldable pub product_id_and_name : Text → String → String × String
unfolding label_parts split_dash
product_id_and_name q product_label =
    let label = q.trimmed product_label in
    if label == "" then ("--", "--") else label_parts q label (split_dash label)

-- What a field of a multi_field_input dialog shows: its list of values, which a field without choices
-- lets the user edit, and the value that is set at first, if one is.
pub record FieldInput : Type 0 where
  pub name : String
  pub label : String
  pub history_key : String
  pub editable : Bool
  pub items : List String
  pub current : Option String

-- A message box has its kind, title and message; a form the four texts about the device.
pub data Dialog : Type 0 where
  message_box : String → String → String → Dialog
  question_box : String → String → Dialog
  input_dialog : String → String → String → Dialog
  form_dialog : String → String → List String → List FieldInput → Dialog

-- What the user does: a button of the question, or Ok with the texts of the fields, or Cancel.
pub data Answer : Type 0 where
  chose : Bool → Answer
  accepted : List String → Answer
  rejected : Answer

pub data ResponseValue : Type 0 where
  flag : Bool → ResponseValue
  entered : String → ResponseValue
  values : List (String × String) → ResponseValue

-- The response; its `success` is always true.
pub record Response : Type 0 where
  pub id : String
  pub cancelled : Bool
  pub response : Option ResponseValue

-- The device that the dialogs name.
pub record Device : Type 0 where
  pub runtime_agent_name : String
  pub runtime_glasses_fsn : String
  pub runtime_glasses_product_label : String

append_new : List String → List String → List String
append_new items [] = items
append_new items (c ∷ cs) =
    append_new (if has c items then items else list_append items (c ∷ [])) cs

first_or : List String → String → String
first_or [] d = d
first_or (x ∷ xs) d = x

-- The value that the box shows: an editable one any text, another one only a value of its list.
shown_value : Bool → List String → String → Option String
shown_value true items value = some value
shown_value false items value = if not (value == "") && has value items then some value else none

text_at : List String → String
text_at texts = first_or texts ""

rest_of : List String → List String
rest_of [] = []
rest_of (x ∷ xs) = xs

-- The values of the form's answer, and the histories with them.
unfoldable pub collect_values :
    Text
    → List FieldInput
    → List String
    → List (String × String)
    → Settings
    → List (String × String) × Settings
unfolding text_at rest_of first_or save_dialog_history
collect_values q [] texts entries settings = (entries, settings)
collect_values q (input ∷ inputs) texts entries settings =
    collect_values q inputs (rest_of texts) (insert input.name (text_at texts) entries)
      (save_dialog_history q input.history_key (text_at texts) settings)

module _ (q : Text) (J : JsonLib) where
  open J use {Json, find, as_string, as_bool, as_int, as_array, as_float_text}

  -- jsonString
  pub json_string : Json → String → String → String
  json_string value key fallback = elim (find key value) [
    | none ↦ fallback
    | some v ↦ elim (as_string v) [ none ↦ fallback | some s ↦ s ]
  ]

  -- jsonBool
  pub json_bool : Json → String → Bool → Bool
  json_bool value key fallback = elim (find key value) [
    | none ↦ fallback
    | some v ↦ elim (as_bool v) [ none ↦ fallback | some b ↦ b ]
  ]

  -- An item of jsonStringList; one of another type is left out.
  item_text : Json → Option String
  item_text item = elim (as_string item) [
    | some s ↦ some s
    | none ↦ elim (as_int item) [
      | some n ↦ some (q.number n)
      | none ↦ elim (as_float_text item) [
        | some s ↦ some s
        | none ↦ elim (as_bool item) [ some b ↦ some (if b then "true" else "false") | none ↦ none ]
      ]
    ]
  ]

  item_texts : List Json → List String
  unfolding item_text
  item_texts [] = []
  item_texts (item ∷ items) = elim (item_text item) [
    | none ↦ item_texts items
    | some s ↦ s ∷ item_texts items
  ]

  -- jsonStringList
  pub json_string_list : Json → String → List String
  unfolding item_texts
  json_string_list value key = elim (find key value) [
    | none ↦ []
    | some v ↦ elim (as_array v) [ none ↦ [] | some items ↦ item_texts items ]
  ]

  module _ (sha1_hex : String → String) where
    -- scriptHistoryScope of a context's path, and dialogHistoryKey.
    pub script_history_scope : String → String
    script_history_scope path = if path == "" then "unknown_script" else sha1_hex path

    pub dialog_history_key : String → String → String → String
    unfolding script_history_scope
    dialog_history_key path title field_name =
        "script_dialog_history/"
        ++ (script_history_scope path ++ ("/" ++ (sha1_hex title ++ ("/" ++ field_name))))

    -- One field of the form.
    pub field_input : String → String → Settings → Json → FieldInput
    unfolding json_string json_string_list dialog_history_key append_new first_or shown_value
    field_input path title settings field =
        let name = json_string field "name" "" in
        let listed = json_string_list field "choices" in
        let choices : List String = elim listed [
          | [] ↦ json_string_list field "options"
          | c ∷ cs ↦ c ∷ cs
        ] in
        let key = dialog_history_key path title name in
        let history = load_dialog_history key settings in
        let configured = q.trimmed (json_string field "default" "") in
        let effective = first_or history configured in
        let editable : Bool = elim choices [ [] ↦ true | c ∷ cs ↦ false ] in
        let items =
          append_new (if configured == "" then history else append_new history (configured ∷ []))
            choices in
        record {
          name = name;
          label = json_string field "label" name;
          history_key = key;
          editable = editable;
          items = items;
          current = shown_value editable items effective;
        }

    field_inputs : String → String → Settings → List Json → List FieldInput
    unfolding field_input
    field_inputs path title settings [] = []
    field_inputs path title settings (f ∷ fs) =
        field_input path title settings f ∷ field_inputs path title settings fs

    -- The form of a multi_field_input event.
    pub form_fields : String → String → Settings → Json → List FieldInput
    unfolding field_inputs
    form_fields path title settings event = elim (find "fields" event) [
      | none ↦ []
      | some v ↦ elim (as_array v) [
        | none ↦ []
        | some fields ↦ field_inputs path title settings fields
      ]
    ]

    abbrev device_texts : Device → List String
    device_texts d =
        let parts = product_id_and_name q d.runtime_glasses_product_label in
        display_or_dash q d.runtime_agent_name
        ∷ parts.0
        ∷ parts.1
        ∷ display_or_dash q d.runtime_glasses_fsn
        ∷ []

    -- The dialog of an event.
    pub dialog_of : String → Device → Settings → Json → Dialog
    unfolding json_string form_fields display_or_dash
    dialog_of path device settings event =
        let kind = json_string event "kind" "info" in
        let title = json_string event "title" "脚本提示" in
        let message = json_string event "message" "" in
        if kind == "question"
        then question_box title message
        else if kind == "input"
        then input_dialog title message (json_string event "default" "")
        else if kind == "multi_field_input"
        then form_dialog title message (device_texts device) (form_fields path title settings event)
        else message_box kind title message

  -- What handleDialogEvent makes of the dialog and the answer. A question that is closed counts as No,
  -- a dialog that is not accepted as cancelled, and a message box has no answer.
  unfoldable pub respond : String → Dialog → Answer → Settings → Response × Settings
  unfolding collect_values text_at first_or
  respond id (message_box kind title message) answer settings =
      (record { id = id; cancelled = false; response = some (flag true) }, settings)
  respond id (question_box title message) (chose b) settings =
      (record { id = id; cancelled = false; response = some (flag b) }, settings)
  respond id (question_box title message) answer settings =
      (record { id = id; cancelled = false; response = some (flag false) }, settings)
  respond id (input_dialog title message default) (accepted texts) settings =
      (record { id = id; cancelled = false; response = some (entered (text_at texts)) }, settings)
  respond id (input_dialog title message default) answer settings =
      (record { id = id; cancelled = true; response = none }, settings)
  respond id (form_dialog title message texts fields) (accepted answers) settings =
      let r = collect_values q fields answers [] settings in
      (record { id = id; cancelled = false; response = some (values r.0) }, r.1)
  respond id (form_dialog title message texts fields) answer settings =
      (record { id = id; cancelled = true; response = none }, settings)
