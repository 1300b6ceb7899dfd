-- ===== src/Platform.antt =====
-- What the tool takes from Qt and from the JSON library: text functions and a JSON type with its
-- accessors. Nothing of them is defined here; a development that runs gives concrete ones.
use xreal_bsp_rgb_tool.Prelude.{Bool, List, Option, String}
use xreal_bsp_rgb_tool.Prelude.Int.{ℤ}

-- QString: `trimmed`, `contains(…, Qt::CaseInsensitive)`, `QString::number`, `toInt`.
pub record Text : Type 0 where
  pub trimmed : String → String
  pub contains_insensitive : String → String → Bool
  pub number : ℤ → String
  pub to_int : String → ℤ

-- nlohmann::json. `find` is `contains` with `operator[]`; the `as_` accessors are the type tests with
-- `get`, and `as_float_text` gives the QString::number of a floating number; `parse` has no result where
-- it throws; `get_int` is get<int>, which takes any number and has no result where it throws; `is_empty`
-- is `empty`, and the `of_` functions make a value of the type; `value_bool` is `value(key, default)`,
-- which throws (none) on a value of another type and on what is no object.
pub record JsonLib : Type 1 where
  pub Json : Type 0
  pub find : String → Json → Option Json
  pub as_string : Json → Option String
  pub as_bool : Json → Option Bool
  pub as_int : Json → Option ℤ
  pub as_array : Json → Option (List Json)
  pub as_object : Json → Option (List (String × Json))
  pub as_float_text : Json → Option String
  pub parse : String → Option Json
  pub dump : Json → String
  pub get_int : Json → Option ℤ
  pub is_empty : Json → Bool
  pub null : Json
  pub of_text : String → Json
  pub of_bool : Bool → Json
  pub of_int : ℤ → Json
  pub of_texts : List String → Json
  pub of_fields : List (String × Json) → Json
  pub value_bool : Json → String → Bool → Option Bool
